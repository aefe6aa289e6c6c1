-- ===== src/Buffer.antt =====
-- Buffer.h and Buffer.cc: a byte queue in a vector with read and write indices.
mod Memory
pub mod Contents
pub mod Descriptor
pub mod Queue
mod Tests
use moduo_write.Common.{
  ℕ, ◌+◌, Bool, Option, none, some, List, [], ◌++◌, arith, ltb, leb, if◌then◌else◌, length, take,
  drop, replicate, add_size, sub_size,
}
use mathlib.Core.Option
use moduo_write.System.{Sys, IoResult, count, failed, ReadResult, got, read_failed}
use Memory.{resize, copy_in, copy_within, read_at}

-- `class Buffer`. The storage is the vector's bytes.
pub record Buffer : Type 0 where
  pub storage : List ℕ
  pub reader_index : ℕ
  pub writer_index : ℕ

abbrev pub cheap_prepend : ℕ
cheap_prepend = 8

abbrev pub initial_size : ℕ
initial_size = 1024

-- The constructor does not use its argument.
unfoldable pub new : ℕ → Buffer
new size = record {
  storage = replicate (cheap_prepend + initial_size) 0;
  reader_index = cheap_prepend;
  writer_index = cheap_prepend;
}

pub readable_bytes : Buffer → ℕ
readable_bytes b = sub_size b.writer_index b.reader_index

pub writable_bytes : Buffer → ℕ
writable_bytes b = sub_size (length b.storage) b.writer_index

pub prependable_bytes : Buffer → ℕ
prependable_bytes b = b.reader_index

-- The pointers `peek()` and `beginWrite()`, as offsets from `begin()`.
pub peek : Buffer → ℕ
peek b = b.reader_index

pub begin_write : Buffer → ℕ
begin_write b = b.writer_index

pub retrieve_all : Buffer → Buffer
retrieve_all b = record b { reader_index = cheap_prepend; writer_index = cheap_prepend }

pub retrieve : Buffer → ℕ → Buffer
retrieve b len =
    if ltb len (readable_bytes b)
    then record b { reader_index = add_size b.reader_index len }
    else retrieve_all b

-- `none` is a read beyond the vector, which C++ leaves undefined.
pub retrieve_as_string : Buffer → ℕ → Option (List ℕ × Buffer)
retrieve_as_string b len =
    Option.map (λ result. (result, retrieve b len)) (read_at b.storage (peek b) len)

pub retrieve_all_as_string : Buffer → Option (List ℕ × Buffer)
retrieve_all_as_string b = retrieve_as_string b (readable_bytes b)

pub make_space : Buffer → ℕ → Buffer
make_space b len =
    if ltb (add_size (writable_bytes b) (prependable_bytes b)) (add_size len cheap_prepend)
    then record b { storage = resize b.storage (add_size b.writer_index len) }
    else (let readable = readable_bytes b in
        record b {
          storage = copy_within b.storage b.reader_index cheap_prepend readable;
          reader_index = cheap_prepend;
          writer_index = add_size cheap_prepend readable;
        })

pub ensure_writable_bytes : Buffer → ℕ → Buffer
ensure_writable_bytes b len = if ltb (writable_bytes b) len then make_space b len else b

-- The list is the `len` bytes at `data`.
pub append : Buffer → List ℕ → Buffer
append b bytes =
    let b' = ensure_writable_bytes b (length bytes) in
    record b' {
      storage = copy_in b'.storage (begin_write b') bytes;
      writer_index = add_size b'.writer_index (length bytes);
    }

-- `sizeof(extrabuf)`
abbrev pub extra_size : ℕ
extra_size = 65536

-- What `readFd` does when `readv` has returned: the bytes fill the writable part of the vector
-- first, then the buffer on the stack. The result is the return value, with `*savedErrno`.
pub after_readv : Buffer → ReadResult → IoResult × Buffer
after_readv b (read_failed errno) = (failed errno, b)
after_readv b (got bytes) =
    let n = length bytes in
    let writeable = writable_bytes b in
    let filled = record b { storage = copy_in b.storage b.writer_index (take writeable bytes) } in
    let extrabuf = drop writeable bytes in
    (
      count n,
      if leb n writeable
          then record filled { writer_index = add_size b.writer_index n }
          else append (record filled { writer_index = length b.storage })
              (take (sub_size n writeable) extrabuf),
    )

module _ {K : Type 0} (sys : Sys K) where
  -- Two vectors where the writable part is smaller than `extrabuf`, else one.
  pub read_room : Buffer → ℕ
  read_room b =
      let writeable = writable_bytes b in
      if ltb writeable extra_size then writeable + extra_size else writeable

  pub read_fd : Buffer → ℕ → K → IoResult × Buffer × K
  read_fd b fd k =
      let (r, k') = sys.readv k fd (read_room b) in let (n, b') = after_readv b r in (n, b', k')

  -- `none` is a read beyond the vector; the buffer itself does not change.
  pub write_fd : Buffer → ℕ → K → Option (IoResult × K)
  write_fd b fd k =
      Option.map (λ bytes. sys.write k fd bytes) (read_at b.storage (peek b) (readable_bytes b))
