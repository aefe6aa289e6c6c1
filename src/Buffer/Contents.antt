-- ===== src/Buffer/Contents.antt =====
-- The invariant of a buffer, its contents, and what each operation does to them.
use moduo_write.Common.{
  ap, ◌∙◌, [], take_all, drop_all, ℕ, ◌+◌, ◌-◌, ◌^◌, ◌≤◌, ◌<◌, ◌≡◌, refl, some, List, [], ◌++◌,
  arith, leb, if◌then◌else◌, length, take, drop, slice, length-take, length-drop, drop-slice,
  drop_all, take-take, add_size,
}
use moduo_write.Buffer.Memory.{
  resize, copy_within, read_at, length-resize, length-copy_in, length-copy_within,
  copy_within-copy_in, slice-copy_in, slice-resize,
}
use moduo_write.Buffer.{
  Buffer, new, readable_bytes, writable_bytes, prependable_bytes, peek, begin_write, retrieve_all,
  retrieve, retrieve_as_string, make_space, ensure_writable_bytes, append, cheap_prepend,
  initial_size, retrieve_all_as_string,
}

abbrev pub max_size : ℕ
max_size = 2 ^ 63

-- The indices are ordered within the vector, which is smaller than half the address space.
pub record IsValid (b : Buffer) : Type 0 where
  pub prepend_le : cheap_prepend ≤ b.reader_index
  pub ordered : b.reader_index ≤ b.writer_index
  pub within : b.writer_index ≤ length b.storage
  pub bounded : length b.storage < max_size

-- The bytes from the read index to the write index.
abbrev pub contents : Buffer → List ℕ
contents b = slice b.storage b.reader_index (b.writer_index - b.reader_index)

pub length-contents :
    {b : Buffer} → IsValid b → length (contents b) ≡ b.writer_index - b.reader_index
length-contents {b} v = omega (
  arith,
  length-take (b.writer_index - b.reader_index) (drop b.reader_index b.storage),
  length-drop b.reader_index b.storage,
)

pub readable_bytes-length : {b : Buffer} → IsValid b → readable_bytes b ≡ length (contents b)
unfolding readable_bytes
readable_bytes-length v = omega (arith, length-contents v)

pub retrieve_all-contents :
    {b : Buffer} → IsValid b → IsValid (retrieve_all b) × (contents (retrieve_all b) ≡ [])
unfolding retrieve_all
retrieve_all-contents {b} v = (omega arith, refl)

-- `retrieve(len)` keeps a valid buffer valid and drops the first `len` bytes of the contents, all of
-- them where there are no more.
pub retrieve-contents :
    {b : Buffer} (len : ℕ)
    → IsValid b
    → IsValid (retrieve b len) × (contents (retrieve b len) ≡ drop len (contents b))
unfolding retrieve retrieve_all readable_bytes
retrieve-contents {b} len v = ground (
  arith,
  drop-slice len b.reader_index (b.writer_index - b.reader_index) b.storage,
  drop_all len (contents b),
  readable_bytes-length v,
)

-- `makeSpace` keeps the contents and makes room for `len` bytes behind them.
abbrev pub HasRoom : Buffer → Buffer → ℕ → Type 0
HasRoom b b' len =
    IsValid b' × (contents b' ≡ contents b) × (b'.writer_index + len ≤ length b'.storage)

make_space_grow :
    {b : Buffer} (len : ℕ)
    → IsValid b
    → length b.storage + len < max_size
    → length b.storage ≤ b.writer_index + len
    → HasRoom b (record b { storage = resize b.storage (add_size b.writer_index len) }) len
make_space_grow {b} len v h l = ground (
  arith,
  length-resize b.storage (b.writer_index + len),
  slice-resize b.storage (b.writer_index + len) b.reader_index (b.writer_index - b.reader_index),
)

make_space_shift :
    {b : Buffer} (len : ℕ)
    → IsValid b
    → let n = b.writer_index - b.reader_index in
      n + cheap_prepend + len ≤ length b.storage
      → HasRoom b
          (record b {
            storage = copy_within b.storage b.reader_index cheap_prepend n;
            reader_index = cheap_prepend;
            writer_index = cheap_prepend + n;
          })
          len
make_space_shift {b} len v h =
    let n = b.writer_index - b.reader_index in
    rw (copy_within-copy_in b.storage b.reader_index cheap_prepend n v.prepend_le (omega arith)) (
      ground (
        arith,
        length-contents v,
        length-copy_in b.storage cheap_prepend (contents b),
        slice-copy_in b.storage cheap_prepend cheap_prepend (contents b),
      ))

pub make_space-HasRoom :
    {b : Buffer} (len : ℕ)
    → IsValid b
    → length b.storage + len < max_size
    → writable_bytes b < len
    → HasRoom b (make_space b len) len
unfolding make_space writable_bytes prependable_bytes readable_bytes
make_space-HasRoom {b} len v h l = ground (arith, make_space_grow len v, make_space_shift len v)

pub ensure_writable_bytes-HasRoom :
    {b : Buffer} (len : ℕ)
    → IsValid b
    → length b.storage + len < max_size
    → HasRoom b (ensure_writable_bytes b len) len
unfolding ensure_writable_bytes writable_bytes
ensure_writable_bytes-HasRoom {b} len v h = ground (arith, make_space-HasRoom len v h)

-- `append` keeps a valid buffer valid and puts the bytes behind the contents, where the vector stays
-- below 2^63 bytes.
pub append-contents :
    {b : Buffer} (bytes : List ℕ)
    → IsValid b
    → length b.storage + length bytes < max_size
    → IsValid (append b bytes) × (contents (append b bytes) ≡ contents b ++ bytes)
unfolding append begin_write
append-contents {b} bytes v h =
    let b' = ensure_writable_bytes b (length bytes) in
    let room = ensure_writable_bytes-HasRoom (length bytes) v h in
    ground (
      arith,
      room,
      length-copy_in b'.storage b'.writer_index bytes,
      slice-copy_in b'.storage b'.reader_index b'.writer_index bytes,
    )

-- `retrieveAsString(len)` of a valid buffer that holds `len` bytes reads within the vector: it returns
-- the first `len` bytes of the contents and then does what `retrieve(len)` does.
pub retrieve_as_string-contents :
    {b : Buffer} (len : ℕ)
    → IsValid b
    → len ≤ length (contents b)
    → retrieve_as_string b len ≡ some (take len (contents b), retrieve b len)
unfolding retrieve_as_string peek read_at
retrieve_as_string-contents {b} len v h = ground (
  arith,
  length-contents v,
  take-take len (b.writer_index - b.reader_index) (drop b.reader_index b.storage),
)

-- `retrieveAllAsString` of a valid buffer returns the contents and leaves none.
pub retrieve_all_as_string-contents :
    {b : Buffer}
    → IsValid b
    → (b' : Buffer) × (retrieve_all_as_string b ≡ some (contents b, b'))
      × IsValid b'
      × (contents b' ≡ [])
unfolding retrieve_all_as_string
retrieve_all_as_string-contents {b} v =
    let n = readable_bytes-length v in
    let (valid, rest) = retrieve-contents (length (contents b)) v in
    (
      retrieve b (length (contents b)),
      rw n (
          retrieve_as_string-contents (length (contents b)) v (omega arith)
          ∙ ap (λ xs. some (xs, retrieve b (length (contents b))))
              (take_all (length (contents b)) (contents b) (omega arith))),
      valid,
      rest ∙ drop_all (length (contents b)) (contents b) (omega arith),
    )

pub storage-retrieve : (b : Buffer) (len : ℕ) → (retrieve b len).storage ≡ b.storage
unfolding retrieve retrieve_all
storage-retrieve b len = ground arith

pub storage-retrieve_all : (b : Buffer) → (retrieve_all b).storage ≡ b.storage
unfolding retrieve_all
storage-retrieve_all b = refl

-- `append` to a valid buffer reallocates only where the contents, the prepend area and the new bytes
-- do not fit into the vector, and then makes it end where the new bytes end; this holds where the
-- vector stays below 2^63 bytes.
pub length-storage-append :
    {b : Buffer} (bytes : List ℕ)
    → IsValid b
    → length b.storage + length bytes < max_size
    → length (append b bytes).storage ≡ (
        if leb (cheap_prepend + length (contents b) + length bytes) (length b.storage)
        then length b.storage
        else b.writer_index + length bytes)
unfolding append ensure_writable_bytes make_space writable_bytes prependable_bytes readable_bytes
length-storage-append {b} bytes v h = ground (
  arith,
  length-contents v,
  length-copy_in (ensure_writable_bytes b (length bytes)).storage
      (begin_write (ensure_writable_bytes b (length bytes))) bytes,
  length-resize b.storage (b.writer_index + length bytes),
  length-copy_within b.storage b.reader_index cheap_prepend (b.writer_index - b.reader_index),
)

-- A new buffer is valid and empty, and has room for `kInitialSize` bytes: whatever size was asked for.
pub new_lem :
    (size : ℕ)
    → IsValid (new size) × (contents (new size) ≡ []) × (writable_bytes (new size) ≡ initial_size)
unfolding new writable_bytes
new_lem size = (omega arith, refl, refl)
