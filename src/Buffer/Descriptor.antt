-- ===== src/Buffer/Descriptor.antt =====
-- Buffer.cc: what `readFd` and `writeFd` do to the contents.
use moduo_write.Common.{
  ℕ, ◌+◌, ◌-◌, ◌*◌, ◌≤◌, ◌<◌, ◌≡◌, refl, some, List, ◌++◌, append_assoc, arith, leb, length, take,
  drop, length-take, length-drop, take-append-drop, take_all, Bool-cases, inl, inr, sub_size,
}
use moduo_write.System.{Sys, SysLaws, IoResult, count, failed, ReadResult, got, read_failed}
use moduo_write.Buffer.Memory.{copy_in, read_at, length-copy_in, slice-copy_in}
use moduo_write.Buffer.Contents.{
  IsValid, contents, max_size, append-contents, length-contents, readable_bytes-length,
}
use moduo_write.Buffer.{
  Buffer, writable_bytes, peek, extra_size, after_readv, read_room, read_fd, write_fd,
}

-- Bytes that fit are added in place.
fill-contents :
    {b : Buffer} (bytes : List ℕ)
    → IsValid b
    → b.writer_index + length bytes ≤ length b.storage
    → let b' = record b {
      storage = copy_in b.storage b.writer_index bytes;
      writer_index = b.writer_index + length bytes;
    } in
      IsValid b' × (contents b' ≡ contents b ++ bytes)
fill-contents {b} bytes v h = ground (
  arith,
  length-copy_in b.storage b.writer_index bytes,
  slice-copy_in b.storage b.reader_index b.writer_index bytes,
)

-- What a read adds: all bytes on success, nothing on failure.
abbrev pub Received : Buffer → ReadResult → IoResult × Buffer → Type 0
Received b (got bytes) (r, b') =
    (r ≡ count (length bytes)) × IsValid b' × (contents b' ≡ contents b ++ bytes)
Received b (read_failed e) (r, b') = (r ≡ failed e) × (b' ≡ b)

writable_bytes-sub : {b : Buffer} → IsValid b → writable_bytes b ≡ length b.storage - b.writer_index
unfolding writable_bytes
writable_bytes-sub v = omega arith

read_fits :
    {b : Buffer} (bytes : List ℕ)
    → IsValid b
    → length bytes ≤ writable_bytes b
    → Received b (got bytes) (after_readv b (got bytes))
unfolding after_readv
read_fits {b} bytes v h =
    ground (arith, writable_bytes-sub v, take_all (writable_bytes b) bytes h, fill-contents bytes v)

-- The vector once `readv` has filled it.
filled : Buffer → List ℕ → Buffer
filled b bytes = record b {
  storage = copy_in b.storage b.writer_index (take (writable_bytes b) bytes);
  writer_index = length b.storage;
}

filled-contents :
    {b : Buffer} (bytes : List ℕ)
    → IsValid b
    → writable_bytes b < length bytes
    → IsValid (filled b bytes)
      × (contents (filled b bytes) ≡ contents b ++ take (writable_bytes b) bytes)
      × (length (filled b bytes).storage ≡ length b.storage)
unfolding filled
filled-contents {b} bytes v h =
    let w = writable_bytes b in
    ground (
      arith,
      writable_bytes-sub v,
      length-take w bytes,
      length-copy_in b.storage b.writer_index (take w bytes),
      fill-contents (take w bytes) v,
    )

read_overflows :
    {b : Buffer} (bytes : List ℕ)
    → IsValid b
    → writable_bytes b < length bytes
    → length b.storage + length bytes < max_size
    → Received b (got bytes) (after_readv b (got bytes))
unfolding after_readv filled
read_overflows {b} bytes v h l =
    let w = writable_bytes b in
    let (fv, fc, fl) = filled-contents bytes v h in
    ground (
      arith,
      fv,
      fc,
      fl,
      length-drop w bytes,
      take_all (sub_size (length bytes) w) (drop w bytes),
      append-contents (drop w bytes) fv,
      append_assoc (contents b) (take w bytes) (drop w bytes),
      take-append-drop w bytes,
    )

after_readv-Received :
    {b : Buffer} (r : ReadResult)
    → IsValid b
    → ((bytes : List ℕ)
        → r ≡ got bytes
        → writable_bytes b < length bytes
        → length b.storage + length bytes < max_size)
    → Received b r (after_readv b r)
unfolding after_readv
after_readv-Received {b} (got bytes) v h =
    elim (Bool-cases (leb (length bytes) (writable_bytes b))) [
      | inl fits ↦ read_fits bytes v (ground arith)
      | inr over ↦ read_overflows bytes v (ground arith) (h bytes refl (ground arith))
    ]
after_readv-Received (read_failed e) v h = (refl, refl)

module _ {K : Type 0} (sys : Sys K) (laws : SysLaws sys) where
  -- `readFd` into a valid buffer, at least two times 64 KiB below 2^63 bytes, returns what `readv` returned. On success the bytes that arrived stand behind the old
  -- contents, wherever `readv` put them and whether or not the vector had to grow; on failure the
  -- buffer is as it was.
  pub read_fd-Received :
      {b : Buffer} (fd : ℕ) (k : K)
      → IsValid b
      → length b.storage + 2 * extra_size < max_size
      → let (n, b', k') = read_fd sys b fd k in
        Received b (sys.readv k fd (read_room sys b)).0 (n, b')
        × (k' ≡ (sys.readv k fd (read_room sys b)).1)
  unfolding read_fd read_room
  read_fd-Received {b} fd k v h = (
    after_readv-Received (sys.readv k fd (read_room sys b)).0 v
        (λ bytes e over. ground (arith, laws.readv_count k fd (read_room sys b) bytes e)),
    refl,
  )

  -- `writeFd` of a valid buffer reads within the vector and hands `write` exactly the contents.
  pub write_fd-contents :
      {b : Buffer} (fd : ℕ) (k : K)
      → IsValid b
      → write_fd sys b fd k ≡ some (sys.write k fd (contents b))
  unfolding write_fd peek read_at
  write_fd-contents {b} fd k v = ground (arith, readable_bytes-length v, length-contents v)

  -- With what was there, no more arrives than the vector and the second buffer hold.
  pub length-contents-readv :
      {b : Buffer} (fd : ℕ) (k : K) (bytes : List ℕ)
      → IsValid b
      → (sys.readv k fd (read_room sys b)).0 ≡ got bytes
      → length (contents b) + length bytes ≤ length b.storage + extra_size
  unfolding read_room
  length-contents-readv {b} fd k bytes v e = ground (
    arith,
    laws.readv_count k fd (read_room sys b) bytes e,
    writable_bytes-sub v,
    length-contents v,
  )
