-- ===== src/Buffer/Tests.antt =====
-- Runs of the buffer, and its theorems at concrete inputs.
use moduo_write.Common.{◌≡◌, refl, none, some, [], ◌∷◌, ◌++◌, arith, replicate, length}
use moduo_write.Buffer.Memory.{copy_in, copy_within}
use moduo_write.System.Toy.{fresh, toy, toy_laws}
use moduo_write.Buffer.Contents.{
  IsValid, contents, append-contents, new_lem, length-storage-append, retrieve-contents,
  retrieve_as_string-contents,
}
use moduo_write.Buffer.Descriptor.{Received, read_fd-Received, write_fd-contents}
use moduo_write.Buffer.Queue.{
  spec_step, appends, retrieves, takes, takes_all, run, spec_run, run_refines,
}
use moduo_write.Buffer.{
  Buffer, new, readable_bytes, writable_bytes, prependable_bytes, make_space, ensure_writable_bytes,
  begin_write, append, retrieve, retrieve_as_string, read_fd, read_room, write_fd,
}

-- Twelve bytes of storage: 1 and 2 were read, 3 and 4 are readable.
abbrev sample : Buffer
sample = record {
  storage = replicate 8 0 ++ 1 ∷ 2 ∷ 3 ∷ 4 ∷ [];
  reader_index = 10;
  writer_index = 12;
}

sample-IsValid : IsValid sample
sample-IsValid = omega arith

append_moves :
    append sample (5 ∷ 6 ∷ [])
    ≡ record { storage = replicate 8 0 ++ 3 ∷ 4 ∷ 5 ∷ 6 ∷ []; reader_index = 8; writer_index = 12 }
unfolding append ensure_writable_bytes make_space writable_bytes prependable_bytes readable_bytes
    begin_write copy_in copy_within
append_moves = refl

run_refines_example :
    run sample (appends (5 ∷ []) ∷ takes 1 ∷ retrieves 1 ∷ takes_all ∷ [])
    ≡ some (none ∷ some (3 ∷ []) ∷ none ∷ some (5 ∷ []) ∷ [])
unfolding spec_run spec_step
run_refines_example =
    run_refines (appends (5 ∷ []) ∷ takes 1 ∷ retrieves 1 ∷ takes_all ∷ []) sample
      (none ∷ some (3 ∷ []) ∷ none ∷ some (5 ∷ []) ∷ []) sample-IsValid (omega arith) refl

append-contents_example :
    IsValid (append sample (5 ∷ [])) × (contents (append sample (5 ∷ [])) ≡ 3 ∷ 4 ∷ 5 ∷ [])
append-contents_example = append-contents (5 ∷ []) sample-IsValid (omega arith)

new_lem_example :
    IsValid (new 4096) × (contents (new 4096) ≡ []) × (writable_bytes (new 4096) ≡ 1024)
new_lem_example = new_lem 4096

length-storage-append_example : length (append sample (5 ∷ 6 ∷ 7 ∷ [])).storage ≡ 15
length-storage-append_example = length-storage-append (5 ∷ 6 ∷ 7 ∷ []) sample-IsValid (omega arith)

retrieve-contents_example : IsValid (retrieve sample 1) × (contents (retrieve sample 1) ≡ 4 ∷ [])
retrieve-contents_example = retrieve-contents 1 sample-IsValid

retrieve_as_string-contents_example : retrieve_as_string sample 1 ≡ some (3 ∷ [], retrieve sample 1)
retrieve_as_string-contents_example = retrieve_as_string-contents 1 sample-IsValid (omega arith)

-- Two bytes arrive.
read_fd-Received_example :
    let (n, b, k) = read_fd toy sample 5 (fresh 2) in
    Received sample (toy.readv (fresh 2) 5 (read_room toy sample)).0 (n, b)
    × (k ≡ (toy.readv (fresh 2) 5 (read_room toy sample)).1)
read_fd-Received_example = read_fd-Received toy toy_laws 5 (fresh 2) sample-IsValid (omega arith)

write_fd-contents_example :
    write_fd toy sample 5 (fresh 2) ≡ some (toy.write (fresh 2) 5 (3 ∷ 4 ∷ []))
write_fd-contents_example = write_fd-contents toy toy_laws 5 (fresh 2) sample-IsValid
