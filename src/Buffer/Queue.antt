-- ===== src/Buffer/Queue.antt =====
-- What a buffer promises: a queue of bytes. Its operations against that queue, call by call.
use moduo_write.Common.{
  ℕ, ◌+◌, ◌≤◌, ◌<◌, ◌≡◌, refl, sym, ap, ◌∙◌, inl, inr, Option, none, some, List, [], ◌∷◌, ◌++◌,
  arith, leb, if◌then◌else◌, length, take, drop, take_all, drop_all, Option-cases,
}
use moduo_write.Buffer.Contents.{
  IsValid, contents, max_size, retrieve-contents, retrieve_all-contents, append-contents,
  length-storage-append, retrieve_as_string-contents, storage-retrieve, storage-retrieve_all,
  readable_bytes-length,
}
use moduo_write.Buffer.{
  Buffer, readable_bytes, retrieve_all, retrieve, retrieve_as_string, retrieve_all_as_string,
  append,
}

-- A client's calls. A reply is the string returned, or nothing.
pub data Op : Type 0 where
  appends : List ℕ → Op
  retrieves takes : ℕ → Op
  retrieves_all takes_all : Op

abbrev pub Reply : Type 0
Reply = Option (List ℕ)

-- On a buffer; `none` is a read beyond the vector.
unfoldable pub step : Buffer → Op → Option (Reply × Buffer)
step b (appends bytes) = some (none, append b bytes)
step b (retrieves n) = some (none, retrieve b n)
step b (takes n) = elim (retrieve_as_string b n) [ none ↦ none | some (s, b') ↦ some (some s, b') ]
step b retrieves_all = some (none, retrieve_all b)
step b takes_all = elim (retrieve_all_as_string b) [
  | none ↦ none
  | some (s, b') ↦ some (some s, b')
]

-- On a queue; `none` is a demand for more bytes than there are.
unfoldable pub spec_step : List ℕ → Op → Option (Reply × List ℕ)
spec_step q (appends bytes) = some (none, q ++ bytes)
spec_step q (retrieves n) = some (none, drop n q)
spec_step q (takes n) = if leb n (length q) then some (some (take n q), drop n q) else none
spec_step q retrieves_all = some (none, [])
spec_step q takes_all = some (some q, [])

unfoldable pub run : Buffer → List Op → Option (List Reply)
run b [] = some []
run b (op ∷ ops) = elim (step b op) [
  | none ↦ none
  | some (r, b') ↦ elim (run b' ops) [ none ↦ none | some rs ↦ some (r ∷ rs) ]
]

unfoldable pub spec_run : List ℕ → List Op → Option (List Reply)
spec_run q [] = some []
spec_run q (op ∷ ops) = elim (spec_step q op) [
  | none ↦ none
  | some (r, q') ↦ elim (spec_run q' ops) [ none ↦ none | some rs ↦ some (r ∷ rs) ]
]

-- The bytes that the calls append.
abbrev pub appended : List Op → ℕ
appended [] = 0
appended (appends bytes ∷ ops) = length bytes + appended ops
appended (_ ∷ ops) = appended ops

-- The buffer that a call leaves.
after : Buffer → Op → Buffer
after b (appends bytes) = append b bytes
after b (retrieves n) = retrieve b n
after b (takes n) = retrieve b n
after b retrieves_all = retrieve_all b
after b takes_all = retrieve b (readable_bytes b)

-- A call that the queue allows gives the queue's reply, and leaves a buffer that holds its bytes.
record Simulates (b : Buffer) (op : Op) (r : Reply) (q : List ℕ) : Type 0 where
  replied : step b op ≡ some (r, after b op)
  valid : IsValid (after b op)
  holds : contents (after b op) ≡ q
  grows : length (after b op).storage ≤ length b.storage + appended (op ∷ [])

step_refines :
    (b : Buffer) (op : Op) (r : Reply) (q : List ℕ)
    → IsValid b
    → length b.storage + appended (op ∷ []) < max_size
    → spec_step (contents b) op ≡ some (r, q)
    → Simulates b op r q
unfolding step spec_step after retrieve_all_as_string
step_refines b (appends bytes) r q v h e =
    ground (arith, append-contents bytes v, length-storage-append bytes v)
step_refines b (retrieves n) r q v h e = ground (arith, retrieve-contents n v, storage-retrieve b n)
step_refines b (takes n) r q v h e =
    ground (arith, retrieve-contents n v, storage-retrieve b n, retrieve_as_string-contents n v)
step_refines b retrieves_all r q v h e =
    ground (arith, retrieve_all-contents v, storage-retrieve_all b)
step_refines b takes_all r q v h e =
    let n = readable_bytes b in
    ground (
      arith,
      readable_bytes-length v,
      retrieve-contents n v,
      storage-retrieve b n,
      retrieve_as_string-contents n v,
      take_all n (contents b),
      drop_all n (contents b),
    )

appended-cons : (op : Op) (ops : List Op) → appended (op ∷ ops) ≡ appended (op ∷ []) + appended ops
appended-cons (appends bytes) ops = omega arith
appended-cons (retrieves n) ops = omega arith
appended-cons (takes n) ops = omega arith
appended-cons retrieves_all ops = omega arith
appended-cons takes_all ops = omega arith

-- A run of the queue that succeeds splits into its first call and the rest.
spec_run-cons :
    (q : List ℕ) (op : Op) (ops : List Op) (rs : List Reply)
    → spec_run q (op ∷ ops) ≡ some rs
    → (r : Reply) × (q' : List ℕ) × (rs' : List Reply) × (spec_step q op ≡ some (r, q'))
      × (spec_run q' ops ≡ some rs')
      × (rs ≡ r ∷ rs')
unfolding spec_run
spec_run-cons q op ops rs e = go (spec_step q op) refl
  where
    go :
        (o : Option (Reply × List ℕ))
        → spec_step q op ≡ o
        → (r : Reply) × (q' : List ℕ) × (rs' : List Reply) × (spec_step q op ≡ some (r, q'))
          × (spec_run q' ops ≡ some rs')
          × (rs ≡ r ∷ rs')
    go none e' = absurd (ground arith)
    go (some (r, q')) e' = elim (Option-cases (spec_run q' ops)) [
      | inl f ↦ absurd (ground arith)
      | inr (rs', f) ↦ (r, q', rs', e', f, ground arith)
    ]

run_refines_from :
    (ops : List Op) (b : Buffer) (q : List ℕ) (rs : List Reply)
    → IsValid b
    → contents b ≡ q
    → length b.storage + appended ops < max_size
    → spec_run q ops ≡ some rs
    → run b ops ≡ some rs
unfolding run spec_run
run_refines_from [] b q rs v c h e = e
run_refines_from (op ∷ ops) b q rs v c h e =
    let (r, q', rs', first, rest, split) = spec_run-cons q op ops rs e in
    let s =
      step_refines b op r q' v (omega (arith, appended-cons op ops))
        (ap (λ p. spec_step p op) c ∙ first) in
    let ih =
      run_refines_from ops (after b op) q' rs' s.valid s.holds
        (omega (arith, appended-cons op ops, s.grows)) rest in
    rw (s.replied, run) (rw ih (ap some (sym split)))

-- A client whose calls a queue of bytes allows gets from a buffer the replies that the queue gives,
-- as long as the vector stays below the largest size.
pub run_refines :
    (ops : List Op) (b : Buffer) (rs : List Reply)
    → IsValid b
    → length b.storage + appended ops < max_size
    → spec_run (contents b) ops ≡ some rs
    → run b ops ≡ some rs
run_refines ops b rs v h e = run_refines_from ops b (contents b) rs v refl h e
