-- ===== src/ThreadPool/RoundRobin.antt =====
-- EventLoopThreadLoop.cc: the loops take their turns.
use moduo_write.Common.{
  ℕ, zero, suc, ◌+◌, ◌%◌, ◌<◌, ◌≡◌, refl, sym, ap, ap₂, ◌∙◌, Bool, true, some, List, [], ◌∷◌, ◌++◌,
  append-nil, append_assoc, arith, leb, if◌then◌else◌, length, get_elem?, get_or,
  get_elem?-eq-get_or,
}
use native.Mathlib.Nat.{mod-add-mod, mod-eq_of_lt, mod-mod, add-zero}
use moduo_write.ThreadPool.{
  ThreadPool, new, set_thread_num, start_threads, start, get_next_loop, get_all_loops, choose,
}

-- The next choice is within the vector.
abbrev pub IsValid : ThreadPool → Type 0
IsValid p = p.next < length p.loops

pub next_index : ThreadPool → ℕ
next_index p = if leb (length p.loops) (p.next + 1) then 0 else p.next + 1

-- A valid pool hands out the loop at its index and moves on.
pub get_next_loop-some :
    (p : ThreadPool)
    → IsValid p
    → get_next_loop p ≡ some (get_or p.loops p.next 0, record p { next = next_index p })
unfolding get_next_loop next_index
get_next_loop-some p v = ground (arith, get_elem?-eq-get_or p.loops p.next 0 v)

pub next_index-IsValid : (p : ThreadPool) → IsValid p → next_index p < length p.loops
unfolding next_index
next_index-IsValid p v = ground arith

next_index-mod : (p : ThreadPool) → IsValid p → next_index p ≡ (p.next + 1) % length p.loops
unfolding next_index
next_index-mod p v = grind arith

-- The loops in turn, going round at the end of the vector.
abbrev pub turns : List ℕ → ℕ → ℕ → List ℕ
turns ls i zero = []
turns ls i (suc k) = get_or ls (i % length ls) 0 ∷ turns ls (i + 1) k

mod_next : (i j n : ℕ) → i % n ≡ j % n → (i + 1) % n ≡ (j + 1) % n
mod_next i j n h = sym (mod-add-mod i n 1) ∙ ap (λ m. (m + 1) % n) h ∙ mod-add-mod j n 1

turns_congr :
    (ls : List ℕ) (k i j : ℕ) → i % length ls ≡ j % length ls → turns ls i k ≡ turns ls j k
turns_congr ls zero i j h = refl
turns_congr ls (suc k) i j h =
    ap₂ ◌∷◌ (ap (λ m. get_or ls m 0) h)
      (turns_congr ls k (i + 1) (j + 1) (mod_next i j (length ls) h))

get_elem?-turns :
    (ls : List ℕ) (k s i : ℕ)
    → i < k
    → get_elem? (turns ls s k) i ≡ some (get_or ls ((s + i) % length ls) 0)
get_elem?-turns ls zero s i h = absurd (omega arith)
get_elem?-turns ls (suc k) s zero h = rw add-zero
get_elem?-turns ls (suc k) s (suc i) h =
    get_elem?-turns ls k (s + 1) i (omega arith)
    ∙ ap (λ m. some (get_or ls (m % length ls) 0)) {x = s + 1 + i} {y = s + suc i} (omega arith)

choose-turns :
    (k : ℕ) (p : ThreadPool)
    → IsValid p
    → choose k p ≡ some (turns p.loops p.next k, record p { next = (p.next + k) % length p.loops })
unfolding choose
choose-turns zero p v =
    ap (λ m. some ([], record p { next = m })) {y = (p.next + 0) % length p.loops} (grind arith)
choose-turns (suc k) p v =
    let n = length p.loops in
    let p' = record p { next = next_index p } in
    let moved = next_index-mod p v in
    rw (get_next_loop-some p v, choose)
      (rw (choose-turns k p' (rw moved (grind arith))) (
        ap₂ (λ (ls : List ℕ) (m : ℕ). some (ls, record p { next = m }))
          (ap₂ ◌∷◌ (ap (λ m. get_or p.loops m 0) (sym (mod-eq_of_lt v)))
            (turns_congr p.loops k p'.next (p.next + 1) (rw moved (mod-mod (p.next + 1) n))))
          (rw moved (
            mod-add-mod (p.next + 1) n k
            ∙ ap (λ m. m % n) {x = p.next + 1 + k} {y = p.next + suc k} (omega arith)))))

-- Of any number of successive calls of `getNextLoop`, the call number `i` returns the loop `i` places
-- on from the index, going round at the end; no call reads beyond the vector, and after the calls the
-- index is again within it.
pub round_robin :
    (p : ThreadPool) (k i : ℕ)
    → IsValid p
    → i < k
    → (ls : List ℕ) × (q : ThreadPool) × (choose k p ≡ some (ls, q))
      × (get_elem? ls i ≡ some (get_or p.loops ((p.next + i) % length p.loops) 0))
      × IsValid q
      × (q.loops ≡ p.loops)
round_robin p k i v h = (
  turns p.loops p.next k,
  record p { next = (p.next + k) % length p.loops },
  choose-turns k p v,
  get_elem?-turns p.loops k p.next i h,
  grind arith,
  refl,
)

-- The loops that the threads from number `i` on return, in their order.
loops_from : (ℕ → ℕ) → ℕ → ℕ → List ℕ
loops_from start_loop zero i = []
loops_from start_loop (suc n) i = start_loop i ∷ loops_from start_loop n (i + 1)

length-loops_from : (start_loop : ℕ → ℕ) (n i : ℕ) → length (loops_from start_loop n i) ≡ n
unfolding loops_from
length-loops_from start_loop zero i = refl
length-loops_from start_loop (suc n) i = ap suc (length-loops_from start_loop n (i + 1))

get_or-loops_from :
    (start_loop : ℕ → ℕ) (n i j : ℕ)
    → j < n
    → get_or (loops_from start_loop n i) j 0 ≡ start_loop (i + j)
unfolding loops_from
get_or-loops_from start_loop zero i j h = absurd (omega arith)
get_or-loops_from start_loop (suc n) i zero h = rw add-zero
get_or-loops_from start_loop (suc n) i (suc j) h =
    get_or-loops_from start_loop n (i + 1) j (omega arith)
    ∙ ap start_loop {x = i + 1 + j} {y = i + suc j} (omega arith)

loops-start_threads :
    (start_loop : ℕ → ℕ) (n i : ℕ) (p : ThreadPool)
    → (start_threads start_loop n i p).loops ≡ p.loops ++ loops_from start_loop n i
unfolding start_threads loops_from
loops-start_threads start_loop zero i p = sym (append-nil p.loops)
loops-start_threads start_loop (suc n) i p =
    loops-start_threads start_loop n (i + 1) _ ∙ append_assoc p.loops (start_loop i ∷ []) _

next-start_threads :
    (start_loop : ℕ → ℕ) (n i : ℕ) (p : ThreadPool) → (start_threads start_loop n i p).next ≡ p.next
unfolding start_threads
next-start_threads start_loop zero i p = refl
next-start_threads start_loop (suc n) i p = next-start_threads start_loop n (i + 1) _

get_all_loops-some :
    (p : ThreadPool) → 0 < length p.loops → length (get_all_loops p) ≡ length p.loops
unfolding get_all_loops
get_all_loops-some p h = go p.loops h
  where
    go :
        (ls : List ℕ)
        → 0 < length ls
        → length (elim ls [ [] ↦ p.base_loop ∷ [] | l ∷ rest ↦ l ∷ rest ]) ≡ length ls
    go [] h = absurd (omega arith)
    go (l ∷ rest) h = refl

-- A new pool that was told to use `n` threads, with `n` not 0, has on its start a loop for each of
-- them. The call number `i` of `getNextLoop` after that returns the loop of the thread `i % n`.
pub start-choose :
    (start_loop : ℕ → ℕ) (base n k i : ℕ) (has_cb : Bool)
    → 0 < n
    → i < k
    → let p = (start start_loop (set_thread_num (new base) n) has_cb).0 in
      (ls : List ℕ) × (q : ThreadPool) × (length (get_all_loops p) ≡ n)
      × (choose k p ≡ some (ls, q))
      × (get_elem? ls i ≡ some (start_loop (i % n)))
unfolding start set_thread_num new
start-choose start_loop base n k i has_cb pos h =
    let p = start_threads start_loop n 0 (record (new base) { started = true; num_threads = n }) in
    let all : p.loops ≡ loops_from start_loop n 0 = loops-start_threads start_loop n 0 _ in
    let first : p.next ≡ 0 = next-start_threads start_loop n 0 _ in
    let size : length p.loops ≡ n = ap length all ∙ length-loops_from start_loop n 0 in
    let (ls, q, chosen, at_i, _, _) = round_robin p k i (omega (arith, first, size)) h in
    (
      ls,
      q,
      get_all_loops-some p (omega (arith, size)) ∙ size,
      chosen,
      at_i
          ∙ ap some (
              rw (first, size, all)
                (ap (λ m. get_or (loops_from start_loop n 0) (m % n) 0) {x = 0 + i} {y = i}
                    (omega arith)
                  ∙ get_or-loops_from start_loop n 0 (i % n) (omega arith)
                  ∙ ap start_loop {x = 0 + i % n} {y = i % n} (omega arith))),
    )
