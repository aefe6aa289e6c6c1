-- ===== src/ThreadPool.antt =====
-- EventLoopThreadLoop.h and EventLoopThreadLoop.cc: the pool of loops, and the choice of one in turn.
pub mod RoundRobin
mod Tests
use moduo_write.Common.{
  ℕ, zero, suc, ◌+◌, Bool, true, false, ◌&&◌, Option, none, some, List, [], ◌∷◌, ◌++◌, leb, ◌==◌,
  if◌then◌else◌, length, get_elem?,
}

-- `class EventLoopThreadLoop`, less its name. Loops are named by their addresses; `threads` holds the
-- numbers of the threads that were made.
pub record ThreadPool : Type 0 where
  pub base_loop : ℕ
  pub started : Bool
  pub num_threads : ℕ
  pub next : ℕ
  pub threads : List ℕ
  pub loops : List ℕ

unfoldable pub new : ℕ → ThreadPool
new base_loop = record {
  base_loop = base_loop;
  started = false;
  num_threads = 0;
  next = 0;
  threads = [];
  loops = [];
}

unfoldable pub set_thread_num : ThreadPool → ℕ → ThreadPool
set_thread_num p n = record p { num_threads = n }

module _ (start_loop : ℕ → ℕ) where
  -- The loop of `start`, from `i` on with `n` rounds left. `start_loop i` is the loop that the thread
  -- number `i` returns from `startLoop()`.
  unfoldable pub start_threads : ℕ → ℕ → ThreadPool → ThreadPool
  start_threads zero i p = p
  start_threads (suc n) i p =
      start_threads n (i + 1)
        (record p { threads = p.threads ++ i ∷ []; loops = p.loops ++ start_loop i ∷ [] })

  -- The list is the loops for which this function itself calls `cb`; the threads call it for theirs.
  unfoldable pub start : ThreadPool → Bool → ThreadPool × List ℕ
  start p has_cb = (
    start_threads p.num_threads 0 (record p { started = true }),
    if p.num_threads == 0 && has_cb then p.base_loop ∷ [] else [],
  )

-- `none` is an index beyond the vector.
unfoldable pub get_next_loop : ThreadPool → Option (ℕ × ThreadPool)
get_next_loop p = elim p.loops [
  | [] ↦ some (p.base_loop, p)
  | l ∷ ls ↦ elim (get_elem? (l ∷ ls) p.next) [
    | none ↦ none
    | some loop ↦
        some
          (loop, record p { next = if leb (length (l ∷ ls)) (p.next + 1) then 0 else p.next + 1 })
  ]
]

unfoldable pub get_all_loops : ThreadPool → List ℕ
get_all_loops p = elim p.loops [ [] ↦ p.base_loop ∷ [] | l ∷ ls ↦ l ∷ ls ]

-- As many calls of `getNextLoop`, one after another.
unfoldable pub choose : ℕ → ThreadPool → Option (List ℕ × ThreadPool)
choose zero p = some ([], p)
choose (suc n) p = elim (get_next_loop p) [
  | none ↦ none
  | some (l, p') ↦ elim (choose n p') [ none ↦ none | some (ls, q) ↦ some (l ∷ ls, q) ]
]
