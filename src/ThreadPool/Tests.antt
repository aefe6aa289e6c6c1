-- ===== src/ThreadPool/Tests.antt =====
-- The choice of loops at a concrete pool.
use moduo_write.Common.{ℕ, ◌+◌, ◌≡◌, true, some, List, [], ◌∷◌, arith, length, get_elem?}
use moduo_write.ThreadPool.{ThreadPool, new, set_thread_num, start, get_all_loops, choose}
use moduo_write.ThreadPool.RoundRobin.{IsValid, round_robin, start-choose}

-- Three loops, with the last to be chosen next.
abbrev pool : ThreadPool
pool = record {
  base_loop = 100;
  started = true;
  num_threads = 3;
  next = 2;
  threads = 0 ∷ 1 ∷ 2 ∷ [];
  loops = 200 ∷ 201 ∷ 202 ∷ [];
}

round_robin_example :
    (ls : List ℕ) × (q : ThreadPool) × (choose 5 pool ≡ some (ls, q))
    × (get_elem? ls 4 ≡ some 200)
    × IsValid q
    × (q.loops ≡ pool.loops)
round_robin_example = round_robin pool 5 4 (omega arith) (omega arith)

start-choose_example :
    let p = (start (λ i. 200 + i) (set_thread_num (new 100) 3) true).0 in
    (ls : List ℕ) × (q : ThreadPool) × (length (get_all_loops p) ≡ 3)
    × (choose 5 p ≡ some (ls, q))
    × (get_elem? ls 4 ≡ some 201)
start-choose_example = start-choose (λ i. 200 + i) 100 3 5 4 true (omega arith) (omega arith)
