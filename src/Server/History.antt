-- ===== src/Server/History.antt =====
-- TcpServer.cc: connections that come and go, in any order.
pub mod Once
use moduo_write.Common.{
  ℕ, ◌+◌, ◌^◌, ◌<◌, ◌≤◌, ◌≡◌, refl, sym, ap, ◌∙◌, subst, ◌≢◌, inl, inr, Bool, true, false,
  Bool-cases, none, some, List, [], ◌∷◌, ◌++◌, append-nil, append_assoc, arith, get_or, length, leb,
  ◌==◌, if◌then◌else◌, Outcome, done, done-injective,
}
use moduo_write.Common.Dict.{lookup, insert, erase, lookup-insert, lookup-erase}
use moduo_write.System.{Sys}
use moduo_write.EventLoop.{
  EventLoop, Functor, connect_established, connect_destroyed, is_in_loop_thread, queue_in_loop,
  push_functor, wakeup, wakes,
}
use moduo_write.ThreadPool.{ThreadPool}
use moduo_write.ThreadPool.RoundRobin.{IsValid, get_next_loop-some, next_index, next_index-IsValid}
use moduo_write.Server.{
  ServerConn, TcpServer, Process, queue_in, run_in, new_conn, new_connection,
  remove_connection_in_loop, remove_connection,
}
use moduo_write.Server.Lifecycle.{Inv, joined-Inv, erased-Inv}

-- `address` is that of a loop of this process that runs in another thread.
abbrev pub IsElsewhere : {K : Type 0} → Process K → ℕ → Type 0
IsElsewhere p address = (l : EventLoop) × (lookup address p.loops ≡ some l) × (l.thread_id ≢ p.tid)

-- A server in the thread of its base loop, with loops of a pool in other threads.
pub record Running {K : Type 0} (p : Process K) : Type 0 where
  pub inv : Inv p.server
  pub valid : IsValid p.server.thread_pool
  pub base : (l : EventLoop) × (lookup p.server.base_loop p.loops ≡ some l) × (l.thread_id ≡ p.tid)
  pub pool :
      (i : ℕ)
      → i < length p.server.thread_pool.loops
      → IsElsewhere p (get_or p.server.thread_pool.loops i 0)

-- The functors of connections, the latest of them first, in the order of queueing.
abbrev pub destructions : List ServerConn → List Functor
destructions [] = []
destructions (c ∷ cs) = destructions cs ++ connect_destroyed c.address ∷ []

abbrev pub IsApart : ServerConn → List ServerConn → Type 0
IsApart c [] = Unit
IsApart c (d ∷ ds) = (c.id ≢ d.id) × IsApart c ds

-- No connection is there twice.
abbrev pub IsDistinct : List ServerConn → Type 0
IsDistinct [] = Unit
IsDistinct (c ∷ cs) = IsApart c cs × IsDistinct cs

-- None of them is in the server's map, and their numbers will not be given again.
abbrev pub AreGone : List ServerConn → TcpServer → Type 0
AreGone [] s = Unit
AreGone (c ∷ cs) s = (lookup c.id s.connections ≡ none) × (c.id < s.next_conn_id) × AreGone cs s

-- A connection of the map has a number that was given.
known_below :
    (s : TcpServer) (c : ServerConn)
    → Inv s
    → lookup c.id s.connections ≡ some c
    → c.id < s.next_conn_id
known_below s c v e = elim (Bool-cases (leb s.next_conn_id c.id)) [
  | inl beyond ↦ absurd (cc (e, v.below c.id (ground arith)))
  | inr below ↦ ground arith
]

-- The server with a new connection.
abbrev joined : ℕ → ℕ → TcpServer → TcpServer
joined address sockfd s = record s {
  thread_pool = record s.thread_pool { next = next_index s.thread_pool };
  next_conn_id = s.next_conn_id + 1;
  connections = insert s.next_conn_id (new_conn address sockfd s) s.connections;
}

-- Another loop gets a functor.
abbrev pushed : {K : Type 0} → Sys K → ℕ → Functor → EventLoop → Process K → Process K
pushed sys loop f l p = record p {
  loops = insert loop (push_functor f l) p.loops;
  kernel = wakeup sys l p.kernel;
}

module _ {K : Type 0} (sys : Sys K) (exec : Functor → Process K → Outcome (Process K)) where
  -- From `p`, connections were accepted and those of the list removed, each by its own name.
  pub data History (p : Process K) : List ServerConn → Process K → Type 0 where
    begins : History p [] p
    accepts :
        (cs : List ServerConn) (q r : Process K) (address sockfd : ℕ)
        → History p cs q
        → new_connection sys exec address sockfd q ≡ done r
        → History p cs r
    removes :
        (cs : List ServerConn) (q r : Process K) (id : ℕ) (c : ServerConn)
        → History p cs q
        → lookup id q.server.connections ≡ some c
        → remove_connection sys c q ≡ done r
        → History p (c ∷ cs) r

  new_connection-pushed :
      (address sockfd : ℕ) (p r : Process K) (l : EventLoop)
      → IsValid p.server.thread_pool
      → lookup (get_or p.server.thread_pool.loops p.server.thread_pool.next 0) p.loops ≡ some l
      → l.thread_id ≢ p.tid
      → new_connection sys exec address sockfd p ≡ done r
      → r
        ≡ pushed sys
            (get_or p.server.thread_pool.loops p.server.thread_pool.next 0)
            (connect_established address)
            l
            (record p { server = joined address sockfd p.server })
  unfolding new_connection run_in queue_in queue_in_loop wakes
  new_connection-pushed address sockfd p r l t e away is =
      ground (arith, get_next_loop-some p.server.thread_pool t)

  remove_connection-pushed :
      (p r : Process K) (c : ServerConn) (l : EventLoop)
      → c.loop ≡ p.server.base_loop
      → lookup p.server.base_loop p.loops ≡ some l
      → l.thread_id ≡ p.tid
      → remove_connection sys c p ≡ done r
      → (k : K) × (r ≡ record p {
        server = record p.server { connections = erase c.id p.server.connections };
        loops = insert p.server.base_loop (push_functor (connect_destroyed c.address) l) p.loops;
        kernel = k;
      })
  unfolding remove_connection remove_connection_in_loop run_in queue_in queue_in_loop
  remove_connection-pushed p r c l b e here is =
      ((queue_in_loop sys p.tid (connect_destroyed c.address) l p.kernel).1, ground arith)
