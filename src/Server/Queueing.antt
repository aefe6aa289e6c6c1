-- ===== src/Server/Queueing.antt =====
-- TcpServer.cc: calls of `runInLoop` and `queueInLoop` on a loop that is there.
use moduo_write.Common.{
  arith, ◌+◌, ◌^◌, ◌<◌, leb, ℕ, ◌≡◌, refl, ap, ◌∙◌, Bool, if◌then◌else◌, true, false, some, Outcome,
  done,
}
use moduo_write.Common.Dict.{lookup, insert}
use moduo_write.System.{Sys}
use moduo_write.EventLoop.{
  connect_established, EventLoop, Functor, is_in_loop_thread, queue_in_loop,
}
use moduo_write.ThreadPool.{ThreadPool, get_next_loop}
use moduo_write.Server.{new_conn, new_connection, Process, queue_in, run_in}

-- What `newConnection` enters in the server.
abbrev pub entered : {K : Type 0} → ℕ → ℕ → ThreadPool → Process K → Process K
entered address sockfd pool p = record p {
  server = record p.server {
    thread_pool = pool;
    next_conn_id = p.server.next_conn_id + 1;
    connections =
        insert p.server.next_conn_id (new_conn address sockfd p.server) p.server.connections;
  };
}

module _ {K : Type 0} (sys : Sys K) where
  -- The loop with the functor, and the kernel after the wakeup.
  abbrev pub queued_in : ℕ → Functor → EventLoop → Process K → Process K
  queued_in loop f l p =
      let (l', k) = queue_in_loop sys p.tid f l p.kernel in
      record p { loops = insert loop l' p.loops; kernel = k }

  pub queue_in-done :
      (loop : ℕ) (f : Functor) (p : Process K) (l : EventLoop)
      → lookup loop p.loops ≡ some l
      → queue_in sys loop f p ≡ done (queued_in loop f l p)
  unfolding queue_in
  queue_in-done loop f p l e = rw (queue_in, e) refl

  pub run_in-here :
      (loop : ℕ) (f : Functor) (now : Process K → Outcome (Process K)) (p : Process K)
      (l : EventLoop)
      → lookup loop p.loops ≡ some l
      → is_in_loop_thread l p.tid ≡ true
      → run_in sys loop f now p ≡ now p
  unfolding run_in
  run_in-here loop f now p l e here = rw (run_in, e, here) refl

  pub run_in-away :
      (loop : ℕ) (f : Functor) (now : Process K → Outcome (Process K)) (p : Process K)
      (l : EventLoop)
      → lookup loop p.loops ≡ some l
      → is_in_loop_thread l p.tid ≡ false
      → run_in sys loop f now p ≡ done (queued_in loop f l p)
  unfolding run_in
  run_in-away loop f now p l e away =
      rw (run_in, e)
        (ap (λ (b : Bool). if b then now p else queue_in sys loop f p) away
          ∙ queue_in-done loop f p l e)

  -- `newConnection` enters the connection, and then it is `runInLoop` of the loop that is next.
  pub new_connection-run_in :
      (exec : Functor → Process K → Outcome (Process K)) (address sockfd io_loop : ℕ)
      (pool : ThreadPool) (p : Process K)
      → get_next_loop p.server.thread_pool ≡ some (io_loop, pool)
      → p.server.next_conn_id + 1 < 2 ^ 31
      → new_connection sys exec address sockfd p
        ≡ run_in sys io_loop
            (connect_established address)
            (exec (connect_established address))
            (entered address sockfd pool p)
  unfolding new_connection
  new_connection-run_in exec address sockfd io_loop pool p e bound =
      let below : leb (2 ^ 31) (p.server.next_conn_id + 1) ≡ false = ground arith in
      rw (new_connection, e) (rw below refl)
