-- ===== src/Server/Lifecycle.antt =====
-- TcpServer.cc: a connection from `newConnection` to the removal from the map.
use moduo_write.Common.{
  ℕ, ◌+◌, ◌^◌, ◌≤◌, ◌<◌, ◌≡◌, refl, ◌≢◌, true, false, none, some, arith, get_or, if◌then◌else◌,
  Outcome, done,
}
use moduo_write.Common.Dict.{lookup, insert, erase, lookup-insert, lookup-inserted, lookup-erase}
use moduo_write.System.{Sys}
use moduo_write.EventLoop.{
  EventLoop, Functor, connect_established, connect_destroyed, is_in_loop_thread, queue_in_loop,
  push_functor, wakes, wakeup,
}
use moduo_write.ThreadPool.{ThreadPool}
use moduo_write.ThreadPool.RoundRobin.{IsValid, get_next_loop-some, next_index}
use moduo_write.Server.Queueing.{queued_in, run_in-away}
use moduo_write.Server.{
  ServerConn, TcpServer, Process, queue_in, run_in, new_conn, new_connection,
  remove_connection_in_loop, remove_connection,
}

-- Each connection is kept under its own number, which was given out before, and belongs to the base
-- loop.
pub record Inv (s : TcpServer) : Type 0 where
  pub below : (i : ℕ) → s.next_conn_id ≤ i → lookup i s.connections ≡ none
  pub own :
      (i : ℕ) (c : ServerConn)
      → lookup i s.connections ≡ some c
      → (c.id ≡ i) × (c.loop ≡ s.base_loop)

-- A new connection under the next number.
pub joined-Inv :
    (address sockfd : ℕ) (s : TcpServer) (pool : ThreadPool)
    → Inv s
    → Inv (record s {
      thread_pool = pool;
      next_conn_id = s.next_conn_id + 1;
      connections = insert s.next_conn_id (new_conn address sockfd s) s.connections;
    })
joined-Inv address sockfd s pool v =
    let c = new_conn address sockfd s in
    record {
      below = λ i h. ground (arith, lookup-insert s.next_conn_id i c s.connections, v.below i);
      own = λ i d e. ground (arith, lookup-insert s.next_conn_id i c s.connections, v.own i d);
    }

pub erased-Inv :
    (id : ℕ) (s : TcpServer) → Inv s → Inv (record s { connections = erase id s.connections })
erased-Inv id s v = record {
  below = λ i h. ground (arith, lookup-erase id i s.connections, v.below i);
  own = λ i d e. ground (arith, lookup-erase id i s.connections, v.own i d);
}

module _ {K : Type 0} (sys : Sys K) where
  -- A loop of another thread gets the functor behind those that wait.
  run_in-other :
      (loop : ℕ) (f : Functor) (now : Process K → Outcome (Process K)) (p : Process K)
      (l : EventLoop)
      → lookup loop p.loops ≡ some l
      → is_in_loop_thread l p.tid ≡ false
      → (p' : Process K) × (run_in sys loop f now p ≡ done p')
        × (p'.server ≡ p.server)
        × (lookup loop p'.loops ≡ some (push_functor f l))
        × (p'.kernel ≡ wakeup sys l p.kernel)
  unfolding queue_in_loop wakes
  run_in-other loop f now p l e away = (
    queued_in sys loop f l p,
    run_in-away sys loop f now p l e away,
    refl,
    lookup-inserted loop (push_functor f l) p.loops,
    rw away refl,
  )

  -- `removeConnection` in the base loop's thread erases the connection from the map and queues its
  -- `connectDestroyed` once, in the base loop, behind what waits there; the loop is woken if it is
  -- running its callbacks. The other connections stay.
  pub remove_connection-Removed :
      (id : ℕ) (c : ServerConn) (p : Process K) (l : EventLoop)
      → Inv p.server
      → lookup id p.server.connections ≡ some c
      → lookup p.server.base_loop p.loops ≡ some l
      → is_in_loop_thread l p.tid ≡ true
      → (p' : Process K) × (remove_connection sys c p ≡ done p')
        × Inv p'.server
        × (lookup id p'.server.connections ≡ none)
        × ((i : ℕ) → id ≢ i → lookup i p'.server.connections ≡ lookup i p.server.connections)
        × (lookup p.server.base_loop p'.loops ≡ some (push_functor (connect_destroyed c.address) l))
        × (p'.kernel ≡ (if l.calling_pending_functors then wakeup sys l p.kernel else p.kernel))
  unfolding remove_connection remove_connection_in_loop run_in queue_in queue_in_loop wakes
  remove_connection-Removed id c p l v known e here =
      let (same_id, base) = v.own id c known in
      let (l', k) = queue_in_loop sys p.tid (connect_destroyed c.address) l p.kernel in
      (
        record p {
          server = record p.server { connections = erase c.id p.server.connections };
          loops = insert c.loop l' p.loops;
          kernel = k;
        },
        ground arith,
        erased-Inv c.id p.server v,
        ground (arith, lookup-erase c.id id p.server.connections),
        λ i h. ground (arith, lookup-erase c.id i p.server.connections),
        ground (arith, lookup-insert c.loop p.server.base_loop l' p.loops),
        ground arith,
      )

  module _ (exec : Functor → Process K → Outcome (Process K)) where
    -- With threads in the pool, `newConnection` enters the connection under a new number and leaves the
    -- others as they are. It queues `connectEstablished` in the loop that is next in turn and
    -- wakes it, but the connection's own loop is the base loop.
    pub new_connection-handed_over :
        (address sockfd : ℕ) (p : Process K) (l : EventLoop)
        → Inv p.server
        → IsValid p.server.thread_pool
        → p.server.next_conn_id + 1 < 2 ^ 31
        → let io_loop = get_or p.server.thread_pool.loops p.server.thread_pool.next 0 in
          lookup io_loop p.loops ≡ some l
          → is_in_loop_thread l p.tid ≡ false
          → (p' : Process K) × (new_connection sys exec address sockfd p ≡ done p')
            × Inv p'.server
            × (lookup p.server.next_conn_id p.server.connections ≡ none)
            × (lookup p.server.next_conn_id p'.server.connections
                ≡ some (new_conn address sockfd p.server))
            × ((i : ℕ)
                → p.server.next_conn_id ≢ i
                → lookup i p'.server.connections ≡ lookup i p.server.connections)
            × (lookup io_loop p'.loops ≡ some (push_functor (connect_established address) l))
            × (p'.kernel ≡ wakeup sys l p.kernel)
    unfolding new_connection
    new_connection-handed_over address sockfd p l v t bound e away =
        let s = p.server in
        let c = new_conn address sockfd s in
        let entered = record s {
          thread_pool = record s.thread_pool { next = next_index s.thread_pool };
          next_conn_id = s.next_conn_id + 1;
          connections = insert s.next_conn_id c s.connections;
        } in
        let (p', returns, same, queued, woken) =
          run_in-other (get_or s.thread_pool.loops s.thread_pool.next 0)
            (connect_established address) (exec (connect_established address))
            (record p { server = entered }) l e away in
        (
          p',
          ground (arith, get_next_loop-some s.thread_pool t, returns),
          rw same (joined-Inv address sockfd s entered.thread_pool v),
          v.below s.next_conn_id (omega arith),
          rw same (ground (arith, lookup-insert s.next_conn_id s.next_conn_id c s.connections)),
          λ i h. rw same (ground (arith, lookup-insert s.next_conn_id i c s.connections)),
          queued,
          woken,
        )
