-- ===== src/Server.antt =====
-- TcpServer.h and TcpServer.cc: the connections of a server, and the loops that they are given to.
pub mod Lifecycle
pub mod Names
pub mod History
pub mod Queueing
mod Tests
use moduo_write.Common.{
  ℕ, ◌+◌, ◌^◌, Bool, Option, none, some, List, [], ◌∷◌, ◌++◌, leb, ◌==◌, if◌then◌else◌, Outcome,
  done, exited, undefined, bind, take,
}
use moduo_write.Common.Dict.{lookup, insert, erase}
use moduo_write.System.{Sys}
use moduo_write.EventLoop.{
  EventLoop, Functor, listen, connect_established, connect_destroyed, is_in_loop_thread,
  queue_in_loop,
}
use moduo_write.EventLoop
use moduo_write.ThreadPool.{ThreadPool, get_next_loop}
use moduo_write.ThreadPool

-- What the server uses of a `TcpConnection`: the number in its name, its own address, its socket, and
-- the loop that `getLoop()` returns, by address.
pub record ServerConn : Type 0 where
  pub id : ℕ
  pub address : ℕ
  pub sockfd : ℕ
  pub loop : ℕ

-- `class TcpServer`, less the acceptor and the user's callbacks. The name of a connection is the
-- server's name and address with a number, so the map is kept by that number.
pub record TcpServer : Type 0 where
  pub base_loop : ℕ
  pub thread_pool : ThreadPool
  pub next_conn_id : ℕ
  pub started : ℕ
  pub connections : List (ℕ × ServerConn)

-- The name that `newConnection` gives: `name_`, and in a buffer of 64 bytes "-%s#%d".
unfoldable pub conn_name : (ℕ → List ℕ) → List ℕ → List ℕ → ℕ → List ℕ
conn_name decimal name ip_port id = name ++ take 63 (45 ∷ (ip_port ++ 35 ∷ decimal id))

-- The server in its process: the loops by address, and the running thread.
pub record Process (K : Type 0) : Type 0 where
  pub server : TcpServer
  pub loops : List (ℕ × EventLoop)
  pub kernel : K
  pub tid : ℕ

-- The constructor; `none` is a null pointer, which ends the process.
unfoldable pub new : Option ℕ → Outcome TcpServer
new none = exited
new (some loop) = done (record {
  base_loop = loop;
  thread_pool = ThreadPool.new loop;
  next_conn_id = 1;
  started = 0;
  connections = [];
})

unfoldable pub set_thread_num : TcpServer → ℕ → TcpServer
set_thread_num s n = record s { thread_pool = ThreadPool.set_thread_num s.thread_pool n }

-- The new `TcpConnection` is given `loop_`, the base loop.
abbrev pub new_conn : ℕ → ℕ → TcpServer → ServerConn
new_conn address sockfd s = record {
  id = s.next_conn_id;
  address = address;
  sockfd = sockfd;
  loop = s.base_loop;
}

module _ {K : Type 0} (sys : Sys K) where
  -- `loop->queueInLoop(f)`; without such a loop the pointer dangles.
  unfoldable pub queue_in : ℕ → Functor → Process K → Outcome (Process K)
  queue_in loop f p = elim (lookup loop p.loops) [
    | none ↦ undefined
    | some l ↦
        let (l', k) = queue_in_loop sys p.tid f l p.kernel in
        done (record p { loops = insert loop l' p.loops; kernel = k })
  ]

  -- `loop->runInLoop(f)`, where `now` is what `f` does when it runs.
  unfoldable pub run_in :
      ℕ → Functor → (Process K → Outcome (Process K)) → Process K → Outcome (Process K)
  run_in loop f now p = elim (lookup loop p.loops) [
    | none ↦ undefined
    | some l ↦ if is_in_loop_thread l p.tid then now p else queue_in loop f p
  ]

  unfoldable pub remove_connection_in_loop : ServerConn → Process K → Outcome (Process K)
  remove_connection_in_loop c p =
      queue_in c.loop (connect_destroyed c.address)
        (record p { server = record p.server { connections = erase c.id p.server.connections } })

  unfoldable pub remove_connection : ServerConn → Process K → Outcome (Process K)
  remove_connection c p =
      run_in p.server.base_loop (EventLoop.remove_connection_in_loop c.address)
        (remove_connection_in_loop c) p

  -- The user's `threadInitCallback_` for each loop for which the pool itself calls it.
  unfoldable pub init_each :
      (ℕ → Process K → Outcome (Process K)) → List ℕ → Process K → Outcome (Process K)
  init_each init [] p = done p
  init_each init (l ∷ ls) p = bind (init l p) λ p'. init_each init ls p'

  -- `exec` is what a functor does when it runs.
  module _ (exec : Functor → Process K → Outcome (Process K)) where
    -- `start`. The pool's threads return the loops at `start_loop i`; `made` holds these loops.
    unfoldable pub start :
        (ℕ → ℕ)
        → List (ℕ × EventLoop)
        → Bool
        → (ℕ → Process K → Outcome (Process K))
        → Process K
        → Outcome (Process K)
    start start_loop made has_init init p =
        let p₁ = record p { server = record p.server { started = p.server.started + 1 } } in
        if p.server.started == 0
        then (let (pool, own) = ThreadPool.start start_loop p.server.thread_pool has_init in
            bind
              (init_each init own (record p₁ {
                server = record p₁.server { thread_pool = pool };
                loops = p.loops ++ made;
              }))
              λ p₂. run_in p₂.server.base_loop listen (exec listen) p₂)
        else done p₁

    -- `newConnection(sockfd, peerAddr)`, where `address` is where the connection is allocated. Reading
    -- beyond the pool's vector and overflowing the `int` are undefined.
    unfoldable pub new_connection : ℕ → ℕ → Process K → Outcome (Process K)
    new_connection address sockfd p = elim (get_next_loop p.server.thread_pool) [
      | none ↦ undefined
      | some (io_loop, pool) ↦
          if leb (2 ^ 31) (p.server.next_conn_id + 1)
          then undefined
          else run_in io_loop (connect_established address) (exec (connect_established address))
              (record p {
                server = record p.server {
                  thread_pool = pool;
                  next_conn_id = p.server.next_conn_id + 1;
                  connections =
                      insert p.server.next_conn_id (new_conn address sockfd p.server)
                        p.server.connections;
                };
              })
    ]

    -- The destructor, over the connections in the order of the map.
    unfoldable pub destroy_each : List (ℕ × ServerConn) → Process K → Outcome (Process K)
    destroy_each [] p = done p
    destroy_each ((i, c) ∷ cs) p =
        bind (run_in c.loop (connect_destroyed c.address) (exec (connect_destroyed c.address)) p)
          λ p'. destroy_each cs p'

    unfoldable pub destroy : Process K → Outcome (Process K)
    destroy p = destroy_each p.server.connections p
