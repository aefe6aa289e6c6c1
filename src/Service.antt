-- ===== src/Service.antt =====
-- TcpServer.h and TcpServer.cc with TcpConnection.cc: a server and its connections as objects of one
-- process, where a connection's closing really removes it from the server.
pub mod Object
pub mod Frames
pub mod Removal
pub mod Closing
pub mod Opening
pub mod Ending
pub mod Session
mod Tests
unfoldable pub use Object.*
use moduo_write.Common.{Bool, bad_call, ℕ, Option, none, some, List, Outcome, done, undefined, bind}
use moduo_write.Common.Dict.{lookup, insert}
use moduo_write.System.{Sys}
use moduo_write.System.Part.{KernelWith, sys_with}
use moduo_write.EventLoop.{
  EventLoop, Functor, write_complete, high_water_mark, send_in_loop, shutdown_in_loop,
  connect_established, connect_destroyed, remove_connection_in_loop, listen, user,
}
use moduo_write.EventLoop
use moduo_write.Connection.{TcpConnection, World, Callbacks, call, is_callable}
use moduo_write.Acceptor.{Acceptor}
use moduo_write.Acceptor
use moduo_write.System.Net.{Net, SockAddr}
use moduo_write.Connection
use moduo_write.Server.{ServerConn, TcpServer, Process, remove_connection}
use moduo_write.Server

module _ {K : Type 0} (sys : Sys K) where
  abbrev pub memory_sys : Sys (Memory K)
  memory_sys = sys_with sys

  abbrev pub store_sys : Sys (Store K)
  store_sys = sys_with sys

  -- What `newConnection` sets as close callback: `removeConnection` of this server.
  unfoldable pub close_callback : ℕ → World (Memory K) → Outcome (World (Memory K))
  close_callback number w = in_server (remove_connection store_sys (this_conn number w)) w

  -- What `newConnection` sets in a connection.
  unfoldable pub conn_callbacks : UserCallbacks K → ℕ → Callbacks (World (Memory K))
  conn_callbacks u number = record {
    connection_callback = u.connection_callback;
    message_callback = u.message_callback;
    write_complete_callback = u.write_complete_callback;
    high_water_mark_callback = none;
    close_callback = some (close_callback number);
  }

  -- What the functors do when they run. `others` are those that belong to no connection, and
  -- `sendInLoop`, whose argument may dangle.
  module _ (u : UserCallbacks K)
      (others : Functor → Process (Store K) → Outcome (Process (Store K))) where
    unfoldable pub exec : Functor → Process (Store K) → Outcome (Process (Store K))
    exec (write_complete a) p =
        on_conn a (λ number. call (conn_callbacks u number).write_complete_callback) p
    exec (shutdown_in_loop a) p = on_conn a (λ number. Connection.shutdown_in_loop memory_sys) p
    exec (connect_established a) p =
        on_conn a (λ number. Connection.connect_established memory_sys (conn_callbacks u number)) p
    exec (connect_destroyed a) p =
        on_conn a (λ number. Connection.connect_destroyed memory_sys (conn_callbacks u number)) p
    exec (remove_connection_in_loop a) p =
        on_conn a
          (λ number w.
            in_server (Server.remove_connection_in_loop store_sys (this_conn number w)) w)
          p
    exec (high_water_mark a len) p = others (high_water_mark a len) p
    exec (send_in_loop a buf len) p = others (send_in_loop a buf len) p
    exec listen p = others listen p
    exec (user i) p = others (user i) p

    -- A functor that the base loop runs in the thread `tid`.
    unfoldable pub exec_in :
        ℕ → Functor → EventLoop.Thread (Memory K) → Outcome (EventLoop.Thread (Memory K))
    exec_in tid f t = bind (exec f (process_at tid t)) λ p.
        elim (lookup p.server.base_loop p.loops) [
          | none ↦ undefined
          | some l ↦ done (thread_of p l)
        ]

    -- `doPendingFunctors` of the base loop.
    unfoldable pub do_pending_functors : Process (Store K) → Outcome (Process (Store K))
    do_pending_functors p = elim (lookup p.server.base_loop p.loops) [
      | none ↦ undefined
      | some l ↦
          bind (EventLoop.do_pending_functors (exec_in p.tid) (thread_of p l))
            λ t. done (process_at p.tid t)
    ]

    -- `newConnection`, with the allocation of the connection and of its channel.
    unfoldable pub new_connection : ℕ → ℕ → ℕ → Process (Store K) → Outcome (Process (Store K))
    new_connection address channel_address sockfd p =
        let o : ConnObject = record {
          number = p.server.next_conn_id;
          conn = Connection.new address channel_address sockfd;
        } in
        Server.new_connection store_sys exec address sockfd
          (record p { kernel = record p.kernel { rest = insert address o p.kernel.rest } })

    -- A loop is given to the user's `threadInitCallback_`.
    unfoldable pub init : ℕ → Process (Store K) → Outcome (Process (Store K))
    init loop p = elim u.thread_init_callback [ none ↦ bad_call | some f ↦ f loop p ]

    -- `start`, with the loops that the pool's threads return.
    unfoldable pub start :
        (ℕ → ℕ) → List (ℕ × EventLoop) → Process (Store K) → Outcome (Process (Store K))
    start start_loop made p =
        Server.start store_sys exec start_loop made (is_callable u.thread_init_callback) init p

-- The constructor: the server's members, and its acceptor on the base loop.
unfoldable pub new :
    {K : Type 0} → Net K → Option ℕ → ℕ → SockAddr → Bool → K → Outcome (TcpServer × Acceptor × K)
new net loop channel_address listen_addr reuse_port k = bind (Server.new loop) λ server.
    bind (Acceptor.new net channel_address listen_addr reuse_port k) λ (a, k'). done (server, a, k')
