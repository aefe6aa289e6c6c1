-- ===== src/Service/Removal.antt =====
-- TcpServer.cc, `removeConnection`, called from the connection that closes.
use moduo_write.Common.{
  bind, Ensures, inl, inr, Bool-cases, subst, sym, ℕ, ◌≡◌, refl, ◌∙◌, subst, sym, inl, inr,
  Bool-cases, true, false, some, arith, Outcome, done,
}
use moduo_write.Common.Dict.{lookup, erase, lookup-inserted}
use moduo_write.System.{Sys, SysLaws}
use moduo_write.System.Part.{laws_with}
use moduo_write.EventLoop.{
  EventLoop, one_bytes, wakeup, Functor, connect_destroyed, is_in_loop_thread, queue_in_loop,
  push_functor, wakeup, wakes, one_bytes,
}
use moduo_write.EventLoop
use moduo_write.Connection.{World}
use moduo_write.Connection.Lifecycle.{Closed, KeepsClosed}
use moduo_write.Server.{TcpServer, Process, remove_connection_in_loop, remove_connection}
use moduo_write.Server.Queueing.{queued_in, queue_in-done, run_in-here, run_in-away}
use moduo_write.System.{SysLaws}
use moduo_write.System.Part.{laws_with}
use moduo_write.Connection.Lifecycle.{Closed, KeepsClosed}
use moduo_write.Service.{
  memory_sys, Store, Memory, process_of, world_of, in_server, memory_sys, store_sys, close_callback,
}

-- The server without a connection.
abbrev pub without : ℕ → TcpServer → TcpServer
without number s = record s { connections = erase number s.connections }

module _ {K : Type 0} (sys : Sys K) where
  -- The connection's loop has got a functor; the server is `s`.
  abbrev pub queued : Functor → TcpServer → World (Memory K) → World (Memory K)
  queued f s w =
      let p =
        queued_in (store_sys sys) w.kernel.rest.server.base_loop f w.loop
          (record (process_of w) { server = s }) in
      world_of p w.conn (push_functor f w.loop)

  in_server-done :
      (f : Process (Store K) → Outcome (Process (Store K))) (w : World (Memory K))
      (p : Process (Store K)) (l : EventLoop)
      → f (process_of w) ≡ done p
      → lookup p.server.base_loop p.loops ≡ some l
      → in_server f w ≡ done (world_of p w.conn l)
  unfolding in_server
  in_server-done f w p l e at = rw (in_server, e, bind, at) refl

  -- The base loop is lookup-inserted in the process of a world.
  base_found :
      (w : World (Memory K))
      → lookup w.kernel.rest.server.base_loop (process_of w).loops ≡ some w.loop
  base_found w = lookup-inserted w.kernel.rest.server.base_loop w.loop w.kernel.rest.loops

  pub close_callback-here :
      (number : ℕ) (w : World (Memory K))
      → is_in_loop_thread w.loop w.tid ≡ true
      → close_callback sys number w
        ≡ done (queued (connect_destroyed w.conn.address) (without number w.kernel.rest.server) w)
  unfolding close_callback remove_connection remove_connection_in_loop queue_in_loop
  close_callback-here number w here =
      in_server-done _ w _ _
        (run_in-here (store_sys sys) _ _ _ (process_of w) w.loop (base_found w) here
          ∙ queue_in-done (store_sys sys) _ _ _ w.loop (base_found w))
        (lookup-inserted _ _ _)

  pub close_callback-away :
      (number : ℕ) (w : World (Memory K))
      → is_in_loop_thread w.loop w.tid ≡ false
      → close_callback sys number w
        ≡ done (queued (EventLoop.remove_connection_in_loop w.conn.address) w.kernel.rest.server w)
  unfolding close_callback remove_connection queue_in_loop
  close_callback-away number w away =
      in_server-done _ w _ _
        (run_in-away (store_sys sys) _ _ _ (process_of w) w.loop (base_found w) away)
        (lookup-inserted _ _ _)

module _ {K : Type 0} {sys : Sys K} (laws : SysLaws sys) where
  abbrev pub memory_laws : SysLaws (memory_sys sys)
  memory_laws = laws_with laws

  pub queued-Closed :
      (f : Functor) (s : TcpServer) (w : World (Memory K))
      → Closed memory_laws w
      → Closed memory_laws (queued sys f s w)
  unfolding push_functor queue_in_loop wakeup
  queued-Closed f s w c =
      let same : (e i : ℕ)
          → laws.interest (queued sys f s w).kernel.kernel e i ≡ laws.interest w.kernel.kernel e i =
        λ e i. ground (arith, laws.write_interest w.kernel.kernel w.loop.wakeup_fd e i one_bytes) in
      record {
        inv = record {
          input = c.inv.input;
          output = c.inv.output;
          tracked = record {
            in_map = c.inv.tracked.in_map;
            in_epoll = same _ _ ∙ c.inv.tracked.in_epoll;
          };
          other_fd = c.inv.other_fd;
          registered = c.inv.registered;
        };
        state = c.state;
        index = c.index;
        events = c.events;
        silent = same _ _ ∙ c.silent;
      }

  -- The server's close callback returns and keeps a closed connection closed, in whatever thread it is
  -- called.
  pub close_callback-KeepsClosed :
      (number : ℕ) → KeepsClosed memory_laws (close_callback sys number)
  close_callback-KeepsClosed number w c = elim (Bool-cases (is_in_loop_thread w.loop w.tid)) [
    | inl here ↦
        subst (Ensures (Closed memory_laws)) (sym (close_callback-here sys number w here))
          (queued-Closed _ _ w c)
    | inr away ↦
        subst (Ensures (Closed memory_laws)) (sym (close_callback-away sys number w away))
          (queued-Closed _ _ w c)
  ]
