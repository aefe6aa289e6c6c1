-- ===== src/Service/Closing.antt =====
-- TcpConnection.cc with TcpServer.cc: a connection closes, and the server forgets it.
use moduo_write.Common.{
  ap₂, ℕ, ◌+◌, ◌*◌, ◌<◌, ◌≡◌, sym, ap, ◌∙◌, subst, ◌≢◌, true, some, none, [], ◌∷◌, ◌++◌, arith,
  length, Outcome, Ensures, Ensures-bind, Ensures-mono, Ensures-WhenDone,
}
use moduo_write.Common.Dict.{lookup, lookup-erase}
use moduo_write.System.{Sys, SysLaws, got}
use moduo_write.Buffer.{extra_size, read_fd}
use moduo_write.Buffer.Contents.{max_size}
use moduo_write.Buffer.Descriptor.{Received, read_fd-Received}
use moduo_write.Connection.{handle_read, after_read}
use moduo_write.Connection.Receiving.{after_fd, read-Arrived, read_result}
use moduo_write.EventLoop.{Functor, is_in_loop_thread, push_functor}
use moduo_write.Connection.{
  World, Callbacks, k_connected, k_disconnected, on_channel, set_state, call, handle_close,
}
use moduo_write.Connection
use moduo_write.Connection.Invariant.{Inv, IsOpen}
use moduo_write.Connection.Lifecycle.{Closed, close-Closed, Removed, connect_destroyed-Removed}
use moduo_write.Server.Lifecycle
use moduo_write.Server.Lifecycle.{erased-Inv}
use moduo_write.Service.{Memory, Rest, UserCallbacks, memory_sys, close_callback, conn_callbacks}
use moduo_write.Service.Frames.{Aside, Aside-trans, close-Aside}
use moduo_write.Service.Removal.{memory_laws, close_callback-here, queued-Closed}

pub distinct_states : k_disconnected ≢ k_connected
distinct_states e = cc e

module _ {K : Type 0} {sys : Sys K} (laws : SysLaws sys) where
  -- A user's callback that keeps a closed connection closed, and does nothing to the server.
  abbrev pub IsDiscreet : (World (Memory K) → Outcome (World (Memory K))) → Type 0
  IsDiscreet f =
      (w : World (Memory K))
      → Closed (memory_laws laws) w
      → Ensures (λ w'. Closed (memory_laws laws) w' × Aside w w') (f w)

  -- The connection is closed, the server knows it no more, and its destruction is queued behind what
  -- waited in its loop.
  pub record Forgotten (number : ℕ) (w w' : World (Memory K)) : Type 0 where
    pub closed : Closed (memory_laws laws) w'
    pub inv : Lifecycle.Inv w'.kernel.rest.server
    pub unknown : lookup number w'.kernel.rest.server.connections ≡ none
    pub others :
        (i : ℕ)
        → number ≢ i
        → lookup i w'.kernel.rest.server.connections ≡ lookup i w.kernel.rest.server.connections
    pub queue :
        w'.loop.pending_functors
        ≡ w.loop.pending_functors ++ Functor.connect_destroyed w.conn.address ∷ []

  close_callback-Forgotten :
      (number : ℕ) (w w' : World (Memory K))
      → Aside w w'
      → Closed (memory_laws laws) w'
      → w.loop.thread_id ≡ w.tid
      → Lifecycle.Inv w.kernel.rest.server
      → Ensures (Forgotten number w) (close_callback sys number w')
  unfolding push_functor
  close_callback-Forgotten number w w' a c home v =
      let here : is_in_loop_thread w'.loop w'.tid ≡ true = ground (arith, a.thread, a.tid, home) in
      subst (Ensures (Forgotten number w)) (sym (close_callback-here sys number w' here)) (record {
        closed = queued-Closed laws _ _ w' c;
        inv =
            erased-Inv number _ (subst Lifecycle.Inv (ap (λ (r : Rest). r.server) (sym a.rest)) v);
        unknown = ground (arith, lookup-erase number number w'.kernel.rest.server.connections);
        others = λ i h.
            ground (arith, lookup-erase number i w'.kernel.rest.server.connections)
            ∙ ap (λ (r : Rest). lookup i r.server.connections) a.rest;
        queue = ap₂ (λ fs n. fs ++ Functor.connect_destroyed n ∷ []) a.queue a.address;
      })

  module _ (u : UserCallbacks K) (number : ℕ) where
    -- A forgotten connection, whose `connectDestroyed` takes it out of the poller.
    pub record Gone (w w' : World (Memory K)) : Type 0 where
      pub forgotten : Forgotten number w w'
      pub destroyed :
          Ensures
            (Removed (memory_laws laws))
            (Connection.connect_destroyed (memory_sys sys) (conn_callbacks sys u number) w')

    -- `handleClose` of an open connection of a server, in the base loop's thread, where the user's
    -- connection callback is set and discreet: the connection is closed and out of epoll, the server
    -- has removed it from its map and keeps the others and its invariant, and `connectDestroyed` is
    -- queued once, behind what waited. Run on what is left, it takes the connection out of the poller.
    pub handle_close-Gone :
        (on_connection : World (Memory K) → Outcome (World (Memory K))) (w : World (Memory K))
        → u.connection_callback ≡ some on_connection
        → IsDiscreet on_connection
        → Inv (memory_laws laws) w
        → IsOpen w.conn.state
        → w.loop.thread_id ≡ w.tid
        → Lifecycle.Inv w.kernel.rest.server
        → Ensures (Gone w) (handle_close (memory_sys sys) (conn_callbacks sys u number) w)
    unfolding handle_close call conn_callbacks
    handle_close-Gone f w set discreet v o home sv =
        let L = memory_laws laws in
        Ensures-bind (λ w₁. Closed L w₁ × Aside w w₁) (Gone w) _ _
          (Ensures-WhenDone (Closed L) (Aside w) _ (close-Closed L w v o) (close-Aside sys w))
          λ w₁ (c, a).
            Ensures-bind (λ w₂. Closed L w₂ × Aside w₁ w₂) (Gone w) _ _
              (subst (λ g. Ensures (λ w₂. Closed L w₂ × Aside w₁ w₂) (call g w₁)) (sym set)
                (discreet w₁ c))
              λ w₂ (c', a').
                Ensures-mono (Forgotten number w) (Gone w) _
                  (close_callback-Forgotten number w w₂ (Aside-trans a a') c' home sv)
                  λ w' g. record {
                    forgotten = g;
                    destroyed =
                        connect_destroyed-Removed L (conn_callbacks sys u number) f
                          (close_callback sys number) w'
                          (λ e. absurd (distinct_states (sym g.closed.state ∙ e))) g.closed.inv;
                  }

    -- At the end of the stream `handleRead` does the same, from an open connection in the base loop's
    -- thread with room to read.
    pub handle_read-Gone :
        (on_connection : World (Memory K) → Outcome (World (Memory K))) (w : World (Memory K))
        → u.connection_callback ≡ some on_connection
        → IsDiscreet on_connection
        → Inv (memory_laws laws) w
        → IsOpen w.conn.state
        → w.loop.thread_id ≡ w.tid
        → Lifecycle.Inv w.kernel.rest.server
        → length w.conn.input_buffer.storage + 2 * extra_size < max_size
        → read_result (memory_laws laws) w ≡ got []
        → Ensures (Gone w) (handle_read (memory_sys sys) (conn_callbacks sys u number) w)
    unfolding handle_read after_read
    handle_read-Gone f w set discreet v o home sv room ends =
        let L = memory_laws laws in
        let (received, kernel) =
          read_fd-Received (memory_sys sys) L w.conn.channel.fd w.kernel v.input room in
        let (n, b, k) = read_fd (memory_sys sys) w.conn.input_buffer w.conn.channel.fd w.kernel in
        let (returned, valid, input) =
          subst (λ r. Received w.conn.input_buffer r (n, b)) ends received in
        let w₁ = after_fd L w in
        let same : w₁.kernel.rest ≡ w.kernel.rest = ap (λ (k : Memory K). k.rest) kernel in
        rw (returned, after_read)
          (Ensures-mono (Gone w₁) (Gone w)
            (handle_close (memory_sys sys) (conn_callbacks sys u number) w₁)
            (handle_close-Gone f w₁ set discreet (read-Arrived L [] w v valid input kernel).inv o
              home (subst Lifecycle.Inv (ap (λ (r : Rest). r.server) (sym same)) sv))
            λ w' g. record {
              forgotten = record {
                closed = g.forgotten.closed;
                inv = g.forgotten.inv;
                unknown = g.forgotten.unknown;
                others = λ i h.
                    g.forgotten.others i h ∙ ap (λ (r : Rest). lookup i r.server.connections) same;
                queue = g.forgotten.queue;
              };
              destroyed = g.destroyed;
            })
