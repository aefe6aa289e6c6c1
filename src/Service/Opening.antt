-- ===== src/Service/Opening.antt =====
-- TcpServer.cc with TcpConnection.cc: a server without further threads takes a connection.
use moduo_write.Common.{
  ℕ, ◌+◌, ◌^◌, ◌<◌, ◌≡◌, refl, sym, ap, ◌∙◌, subst, ◌≢◌, true, some, [], arith, Outcome, Ensures,
  Ensures-bind, Ensures-mono, Ensures-WhenDone,
}
use moduo_write.Common.Dict.{lookup, insert, lookup-insert, lookup-inserted}
use moduo_write.System.{Sys, SysLaws}
use moduo_write.EventLoop.{EventLoop, Functor, is_in_loop_thread, connect_established}
use moduo_write.ThreadPool.{get_next_loop}
use moduo_write.Connection.{TcpConnection, World, on_channel, call}
use moduo_write.Connection
use moduo_write.Connection.Invariant.{Inv}
use moduo_write.Connection.Opening.{IsFresh, new-Inv, Established, opened-Established}
use moduo_write.Server.{Process, TcpServer, new_conn}
use moduo_write.Server.Lifecycle
use moduo_write.Server.Lifecycle.{joined-Inv}
use moduo_write.Server.Queueing.{run_in-here, entered, new_connection-run_in}
use moduo_write.Service.{
  ConnObject, Store, Memory, Rest, UserCallbacks, memory_sys, store_sys, conn_callbacks, world_of,
  stored, exec, new_connection,
}
use moduo_write.Service.Frames.{Aside, Aside-trans, opened-Aside, elsewhere-Inv, on_conn-runs}
use moduo_write.Service.Removal.{memory_laws}

module _ {K : Type 0} {sys : Sys K} (laws : SysLaws sys) where
  -- A user's callback that keeps a new connection established, and does nothing to the server.
  abbrev pub IsWelcoming : (World (Memory K) → Outcome (World (Memory K))) → Type 0
  IsWelcoming f =
      (w : World (Memory K))
      → Established (memory_laws laws) w
      → Ensures (λ w'. Established (memory_laws laws) w' × Aside w w') (f w)

  connect_established-Aside :
      (u : UserCallbacks K) (number : ℕ)
      (on_connection : World (Memory K) → Outcome (World (Memory K))) (w : World (Memory K))
      → u.connection_callback ≡ some on_connection
      → IsWelcoming on_connection
      → Inv (memory_laws laws) w
      → w.conn.state ≡ Connection.k_connecting
      → Ensures
          (λ w'. Established (memory_laws laws) w' × Aside w w')
          (Connection.connect_established (memory_sys sys) (conn_callbacks sys u number) w)
  unfolding Connection.connect_established call conn_callbacks Connection.set_state
  connect_established-Aside u number f w set welcomes v s =
      let L = memory_laws laws in
      Ensures-bind (λ w₁. Established L w₁ × Aside w w₁) (λ w'. Established L w' × Aside w w') _ _
        (Ensures-WhenDone (Established L) (Aside w) _ (opened-Established L w v s)
          (opened-Aside sys w))
        λ w₁ (e, a).
          subst (λ g. Ensures (λ w'. Established L w' × Aside w w') (call g w₁)) (sym set)
            (Ensures-mono (λ w'. Established L w' × Aside w₁ w') _ _ (welcomes w₁ e)
              λ w' (e', a'). (e', Aside-trans a a'))

  -- A connection does not mind what becomes of the rest of the process.
  elsewhere-Established :
      (w : World (Memory K)) (r : Rest)
      → Established (memory_laws laws) w
      → Established (memory_laws laws) (record w { kernel = record w.kernel { rest = r } })
  elsewhere-Established w r e = record {
    inv = elsewhere-Inv laws w w.loop r refl refl e.inv;
    state = e.state;
    reads = e.reads;
    tied = e.tied;
  }

  -- The server has a new connection under its next number and keeps the others. The connection is
  -- established, and its loop's queue is as it was.
  pub record IsJoined (address sockfd : ℕ) (p : Process (Store K)) (l : EventLoop)
      (p' : Process (Store K)) : Type 0 where
    pub inv : Lifecycle.Inv p'.server
    pub number : p'.server.next_conn_id ≡ p.server.next_conn_id + 1
    pub known :
        lookup p.server.next_conn_id p'.server.connections ≡ some (new_conn address sockfd p.server)
    pub others :
        (i : ℕ)
        → p.server.next_conn_id ≢ i
        → lookup i p'.server.connections ≡ lookup i p.server.connections
    pub object : ConnObject
    pub loop : EventLoop
    pub stored : lookup address p'.kernel.rest ≡ some object
    pub numbered : object.number ≡ p.server.next_conn_id
    pub looped : lookup p.server.base_loop p'.loops ≡ some loop
    pub established : Established (memory_laws laws) (world_of p' object.conn loop)
    pub queue : loop.pending_functors ≡ l.pending_functors
    pub named : object.conn.address ≡ address
    pub same_base : p'.server.base_loop ≡ p.server.base_loop
    pub same_thread : (loop.thread_id ≡ l.thread_id) × (p'.tid ≡ p.tid)

  -- What the new connection leaves, when it has run.
  run-IsJoined :
      (address sockfd : ℕ) (p : Process (Store K)) (l : EventLoop) (w w' : World (Memory K))
      → w.kernel.rest.server ≡ (entered address sockfd p.server.thread_pool p).server
      → w.loop ≡ l
      → (w.conn.address ≡ address) × (w.tid ≡ p.tid)
      → Lifecycle.Inv p.server
      → Established (memory_laws laws) w'
      → Aside w w'
      → IsJoined address sockfd p l (stored address p.server.next_conn_id w')
  run-IsJoined address sockfd p l w w' server loop here v e a =
      let s : w'.kernel.rest.server ≡ (entered address sockfd p.server.thread_pool p).server =
        ap (λ (r : Rest). r.server) a.rest ∙ server in
      let c = new_conn address sockfd p.server in
      record {
        inv =
            subst Lifecycle.Inv (sym s) (joined-Inv address sockfd p.server p.server.thread_pool v);
        number = ap (λ (t : TcpServer). t.next_conn_id) s;
        known =
            ap (λ (t : TcpServer). lookup p.server.next_conn_id t.connections) s
            ∙ lookup-inserted p.server.next_conn_id c p.server.connections;
        others = λ i h.
            ap (λ (t : TcpServer). lookup i t.connections) s
            ∙ ground (arith, lookup-insert p.server.next_conn_id i c p.server.connections);
        object = record { number = p.server.next_conn_id; conn = w'.conn };
        loop = w'.loop;
        stored = lookup-inserted _ _ _;
        numbered = refl;
        looped =
            ap
              (λ (t : TcpServer).
                lookup p.server.base_loop (insert t.base_loop w'.loop w'.kernel.rest.loops))
              s
            ∙ lookup-inserted _ _ _;
        established = elsewhere-Established w' _ e;
        queue = a.queue ∙ ap (λ (m : EventLoop). m.pending_functors) loop;
        named = a.address ∙ here.0;
        same_base = ap (λ (t : TcpServer). t.base_loop) s;
        same_thread = (a.thread ∙ ap (λ (m : EventLoop). m.thread_id) loop, a.tid ∙ here.1);
      }

  -- A server without threads in its pool takes a connection in its only loop. `newConnection`, in
  -- that loop's thread, enters the connection under the next number and at once establishes it:
  -- registered for reading and tied to its object; or the process exits, as it may when epoll refuses
  -- the channel and in the user's callback. The other connections stay, nothing is queued, and the server's invariant still holds.
  -- The descriptor is fresh, the number fits the `int`, and the user's connection callback is set
  -- and welcomes the connection.
  pub new_connection-IsJoined :
      (u : UserCallbacks K) (others : Functor → Process (Store K) → Outcome (Process (Store K)))
      (on_connection : World (Memory K) → Outcome (World (Memory K)))
      (address channel_address sockfd : ℕ) (p : Process (Store K)) (l : EventLoop)
      → u.connection_callback ≡ some on_connection
      → IsWelcoming on_connection
      → Lifecycle.Inv p.server
      → p.server.next_conn_id + 1 < 2 ^ 31
      → p.server.thread_pool.loops ≡ []
      → p.server.thread_pool.base_loop ≡ p.server.base_loop
      → lookup p.server.base_loop p.loops ≡ some l
      → l.thread_id ≡ p.tid
      → IsFresh laws sockfd l p.kernel.kernel
      → Ensures
          (IsJoined address sockfd p l)
          (new_connection sys u others address channel_address sockfd p)
  unfolding new_connection exec get_next_loop Connection.new
  new_connection-IsJoined u others f address channel_address sockfd p l set welcomes v bound empty
        base at home fresh =
      let o : ConnObject = record {
        number = p.server.next_conn_id;
        conn = Connection.new address channel_address sockfd;
      } in
      let p₁ = record p { kernel = record p.kernel { rest = insert address o p.kernel.rest } } in
      let p₂ = entered address sockfd p.server.thread_pool p₁ in
      let only : get_next_loop p.server.thread_pool
          ≡ some (p.server.base_loop, p.server.thread_pool) =
        rw (empty, base) refl in
      let here : is_in_loop_thread l p.tid ≡ true = ground (arith, home) in
      let w = world_of p₂ o.conn l in
      subst (Ensures (IsJoined address sockfd p l))
        (sym (
          new_connection-run_in (store_sys sys) (exec sys u others) address sockfd
            p.server.base_loop p.server.thread_pool p₁ only bound
          ∙ run_in-here (store_sys sys) p.server.base_loop (connect_established address) _ p₂ l at
              here
          ∙ on_conn-runs address _ p₂ o l (lookup-inserted address o p.kernel.rest) at))
        (Ensures-bind (λ w'. Established (memory_laws laws) w' × Aside w w') _ _ _
          (connect_established-Aside u o.number f w set welcomes
            (new-Inv (memory_laws laws) address channel_address sockfd p.tid l w.kernel (record {
              unmapped = fresh.unmapped;
              silent = fresh.silent;
              other_fd = fresh.other_fd;
            }))
            refl)
          λ w' (e, a). run-IsJoined address sockfd p l w w' refl refl (refl, refl) v e a)
