-- ===== src/Service/Ending.antt =====
-- TcpServer.cc, TcpConnection.cc and Eventloop.cc: a connection closes, and its loop runs what that queued.
use moduo_write.Common.{
  ◌≢◌, ◌+◌, ◌*◌, ◌<◌, length, ap₂, ℕ, ◌≡◌, refl, sym, ap, ◌∙◌, subst, false, some, none, [], ◌∷◌,
  ◌++◌, Outcome, done, bind, Ensures, Ensures-bind, Ensures-WhenDone,
}
use moduo_write.Common.Dict.{lookup, lookup-inserted}
use moduo_write.System.{Sys, SysLaws, got}
use moduo_write.EventLoop.{
  EventLoop, Thread, Functor, connect_destroyed, run_functors, begin_calling, swap_pending,
  end_calling,
}
use moduo_write.EventLoop
use moduo_write.Connection.{World, k_disconnected}
use moduo_write.Connection
use moduo_write.Connection.Invariant.{Inv, IsOpen}
use moduo_write.Connection.Lifecycle.{Removed, connect_destroyed-Removed}
use moduo_write.Server.{Process, TcpServer}
use moduo_write.Server.Lifecycle
use moduo_write.Buffer.{extra_size}
use moduo_write.Buffer.Contents.{max_size}
use moduo_write.Connection.Receiving.{read_result}
use moduo_write.Service.{
  ConnObject, Store, Memory, Rest, UserCallbacks, memory_sys, conn_callbacks, close_callback,
  world_of, process_at, thread_of, on_conn, stored, exec, exec_in, do_pending_functors,
}
use moduo_write.Service.Frames.{Aside, destroyed-Aside, elsewhere-Inv, on_conn-runs}
use moduo_write.Service.Removal.{memory_laws}
use moduo_write.Service.Closing.{distinct_states, IsDiscreet, Gone, handle_read-Gone}

module _ {K : Type 0} {sys : Sys K} (laws : SysLaws sys) (u : UserCallbacks K)
    (others : Functor → Process (Store K) → Outcome (Process (Store K))) where
  -- Nobody knows the connection at `address` any more: its number is not in the server's map, neither
  -- the poller nor epoll has its channel, and nothing is left to run. The server, `s` before, still has
  -- its other connections.
  pub record Ended (address number : ℕ) (s : TcpServer) (p' : Process (Store K)) : Type 0 where
    pub inv : Lifecycle.Inv p'.server
    pub unknown : lookup number p'.server.connections ≡ none
    pub kept : (i : ℕ) → number ≢ i → lookup i p'.server.connections ≡ lookup i s.connections
    pub object : ConnObject
    pub loop : EventLoop
    pub stored : lookup address p'.kernel.rest ≡ some object
    pub looped : lookup p'.server.base_loop p'.loops ≡ some loop
    pub removed : Removed (memory_laws laws) (world_of p' object.conn loop)
    pub queue : loop.pending_functors ≡ []
    pub calling : loop.calling_pending_functors ≡ false

  -- A removed connection does not mind what becomes of the rest of the process.
  elsewhere-Removed :
      (w : World (Memory K)) (l : EventLoop) (r : Rest) (tid : ℕ)
      → l.poller ≡ w.loop.poller
      → Removed (memory_laws laws) w
      → Removed
          (memory_laws laws)
          (record w { loop = l; kernel = record w.kernel { rest = r }; tid = tid })
  elsewhere-Removed w l r tid same v = record {
    index = v.index;
    unmapped = rw same v.unmapped;
    silent = rw same v.silent;
    absent = rw same v.absent;
  }

  -- The process when the loop's functors have run; `p'` is the process after the last.
  abbrev Leaves : (Process (Store K) → Type 0) → ℕ → Process (Store K) → Type 0
  Leaves Q tid p' =
      (l' : EventLoop) × (lookup p'.server.base_loop p'.loops ≡ some l')
      × Q (process_at tid (thread_of p' (end_calling l')))

  -- What the only functor of a loop's queue brings about, the loop's `doPendingFunctors` brings about.
  one_functor :
      (Q : Process (Store K) → Type 0) (f : Functor) (p : Process (Store K)) (l : EventLoop)
      → lookup p.server.base_loop p.loops ≡ some l
      → l.pending_functors ≡ f ∷ []
      → Ensures
          (Leaves Q p.tid)
          (exec sys u others f (process_at p.tid (thread_of p (swap_pending (begin_calling l)).1)))
      → Ensures Q (do_pending_functors sys u others p)
  unfolding do_pending_functors EventLoop.do_pending_functors run_functors exec_in swap_pending
      begin_calling
  one_functor Q f p l at only runs =
      let t = thread_of p (swap_pending (begin_calling l)).1 in
      let Ready : Thread (Memory K) → Type 0 =
        λ t'. Q (process_at p.tid (record t' { loop = end_calling t'.loop })) in
      let ran : Ensures Ready (exec_in sys u others p.tid f t) =
        Ensures-bind (Leaves Q p.tid) Ready _ _ runs λ p' (l', e, q). rw e q in
      rw (do_pending_functors, at)
        (subst
          (λ fs. Ensures Q (
            bind
              (bind (run_functors (exec_in sys u others p.tid) fs t)
                λ t'. done (record t' { loop = end_calling t'.loop }))
              λ t'. done (process_at p.tid t')))
          (sym only)
          (Ensures-bind (λ t'. Q (process_at p.tid t')) Q _ _
            (Ensures-bind Ready _ _ _ (Ensures-bind Ready Ready _ done ran λ t' q. q) λ t' q. q)
            λ t' q. q))

  -- The connection when `connectDestroyed` has run.
  destroyed-Ended :
      (address number : ℕ) (s : TcpServer) (w w' : World (Memory K)) (tid : ℕ)
      → ((i : ℕ) → number ≢ i → lookup i w.kernel.rest.server.connections ≡ lookup i s.connections)
      → Lifecycle.Inv w.kernel.rest.server
      → lookup number w.kernel.rest.server.connections ≡ none
      → w.loop.pending_functors ≡ []
      → Removed (memory_laws laws) w'
      → Aside w w'
      → Ended address number s
          (process_at tid (thread_of (stored address number w') (end_calling w'.loop)))
  unfolding end_calling
  destroyed-Ended address number s w w' tid kept v gone quiet r a = record {
    inv = subst Lifecycle.Inv (ap (λ (m : Rest). m.server) (sym a.rest)) v;
    unknown = ap (λ (m : Rest). lookup number m.server.connections) a.rest ∙ gone;
    kept = λ i h. ap (λ (m : Rest). lookup i m.server.connections) a.rest ∙ kept i h;
    object = record { number = number; conn = w'.conn };
    loop = end_calling w'.loop;
    stored = lookup-inserted _ _ _;
    looped = lookup-inserted _ _ _;
    removed = elsewhere-Removed w' (end_calling w'.loop) _ tid refl r;
    queue = a.queue ∙ quiet;
    calling = refl;
  }

  gone_then_run :
      (address number : ℕ) (on_connection : World (Memory K) → Outcome (World (Memory K)))
      (w₀ w : World (Memory K))
      → w₀.conn.address ≡ address
      → w₀.loop.pending_functors ≡ []
      → Gone laws u number w₀ w
      → Ensures
          (Ended address number w₀.kernel.rest.server)
          (do_pending_functors sys u others (stored address number w))
  unfolding exec swap_pending begin_calling
  gone_then_run address number f w₀ w named quiet g =
      let p = stored address number w in
      let l = (swap_pending (begin_calling w.loop)).1 in
      let q = process_at p.tid (thread_of p l) in
      let cb = conn_callbacks sys u number in
      let w₂ = world_of q w.conn l in
      let only : w.loop.pending_functors ≡ connect_destroyed address ∷ [] =
        g.forgotten.queue ∙ ap₂ (λ fs a. fs ++ connect_destroyed a ∷ []) quiet named in
      one_functor (Ended address number w₀.kernel.rest.server) (connect_destroyed address) p w.loop
        (lookup-inserted _ _ _) only
        (subst (Ensures _)
          (sym (
            on_conn-runs address
              (λ n. Connection.connect_destroyed (memory_sys sys) (conn_callbacks sys u n)) q
              (record { number = number; conn = w.conn }) l (lookup-inserted _ _ _)
              (lookup-inserted _ _ _)))
          (Ensures-bind (λ w'. Removed (memory_laws laws) w' × Aside w₂ w') _ _ _
            (Ensures-WhenDone (Removed (memory_laws laws)) (Aside w₂) _
              (connect_destroyed-Removed (memory_laws laws) cb f (close_callback sys number) w₂
                (λ e. absurd (distinct_states (sym g.forgotten.closed.state ∙ e)))
                (elsewhere-Inv laws w l _ refl refl g.forgotten.closed.inv))
              (destroyed-Aside sys cb w₂ g.forgotten.closed.state))
            λ w' (r, a). (
              w'.loop,
              lookup-inserted _ _ _,
              destroyed-Ended address number w₀.kernel.rest.server w₂ w' p.tid g.forgotten.others
                  g.forgotten.inv g.forgotten.unknown refl r a,
            )))

  -- A call of a connection that leaves it gone, and then its loop's `doPendingFunctors`.
  call_then_run :
      (call : ℕ → World (Memory K) → Outcome (World (Memory K)))
      (on_connection : World (Memory K) → Outcome (World (Memory K))) (address : ℕ)
      (p : Process (Store K)) (o : ConnObject) (l : EventLoop)
      → lookup address p.kernel.rest ≡ some o
      → o.conn.address ≡ address
      → lookup p.server.base_loop p.loops ≡ some l
      → l.pending_functors ≡ []
      → Ensures (Gone laws u o.number (world_of p o.conn l)) (call o.number (world_of p o.conn l))
      → Ensures
          (Ended address o.number p.server)
          (bind (on_conn address call p) (do_pending_functors sys u others))
  call_then_run call f address p o l known named at quiet gone =
      let Closing : Process (Store K) → Type 0 =
        λ p'. Ensures (Ended address o.number p.server) (do_pending_functors sys u others p') in
      Ensures-bind Closing (Ended address o.number p.server) _ _
        (subst (Ensures Closing) (sym (on_conn-runs address call p o l known at)) (
          Ensures-bind (Gone laws u o.number (world_of p o.conn l)) Closing _ _ gone
            λ w g. gone_then_run address o.number f (world_of p o.conn l) w named quiet g))
        λ p' e. e

  -- The life of a connection ends. `handleRead` of an open connection at the end of the stream,
  -- called in the base loop's thread while nothing waits there, and then the loop's
  -- `doPendingFunctors`: unless the process exits, which the user's callback may do, afterwards the
  -- server does not know the connection and still has the others, neither the poller nor epoll has
  -- its channel, and the queue is empty again. No pointer dangles and no empty function is called.
  -- The invariants of the connection and of the server hold before, the user's connection callback
  -- is set and discreet, and there is room to read.
  pub end_of_stream-Ended :
      (on_connection : World (Memory K) → Outcome (World (Memory K))) (address : ℕ)
      (p : Process (Store K)) (o : ConnObject) (l : EventLoop)
      → u.connection_callback ≡ some on_connection
      → IsDiscreet laws on_connection
      → Lifecycle.Inv p.server
      → lookup address p.kernel.rest ≡ some o
      → o.conn.address ≡ address
      → lookup p.server.base_loop p.loops ≡ some l
      → l.thread_id ≡ p.tid
      → l.pending_functors ≡ []
      → Inv (memory_laws laws) (world_of p o.conn l)
      → IsOpen o.conn.state
      → length o.conn.input_buffer.storage + 2 * extra_size < max_size
      → read_result (memory_laws laws) (world_of p o.conn l) ≡ got []
      → Ensures (Ended address o.number p.server) (
          bind
            (on_conn address
              (λ number. Connection.handle_read (memory_sys sys) (conn_callbacks sys u number))
              p)
            (do_pending_functors sys u others))
  end_of_stream-Ended f address p o l set discreet sv known named at home quiet v is_open room
        ends =
      call_then_run
        (λ number. Connection.handle_read (memory_sys sys) (conn_callbacks sys u number)) f address
        p o l known named at quiet
        (handle_read-Gone laws u o.number f (world_of p o.conn l) set discreet v is_open home sv
          room ends)
