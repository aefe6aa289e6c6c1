-- ===== src/Service/Session.antt =====
-- TcpServer.cc, TcpConnection.cc and Eventloop.cc: a connection comes and goes.
use moduo_write.Common.{
  ℕ, ◌+◌, ◌*◌, ◌^◌, ◌<◌, ◌≡◌, ◌≢◌, sym, ap, ◌∙◌, subst, inl, inr, Bool-cases, some, [], arith, ◌==◌,
  length, Outcome, done, bind, Ensures, Ensures-mono,
}
use moduo_write.Common.Dict.{lookup}
use moduo_write.System.{Sys, SysLaws, got}
use moduo_write.Buffer.{extra_size}
use moduo_write.Buffer.Contents.{max_size}
use moduo_write.EventLoop.{EventLoop, Functor}
use moduo_write.Connection.{World, handle_read}
use moduo_write.Connection.Invariant.{IsOpen}
use moduo_write.Connection.Opening.{IsFresh}
use moduo_write.Connection.Receiving.{read_result}
use moduo_write.Server.{Process}
use moduo_write.Server.Lifecycle
use moduo_write.Service.{
  ConnObject, Store, Memory, UserCallbacks, memory_sys, conn_callbacks, world_of, on_conn,
  do_pending_functors, new_connection,
}
use moduo_write.Service.Removal.{memory_laws}
use moduo_write.Service.Closing.{IsDiscreet}
use moduo_write.Service.Opening.{IsWelcoming, IsJoined, new_connection-IsJoined}
use moduo_write.Service.Ending.{Ended, end_of_stream-Ended}

module _ {K : Type 0} {sys : Sys K} (laws : SysLaws sys) (u : UserCallbacks K)
    (others : Functor → Process (Store K) → Outcome (Process (Store K))) where
  -- The peer of the connection at `address` has closed its side, and there is room to read.
  pub record HasEnded (address : ℕ) (p : Process (Store K)) : Type 0 where
    pub room :
        (o : ConnObject)
        → lookup address p.kernel.rest ≡ some o
        → length o.conn.input_buffer.storage + 2 * extra_size < max_size
    pub ends :
        (o : ConnObject) (l : EventLoop)
        → lookup address p.kernel.rest ≡ some o
        → lookup p.server.base_loop p.loops ≡ some l
        → read_result (memory_laws laws) (world_of p o.conn l) ≡ got []

  -- The connection has gone, and the server has the connections from before it came.
  pub record Gone (address : ℕ) (before p₁ p₂ : Process (Store K)) : Type 0 where
    pub ended : Ended laws u others address before.server.next_conn_id p₁.server p₂
    pub same : (i : ℕ) → lookup i p₂.server.connections ≡ lookup i before.server.connections

  joined-Gone :
      (address sockfd : ℕ) (p p₁ p₂ : Process (Store K)) (l : EventLoop)
      → Lifecycle.Inv p.server
      → IsJoined laws address sockfd p l p₁
      → Ended laws u others address p.server.next_conn_id p₁.server p₂
      → Gone address p p₁ p₂
  joined-Gone address sockfd p p₁ p₂ l v j e = record {
    ended = e;
    same = λ i. elim (Bool-cases (p.server.next_conn_id == i)) [
      | inl is ↦
          let own : p.server.next_conn_id ≡ i = ground arith in
          ap (λ k. lookup k p₂.server.connections) (sym own)
          ∙ e.unknown
          ∙ sym (v.below p.server.next_conn_id (omega arith))
          ∙ ap (λ k. lookup k p.server.connections) own
      | inr other ↦
          let apart : p.server.next_conn_id ≢ i = ground arith in e.kept i apart ∙ j.others i apart
    ];
  }

  -- A connection comes to a server without further threads, and the first that its socket reports
  -- is the end of the stream. After a `newConnection` that returns, `handleRead` and the loop's
  -- `doPendingFunctors`, unless the process exits, which the user's callback may do, the server has
  -- exactly the connections that it had before, and neither the poller nor epoll has the channel.
  -- All run in the loop's thread, where nothing waits; the descriptor is fresh, the number fits the
  -- `int`, there is room to read, and the user's connection callback is set, welcomes the
  -- connection and does nothing to the server.
  pub comes_and_goes :
      (on_connection : World (Memory K) → Outcome (World (Memory K)))
      (address channel_address sockfd : ℕ) (p p₁ : Process (Store K)) (l : EventLoop)
      → u.connection_callback ≡ some on_connection
      → IsWelcoming laws on_connection
      → IsDiscreet laws on_connection
      → Lifecycle.Inv p.server
      → p.server.next_conn_id + 1 < 2 ^ 31
      → p.server.thread_pool.loops ≡ []
      → p.server.thread_pool.base_loop ≡ p.server.base_loop
      → lookup p.server.base_loop p.loops ≡ some l
      → l.thread_id ≡ p.tid
      → l.pending_functors ≡ []
      → IsFresh laws sockfd l p.kernel.kernel
      → new_connection sys u others address channel_address sockfd p ≡ done p₁
      → HasEnded address p₁
      → Ensures (Gone address p p₁) (
          bind
            (on_conn address (λ n. handle_read (memory_sys sys) (conn_callbacks sys u n)) p₁)
            (do_pending_functors sys u others))
  comes_and_goes f address channel_address sockfd p p₁ l set welcomes discreet v bound empty base at
        home quiet fresh came ended =
      let j = subst (Ensures (IsJoined laws address sockfd p l)) came (
        new_connection-IsJoined laws u others f address channel_address sockfd p l set welcomes v
          bound empty base at home fresh) in
      let here : lookup p₁.server.base_loop p₁.loops ≡ some j.loop =
        ap (λ b. lookup b p₁.loops) j.same_base ∙ j.looped in
      Ensures-mono (Ended laws u others address j.object.number p₁.server) (Gone address p p₁) _
        (end_of_stream-Ended laws u others f address p₁ j.object j.loop set discreet j.inv j.stored
          j.named here (j.same_thread.0 ∙ home ∙ sym (j.same_thread.1)) (j.queue ∙ quiet)
          j.established.inv (subst IsOpen (sym j.established.state) tt)
          (ended.room j.object j.stored) (ended.ends j.object j.loop j.stored here))
        λ p₂ e.
          joined-Gone address sockfd p p₁ p₂ l v j
            (subst (λ n. Ended laws u others address n p₁.server p₂) j.numbered e)
