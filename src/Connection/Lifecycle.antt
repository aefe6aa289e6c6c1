-- ===== src/Connection/Lifecycle.antt =====
-- TcpConnection.cc: shutting down, closing and destroying a connection.
use moduo_write.Common.{
  ◌≡◌, refl, ap, ◌∙◌, ◌≢◌, inl, inr, true, false, none, some, [], arith, length, nil_of_length,
  ◌==◌, Bool-cases, Outcome, bind, Ensures, Ensures-bind, Ensures-mono,
}
use moduo_write.Common.Dict.{lookup}
use moduo_write.System.{Sys, SysLaws, mask_zero}
use moduo_write.Buffer.Contents.{contents}
use moduo_write.Channel.{k_new, k_deleted, is_writing, no_events}
use moduo_write.Poller.{disable_all, remove_channel, has_channel}
use moduo_write.Poller.Tracking.{Tracks, remove_channel-Tracks}
use moduo_write.Connection.{
  World, Callbacks, k_connected, k_disconnecting, k_disconnected, state_eq, call, set_state,
  on_channel, run_in_loop, shutdown, shutdown_in_loop, shutdown_write, handle_close,
  connect_destroyed,
}
use moduo_write.Connection.Invariant.{
  Inv, stream, Changed, Changed-Inv, on_channel-Changed, IsOpen, Registered-open,
}
use moduo_write.Connection.Emptying.{shutdown_write-Inv, state_eq-eq}

module _ {K : Type 0} {sys : Sys K} (laws : SysLaws sys) where
  -- A request to shut down: the connection is now being shut down, nothing is lost, and the writing
  -- side is shut down at once exactly if there is no output left.
  pub record ShutsDown (w w' : World K) : Type 0 where
    pub inv : Inv laws w'
    pub state : w'.conn.state ≡ k_disconnecting
    pub input : w'.conn.input_buffer ≡ w.conn.input_buffer
    pub same_stream : stream laws w' ≡ stream laws w
    pub at_once :
        contents w.conn.output_buffer ≡ [] → w'.kernel ≡ (sys.shutdown w.kernel w.conn.channel.fd).1
    pub later : contents w.conn.output_buffer ≢ [] → w'.kernel ≡ w.kernel

  shutdown_in_loop-ShutsDown :
      (w : World K)
      → Inv laws w
      → w.conn.state ≡ k_disconnecting
      → Ensures (ShutsDown w) (shutdown_in_loop sys w)
  unfolding shutdown_in_loop shutdown_write
  shutdown_in_loop-ShutsDown w v s =
      let r =
        Registered-open w.conn.state w.conn.channel w.conn.output_buffer (rw s tt) v.registered in
      elim (Bool-cases (is_writing w.conn.channel)) [
        | inl e ↦ rw e (record {
          inv = v;
          state = s;
          input = refl;
          same_stream = refl;
          at_once = λ empty. absurd (ground (arith, ap length empty));
          later = λ _. refl;
        })
        | inr e ↦ rw e (record {
          inv = (shutdown_write-Inv laws w v).0;
          state = s;
          input = refl;
          same_stream = (shutdown_write-Inv laws w v).1;
          at_once = λ _. refl;
          later = λ some_left. absurd (some_left (nil_of_length _ (ground arith)));
        })
      ]

  pub shutdown-ShutsDown :
      (w : World K)
      → Inv laws w
      → w.conn.state ≡ k_connected
      → w.loop.thread_id ≡ w.tid
      → Ensures (ShutsDown w) (shutdown sys w)
  unfolding shutdown run_in_loop set_state
  shutdown-ShutsDown w v connected here =
      let test : state_eq w.conn.state k_connected ≡ true = rw connected refl in
      let in_loop : (w.loop.thread_id == w.tid) ≡ true = ground arith in
      let w₁ = set_state k_disconnecting w in
      let v₁ : Inv laws w₁ = record {
        input = v.input;
        output = v.output;
        tracked = v.tracked;
        other_fd = v.other_fd;
        registered =
            Registered-open w.conn.state w.conn.channel w.conn.output_buffer (rw connected tt)
              v.registered;
      } in
      rw (test, in_loop)
        (Ensures-mono (ShutsDown w₁) (ShutsDown w) _ (shutdown_in_loop-ShutsDown w₁ v₁ refl) λ w' s.
          record {
            inv = s.inv;
            state = s.state;
            input = s.input;
            same_stream = s.same_stream;
            at_once = s.at_once;
            later = s.later;
          })

  -- A closed connection is out of epoll's interest list, and stays in the map until it is removed.
  pub record Closed (w : World K) : Type 0 where
    pub inv : Inv laws w
    pub state : w.conn.state ≡ k_disconnected
    pub index : w.conn.channel.index ≡ k_deleted
    pub events : w.conn.channel.events ≡ mask_zero
    pub silent : laws.interest w.kernel w.loop.poller.epollfd w.conn.channel.fd ≡ none

  pub close-Closed :
      (w : World K)
      → Inv laws w
      → IsOpen w.conn.state
      → Ensures Closed (on_channel (disable_all sys) (set_state k_disconnected w))
  unfolding set_state disable_all
  close-Closed w v o =
      let r = Registered-open w.conn.state w.conn.channel w.conn.output_buffer o v.registered in
      let w₁ = set_state k_disconnected w in
      Ensures-mono (Changed laws no_events w₁) Closed _
        (on_channel-Changed laws no_events w₁ w.conn.channel.events
          (record { in_map = v.tracked.in_map; in_epoll = v.tracked.in_epoll }))
        λ w' c.
          let index : w'.conn.channel.index ≡ k_deleted = rw (c.conn, r.0) refl in
          record {
            inv = Changed-Inv laws no_events c refl v.input v.output v.other_fd tt;
            state = rw c.conn refl;
            index = index;
            events = rw c.conn refl;
            silent = c.tracked.in_epoll ∙ rw index refl;
          }

  -- A destroyed connection is unknown to the poller and to epoll.
  pub record Removed (w : World K) : Type 0 where
    pub index : w.conn.channel.index ≡ k_new
    pub unmapped : lookup w.conn.channel.fd w.loop.poller.channels ≡ none
    pub silent : laws.interest w.kernel w.loop.poller.epollfd w.conn.channel.fd ≡ none
    pub absent : has_channel w.loop.poller w.conn.channel ≡ false

  remove-Removed :
      (w : World K)
      → Tracks laws w.loop.poller w.conn.channel w.kernel
      → Ensures Removed (on_channel (remove_channel sys) w)
  unfolding on_channel
  remove-Removed w t =
      let (k, e, t', absent) =
        remove_channel-Tracks laws w.conn.channel.events w.loop.poller w.conn.channel w.kernel t in
      rw (e, bind)
        (record { index = refl; unmapped = t'.in_map; silent = t'.in_epoll; absent = absent })

  -- A callback that keeps a closed connection closed: the user's and the server's on closing.
  abbrev pub KeepsClosed : (World K → Outcome (World K)) → Type 0
  KeepsClosed f = (w : World K) → Closed w → Ensures Closed (f w)

  module _ (cb : Callbacks (World K)) (on_connection on_close : World K → Outcome (World K)) where
    -- Where both callbacks are set and keep a closed connection closed, `handleClose` of an open
    -- connection calls no empty function: it takes the channel out of epoll before they run, and leaves
    -- the connection closed.
    pub handle_close-Closed :
        (w : World K)
        → cb.connection_callback ≡ some on_connection
        → cb.close_callback ≡ some on_close
        → KeepsClosed on_connection
        → KeepsClosed on_close
        → Inv laws w
        → IsOpen w.conn.state
        → Ensures Closed (handle_close sys cb w)
    unfolding handle_close call
    handle_close-Closed w c₁ c₂ k₁ k₂ v o =
        rw (c₁, c₂)
          (Ensures-bind Closed Closed _ _ (close-Closed w v o)
            λ w₁ closed. Ensures-bind Closed Closed _ _ (k₁ w₁ closed) k₂)

    -- `connectDestroyed` leaves the poller and epoll without the channel, in every state. A
    -- connection that was still connected is first closed and the user told, for which the connection
    -- callback must be set and keep it closed; else no callback runs.
    pub connect_destroyed-Removed :
        (w : World K)
        → (w.conn.state ≡ k_connected
            → (cb.connection_callback ≡ some on_connection) × KeepsClosed on_connection)
        → Inv laws w
        → Ensures Removed (connect_destroyed sys cb w)
    unfolding connect_destroyed call
    connect_destroyed-Removed w c v = elim (Bool-cases (state_eq w.conn.state k_connected)) [
      | inl e ↦
          let connected = state_eq-eq w.conn.state k_connected e in
          rw (e, (c connected).0)
            (Ensures-bind Closed Removed _ _
              (Ensures-bind Closed Closed _ _ (close-Closed w v (rw connected tt)) (c connected).1)
              λ w₁ closed. remove-Removed w₁ closed.inv.tracked)
      | inr e ↦ rw e (remove-Removed w v.tracked)
    ]
