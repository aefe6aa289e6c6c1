-- ===== src/Connection/Emptying.antt =====
-- TcpConnection.cc, the part of `handleWrite` that runs when the output buffer has been emptied.
use moduo_write.Common.{
  ◌≡◌, refl, sym, ap, ◌∙◌, ◌≢◌, inl, inr, true, false, [], ◌++◌, arith, if◌then◌else◌, Bool-cases,
  done, Ensures, Ensures-bind, Ensures-mono,
}
use moduo_write.System.{Sys, SysLaws}
use moduo_write.Buffer.{Buffer}
use moduo_write.Buffer.Contents.{IsValid, contents}
use moduo_write.Channel.{Channel, is_writing, and_not_events, write_event, k_added, set_index}
use moduo_write.Poller.{disable_writing}
use moduo_write.Poller.Tracking.{Tracks, index_after}
use moduo_write.Connection.{
  World, Callbacks, StateE, k_disconnecting, queue_write_complete, output_done, shutdown_write,
  shutdown_in_loop, state_eq,
}
use moduo_write.Connection.Invariant.{
  Inv, stream, Kept-Inv, Kept-stream, queue_write_complete-Kept, Changed, Changed-Inv,
  Changed-stream, on_channel-Changed, IsOpen, open-Registered, RegisteredOpen,
}

-- An open channel that no longer waits for writing stays registered, with nothing left to send.
silent-RegisteredOpen :
    (c : Channel) (b : Buffer)
    → c.index ≡ k_added
    → c.events.epollin ≡ true
    → contents b ≡ []
    → RegisteredOpen
        (set_index
          (and_not_events c write_event)
          (index_after c.index (and_not_events c write_event)))
        b
silent-RegisteredOpen c b added reads empty =
    (rw (added, reads), ground arith, rw empty (ground arith))

pub state_eq-eq : (a b : StateE) → state_eq a b ≡ true → a ≡ b
state_eq-eq a b e = ground arith

module _ {K : Type 0} {sys : Sys K} (laws : SysLaws sys) where
  pub shutdown_write-Inv :
      (w : World K)
      → Inv laws w
      → Inv laws (shutdown_write sys w) × (stream laws (shutdown_write sys w) ≡ stream laws w)
  unfolding shutdown_write
  shutdown_write-Inv w v = (
    record {
      input = v.input;
      output = v.output;
      tracked = record {
        in_map = v.tracked.in_map;
        in_epoll = laws.shutdown_interest _ _ _ _ ∙ v.tracked.in_epoll;
      };
      other_fd = v.other_fd;
      registered = v.registered;
    },
    ap (λ xs. xs ++ contents w.conn.output_buffer) (laws.shutdown_sent _ _ _),
  )

module _ {K : Type 0} {sys : Sys K} (laws : SysLaws sys) (cb : Callbacks (World K)) where
  -- What is known when the buffer has just been emptied.
  pub record Emptied (w : World K) : Type 0 where
    pub input : IsValid w.conn.input_buffer
    pub output : IsValid w.conn.output_buffer
    pub tracked : Tracks laws w.loop.poller w.conn.channel w.kernel
    pub other_fd : w.loop.wakeup_fd ≢ w.conn.channel.fd
    pub open_state : IsOpen w.conn.state
    pub added : w.conn.channel.index ≡ k_added
    pub reads : w.conn.channel.events.epollin ≡ true
    pub empty : contents w.conn.output_buffer ≡ []

  -- The same, when the buffer stays as it is.
  pub record Finished (w w' : World K) : Type 0 where
    pub inv : Inv laws w'
    pub same_stream : stream laws w' ≡ stream laws w
    pub same_output : w'.conn.output_buffer ≡ w.conn.output_buffer
    pub shuts :
        w.conn.state ≡ k_disconnecting
        → (k : K) × (w'.kernel ≡ (sys.shutdown k w.conn.channel.fd).1)
    pub keeps :
        w.conn.state ≢ k_disconnecting
        → laws.shut w'.kernel w.conn.channel.fd ≡ laws.shut w.kernel w.conn.channel.fd

  end-Finished :
      (w : World K)
      → Inv laws w
      → is_writing w.conn.channel ≡ false
      → Ensures
          (Finished w)
          (if state_eq w.conn.state k_disconnecting then shutdown_in_loop sys w else done w)
  unfolding shutdown_in_loop shutdown_write
  end-Finished w v silent = elim (Bool-cases (state_eq w.conn.state k_disconnecting)) [
    | inl e ↦
        rw (e, silent)
          (record {
            inv = (shutdown_write-Inv laws w v).0;
            same_stream = (shutdown_write-Inv laws w v).1;
            same_output = refl;
            shuts = λ _. (w.kernel, refl);
            keeps = λ ne. absurd (ne (state_eq-eq w.conn.state k_disconnecting e));
          })
    | inr e ↦ rw e (record {
      inv = v;
      same_stream = refl;
      same_output = refl;
      shuts = λ eq. absurd (ground arith);
      keeps = λ _. refl;
    })
  ]

  silence : Channel → Channel
  silence c = and_not_events c write_event

  pub output_done-Finished : (w : World K) → Emptied w → Ensures (Finished w) (output_done sys cb w)
  unfolding output_done disable_writing silence
  output_done-Finished w m =
      Ensures-bind (Changed laws silence w) (Finished w) _ _
        (on_channel-Changed laws silence w w.conn.channel.events
          (record { in_map = m.tracked.in_map; in_epoll = m.tracked.in_epoll }))
        λ w₁ c.
          let i : Inv laws w₁ = Changed-Inv laws silence c refl m.input m.output m.other_fd (
            open-Registered w.conn.state _ w.conn.output_buffer m.open_state (
              silent-RegisteredOpen w.conn.channel w.conn.output_buffer m.added m.reads m.empty)) in
          let w₂ = queue_write_complete sys cb w₁ in
          let k = queue_write_complete-Kept laws cb w₁ in
          let same_state : w₂.conn.state ≡ w.conn.state = rw (k.conn, c.conn) in
          let same_fd : w₂.conn.channel.fd ≡ w.conn.channel.fd = rw (k.conn, c.conn) in
          Ensures-mono (Finished w₂) (Finished w) _
            (end-Finished w₂ (Kept-Inv laws k i) (rw (k.conn, c.conn) (ground arith)))
            λ w' f. record {
              inv = f.inv;
              same_stream =
                  f.same_stream ∙ Kept-stream laws k i ∙ Changed-stream laws silence c refl;
              same_output = f.same_output ∙ rw (k.conn, c.conn);
              shuts = λ e.
                  let (j, p) = f.shuts (same_state ∙ e) in
                  (j, p ∙ ap (λ fd. (sys.shutdown j fd).1) same_fd);
              keeps = λ ne.
                  ap (laws.shut w'.kernel) (sym same_fd)
                  ∙ f.keeps (λ e. ne (sym same_state ∙ e))
                  ∙ k.shut w₂.conn.channel.fd
                  ∙ c.shut w₂.conn.channel.fd
                  ∙ ap (laws.shut w.kernel) same_fd;
            }
