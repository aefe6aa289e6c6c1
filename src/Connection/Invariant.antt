-- ===== src/Connection/Invariant.antt =====
-- TcpConnection.cc: what holds of a connection between two calls in its loop.
use moduo_write.Common.{
  ℕ, ◌≡◌, refl, ap, ◌∙◌, ◌≢◌, inl, inr, Bool, true, not, List, ◌++◌, arith, length, leb, ltb, ◌&&◌,
  Bool-cases, add_size, ◌==◌, Ensures, Ensures-bind,
}
use moduo_write.System.{Sys, SysLaws, Mask, mask_zero}
use moduo_write.Buffer.{Buffer}
use moduo_write.Buffer.Contents.{IsValid, contents}
use moduo_write.Channel.{Channel, k_new, k_added, set_index, is_writing}
use moduo_write.Poller.{update_channel}
use moduo_write.Poller.Tracking.{TracksAs, Tracks, index_after}
use moduo_write.Poller.Registration.{Updated, update_channel-Updated}
use moduo_write.EventLoop.{Functor, queue_in_loop, wakeup, one_bytes, push_functor}
use moduo_write.Connection.{
  StateE, k_connecting, k_connected, k_disconnecting, k_disconnected, World, on_channel, queue,
  queue_write_complete, queue_high_water_mark, Callbacks, is_callable,
}

abbrev pub has_output : Buffer → Bool
has_output b = not (length (contents b) == 0)

-- How the channel stands in each state.
abbrev pub Registered : StateE → Channel → Buffer → Type 0
Registered k_connecting c b =
    (c.index ≡ k_new) × (c.events ≡ mask_zero) × (is_writing c ≡ has_output b)
Registered k_connected c b =
    (c.index ≡ k_added) × (c.events.epollin ≡ true) × (is_writing c ≡ has_output b)
Registered k_disconnecting c b =
    (c.index ≡ k_added) × (c.events.epollin ≡ true) × (is_writing c ≡ has_output b)
Registered k_disconnected c b = Unit

-- The connection is established, and not yet closed by the peer.
abbrev pub IsOpen : StateE → Type 0
IsOpen k_connecting = ⊥
IsOpen k_connected = Unit
IsOpen k_disconnecting = Unit
IsOpen k_disconnected = ⊥

abbrev pub RegisteredOpen : Channel → Buffer → Type 0
RegisteredOpen c b = (c.index ≡ k_added) × (c.events.epollin ≡ true) × (is_writing c ≡ has_output b)

pub Registered-open :
    (s : StateE) (c : Channel) (b : Buffer) → IsOpen s → Registered s c b → RegisteredOpen c b
Registered-open k_connecting c b o r = absurd o
Registered-open k_connected c b o r = r
Registered-open k_disconnecting c b o r = r
Registered-open k_disconnected c b o r = absurd o

pub open-Registered :
    (s : StateE) (c : Channel) (b : Buffer) → IsOpen s → RegisteredOpen c b → Registered s c b
open-Registered k_connecting c b o r = absurd o
open-Registered k_connected c b o r = r
open-Registered k_disconnecting c b o r = r
open-Registered k_disconnected c b o r = absurd o

module _ {K : Type 0} {sys : Sys K} (laws : SysLaws sys) where
  -- The buffers are valid, the poller and epoll know the channel as it is, and while the connection
  -- is open the channel waits for reading, and for writing exactly if there is output left. The loop
  -- is woken through another descriptor.
  pub record Inv (w : World K) : Type 0 where
    pub input : IsValid w.conn.input_buffer
    pub output : IsValid w.conn.output_buffer
    pub tracked : Tracks laws w.loop.poller w.conn.channel w.kernel
    pub other_fd : w.loop.wakeup_fd ≢ w.conn.channel.fd
    pub registered : Registered w.conn.state w.conn.channel w.conn.output_buffer

  -- What the peer will have got when the output buffer is flushed.
  abbrev pub stream : World K → List ℕ
  stream w = laws.sent w.kernel w.conn.channel.fd ++ contents w.conn.output_buffer

  -- A change of the channel's events, registered.
  pub record Changed (g : Channel → Channel) (w w' : World K) : Type 0 where
    pub conn : w'.conn ≡ record w.conn {
      channel =
          set_index (g w.conn.channel) (index_after (g w.conn.channel).index (g w.conn.channel));
    }
    pub loop : w'.loop ≡ record w.loop { poller = w'.loop.poller }
    pub tid : w'.tid ≡ w.tid
    pub tracked : Tracks laws w'.loop.poller w'.conn.channel w'.kernel
    pub sent : (fd : ℕ) → laws.sent w'.kernel fd ≡ laws.sent w.kernel fd
    pub shut : (fd : ℕ) → laws.shut w'.kernel fd ≡ laws.shut w.kernel fd

  pub on_channel-Changed :
      (g : Channel → Channel) (w : World K) (m : Mask)
      → TracksAs laws m w.loop.poller (g w.conn.channel) w.kernel
      → Ensures (Changed g w) (on_channel (λ p c k. update_channel sys p (g c) k) w)
  unfolding on_channel
  on_channel-Changed g w m t =
      Ensures-bind (Updated laws w.loop.poller (g w.conn.channel) w.kernel) (Changed g w)
        (update_channel sys w.loop.poller (g w.conn.channel) w.kernel) _
        (update_channel-Updated laws m w.loop.poller (g w.conn.channel) w.kernel t)
        λ (p, c, k) u. record {
          conn = ap (λ (x : Channel). record w.conn { channel = x }) u.channel;
          loop = refl;
          tid = refl;
          tracked = u.tracked;
          sent = u.sent;
          shut = u.shut;
        }

  -- A step that leaves the connection and its registration alone.
  pub record Kept (w w' : World K) : Type 0 where
    pub conn : w'.conn ≡ w.conn
    pub poller : w'.loop.poller ≡ w.loop.poller
    pub wakeup_fd : w'.loop.wakeup_fd ≡ w.loop.wakeup_fd
    pub thread : (w'.tid ≡ w.tid) × (w'.loop.thread_id ≡ w.loop.thread_id)
    pub interest : (e i : ℕ) → laws.interest w'.kernel e i ≡ laws.interest w.kernel e i
    pub sent : (fd : ℕ) → w.loop.wakeup_fd ≢ fd → laws.sent w'.kernel fd ≡ laws.sent w.kernel fd
    pub shut : (fd : ℕ) → laws.shut w'.kernel fd ≡ laws.shut w.kernel fd

  pub Kept-refl : (w : World K) → Kept w w
  Kept-refl w = record {
    conn = refl;
    poller = refl;
    wakeup_fd = refl;
    thread = (refl, refl);
    interest = λ e i. refl;
    sent = λ fd h. refl;
    shut = λ fd. refl;
  }

  pub Kept-Inv : {w w' : World K} → Kept w w' → Inv w → Inv w'
  Kept-Inv {w} {w'} k v = record {
    input = rw k.conn v.input;
    output = rw k.conn v.output;
    tracked =
        rw (k.conn, k.poller)
          (record {
            in_map = v.tracked.in_map;
            in_epoll = k.interest w.loop.poller.epollfd w.conn.channel.fd ∙ v.tracked.in_epoll;
          });
    other_fd = rw (k.conn, k.wakeup_fd) v.other_fd;
    registered = rw k.conn v.registered;
  }

  pub Kept-stream : {w w' : World K} → Kept w w' → Inv w → stream w' ≡ stream w
  Kept-stream {w} {w'} k v = rw (k.conn, k.sent w.conn.channel.fd v.other_fd)

  pub queue-Kept : (f : Functor) (w : World K) → Kept w (queue sys f w)
  unfolding queue queue_in_loop wakeup push_functor
  queue-Kept f w = record {
    conn = refl;
    poller = refl;
    wakeup_fd = refl;
    thread = (refl, refl);
    interest = λ e i. ground (arith, laws.write_interest w.kernel w.loop.wakeup_fd e i one_bytes);
    sent = λ fd h. ground (arith, laws.write_other w.kernel w.loop.wakeup_fd fd one_bytes h);
    shut = λ fd. ground (arith, laws.write_shut w.kernel w.loop.wakeup_fd fd one_bytes);
  }

  pub queue_write_complete-Kept :
      (cb : Callbacks (World K)) (w : World K) → Kept w (queue_write_complete sys cb w)
  unfolding queue_write_complete
  queue_write_complete-Kept cb w = elim (Bool-cases (is_callable cb.write_complete_callback)) [
    | inl e ↦ rw e (queue-Kept (Functor.write_complete w.conn.address) w)
    | inr e ↦ rw e (Kept-refl w)
  ]

  pub queue_high_water_mark-Kept :
      (cb : Callbacks (World K)) (old_len remaining : ℕ) (w : World K)
      → Kept w (queue_high_water_mark sys cb old_len remaining w)
  unfolding queue_high_water_mark
  queue_high_water_mark-Kept cb old_len remaining w =
      let test : Bool =
        leb w.conn.high_water_mark (add_size old_len remaining)
        && (ltb old_len w.conn.high_water_mark && is_callable cb.high_water_mark_callback) in
      elim (Bool-cases test) [
        | inl e ↦
            rw e
              (queue-Kept (Functor.high_water_mark w.conn.address (add_size old_len remaining)) w)
        | inr e ↦ rw e (Kept-refl w)
      ]

  -- What a registered change of events leaves, where the channel keeps its descriptor.
  pub Changed-Inv :
      (g : Channel → Channel) {w w' : World K}
      → Changed g w w'
      → (g w.conn.channel).fd ≡ w.conn.channel.fd
      → IsValid w.conn.input_buffer
      → IsValid w.conn.output_buffer
      → w.loop.wakeup_fd ≢ w.conn.channel.fd
      → Registered w.conn.state
          (set_index (g w.conn.channel) (index_after (g w.conn.channel).index (g w.conn.channel)))
          w.conn.output_buffer
      → Inv w'
  Changed-Inv g {w} {w'} c same i o f r = record {
    input = rw c.conn i;
    output = rw c.conn o;
    tracked = c.tracked;
    other_fd = rw (c.conn, c.loop, same) f;
    registered = rw c.conn r;
  }

  pub Changed-stream :
      (g : Channel → Channel) {w w' : World K}
      → Changed g w w'
      → (g w.conn.channel).fd ≡ w.conn.channel.fd
      → stream w' ≡ stream w
  Changed-stream g {w} {w'} c same = rw (c.conn, same, c.sent w.conn.channel.fd)

  -- A `write` to the socket changes no registration.
  pub write-Inv :
      (w : World K) (bytes : List ℕ)
      → Inv w
      → Inv (record w { kernel = (sys.write w.kernel w.conn.channel.fd bytes).1 })
  write-Inv w bytes v = record {
    input = v.input;
    output = v.output;
    tracked = record {
      in_map = v.tracked.in_map;
      in_epoll = laws.write_interest _ _ _ _ _ ∙ v.tracked.in_epoll;
    };
    other_fd = v.other_fd;
    registered = v.registered;
  }
