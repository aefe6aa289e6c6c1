-- ===== src/Connection/Opening.antt =====
-- TcpConnection.cc: the constructor and `connectEstablished`, on a descriptor that is not in use.
use moduo_write.Common.{
  ℕ, ◌≡◌, refl, sym, ap, ◌≢◌, true, none, some, List, arith, length, ◌==◌, not, Outcome, Ensures,
  Ensures-bind, Ensures-mono,
}
use moduo_write.Common.Dict.{lookup}
use moduo_write.System.{Sys, SysLaws, mask_zero}
use moduo_write.Buffer.{Buffer, initial_size}
use moduo_write.Buffer.Contents.{new_lem}
use moduo_write.Channel.{Channel, k_new, is_writing, is_reading, or_events, read_event, tie_to}
use moduo_write.Channel
use moduo_write.Poller.{enable_reading}
use moduo_write.EventLoop.{EventLoop}
use moduo_write.Connection.{
  World, Callbacks, StateE, k_connecting, k_connected, k_disconnecting, k_disconnected, call,
  set_state, on_channel, connect_established, new,
}
use moduo_write.Connection.Invariant.{
  Inv, Changed, Changed-Inv, on_channel-Changed, Registered, has_output,
}

Registered-new :
    (s : StateE) (c : Channel) (b : Buffer)
    → s ≡ k_connecting
    → Registered s c b
    → (c.index ≡ k_new) × (c.events ≡ mask_zero) × (is_writing c ≡ has_output b)
Registered-new k_connecting c b e r = r
Registered-new k_connected c b e r = cc e
Registered-new k_disconnecting c b e r = cc e
Registered-new k_disconnected c b e r = cc e

-- The connection as `connectEstablished` registers it.
abbrev pub opened : {K : Type 0} → World K → World K
opened w = record w {
  conn = record w.conn { state = k_connected; channel = tie_to w.conn.channel w.conn.address };
}

module _ {K : Type 0} {sys : Sys K} (laws : SysLaws sys) where
  -- Neither the loop nor epoll knows the descriptor, which the loop is not woken by.
  pub record IsFresh (sockfd : ℕ) (l : EventLoop) (k : K) : Type 0 where
    pub unmapped : lookup sockfd l.poller.channels ≡ none
    pub silent : laws.interest k l.poller.epollfd sockfd ≡ none
    pub other_fd : l.wakeup_fd ≢ sockfd

  -- A new connection on a fresh descriptor satisfies the invariant.
  pub new-Inv :
      (address channel_address sockfd tid : ℕ) (l : EventLoop) (k : K)
      → IsFresh sockfd l k
      → Inv laws
          (record { conn = new address channel_address sockfd; loop = l; kernel = k; tid = tid })
  unfolding new Channel.new
  new-Inv address channel_address sockfd tid l k f =
      let (valid, empty, _) = new_lem initial_size in
      record {
        input = valid;
        output = valid;
        tracked = record { in_map = f.unmapped; in_epoll = f.silent };
        other_fd = f.other_fd;
        registered = (refl, refl, sym (ap (λ (xs : List ℕ). not (length xs == 0)) empty));
      }

  -- What `connectEstablished` has made when it calls the user.
  pub record Established (w : World K) : Type 0 where
    pub inv : Inv laws w
    pub state : w.conn.state ≡ k_connected
    pub reads : is_reading w.conn.channel ≡ true
    pub tied : (w.conn.channel.tied ≡ true) × (w.conn.channel.tie ≡ w.conn.address)

  read_on : Channel → Channel
  read_on c = or_events c read_event

  pub opened-Established :
      (w : World K)
      → Inv laws w
      → w.conn.state ≡ k_connecting
      → Ensures Established (on_channel (enable_reading sys) (opened w))
  unfolding enable_reading tie_to read_on
  opened-Established w v s =
      let w₂ = opened w in
      let (new, silent, no_output) =
        Registered-new w.conn.state w.conn.channel w.conn.output_buffer s v.registered in
      Ensures-mono (Changed laws read_on w₂) Established _
        (on_channel-Changed laws read_on w₂ w.conn.channel.events
          (record { in_map = v.tracked.in_map; in_epoll = v.tracked.in_epoll }))
        λ w' d. record {
          inv =
              Changed-Inv laws read_on d refl v.input v.output v.other_fd
                (rw new refl, ground arith, ground (arith, no_output));
          state = rw d.conn refl;
          reads = rw d.conn (ground arith);
          tied = rw d.conn (refl, refl);
        }

  -- `connectEstablished` of a new connection registers it for reading and ties the channel to it
  -- before the user's callback runs in that state.
  pub connect_established-Established :
      (cb : Callbacks (World K)) (on_connection : World K → Outcome (World K)) (w : World K)
      → cb.connection_callback ≡ some on_connection
      → ((w' : World K) → Established w' → Ensures Established (on_connection w'))
      → Inv laws w
      → w.conn.state ≡ k_connecting
      → Ensures Established (connect_established sys cb w)
  unfolding connect_established call set_state
  connect_established-Established cb f w c keeps v s =
      rw c (Ensures-bind Established Established _ f (opened-Established w v s) keeps)
