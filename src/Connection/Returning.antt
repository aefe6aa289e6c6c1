-- ===== src/Connection/Returning.antt =====
-- TcpConnection.cc: where epoll refuses no channel, `sendInLoop` does not end the process.
use moduo_write.Common.{
  ℕ, ◌+◌, ◌<◌, ◌≡◌, refl, ◌≢◌, Bool, true, false, not, ◌&&◌, List, length, ltb, arith,
  if◌then◌else◌, Outcome, done, exited, bad_call, undefined, bind, Ensures,
}
use moduo_write.System.{
  Sys, SysLaws, Interest, CtlOp, ctl_add, ctl_mod, ctl_del, IoResult, count, failed,
}
use moduo_write.Buffer.Contents.{max_size}
use moduo_write.Channel.{Channel, Index, k_new, k_added, k_deleted, is_none_event}
use moduo_write.Poller.{Poller, ctl_result, update, update_by, update_channel, enable_writing}
use moduo_write.Connection.{
  World, Callbacks, on_channel, buffer_rest, after_direct_write, send_in_loop, state_eq,
  k_disconnected,
}
use moduo_write.Connection.Invariant.{Inv, IsOpen}
use moduo_write.Connection.Sending.{Sent, send_in_loop-Sent}

-- The process does not end here.
abbrev pub Stays : {A : Type 0} → Outcome A → Type 0
Stays m = m ≢ exited

done-Stays : {A : Type 0} (a : A) → Stays (done a)
done-Stays a e = cc e

bind-Stays :
    {A B : Type 0} (m : Outcome A) (f : A → Outcome B)
    → Stays m
    → ((a : A) → Stays (f a))
    → Stays (bind m f)
bind-Stays (done a) f s t = t a
bind-Stays exited f s t = absurd (s refl)
bind-Stays bad_call f s t = λ e. cc e
bind-Stays undefined f s t = λ e. cc e

if-Stays :
    {A : Type 0} (b : Bool) {m n : Outcome A} → Stays m → Stays n → Stays (if b then m else n)
if-Stays true s t = s
if-Stays false s t = t

-- What is ensured, and does not end the process, returns.
pub Ensures-returns :
    {A : Type 0} (P : A → Type 0) (m : Outcome A)
    → Ensures P m
    → Stays m
    → (a : A) × (m ≡ done a) × P a
Ensures-returns P (done a) e s = (a, refl, e)
Ensures-returns P exited e s = absurd (s refl)
Ensures-returns P bad_call e s = absurd e
Ensures-returns P undefined e s = absurd e

-- epoll takes every channel.
abbrev pub Accepts : {K : Type 0} → Sys K → Type 0
Accepts {K = K} sys =
    (k : K) (e : ℕ) (op : CtlOp) (fd : ℕ) (v : Interest) → (sys.epoll_ctl k e op fd v).0 ≡ true

module _ {K : Type 0} (sys : Sys K) (accepts : Accepts sys) where
  update-Stays : (p : Poller) (op : CtlOp) (c : Channel) (k : K) → Stays (update sys p op c k)
  unfolding update ctl_result
  update-Stays p ctl_add c k =
      ground (arith, accepts k p.epollfd ctl_add c.fd (record { mask = c.events; ptr = c.address }))
  update-Stays p ctl_mod c k =
      ground (arith, accepts k p.epollfd ctl_mod c.fd (record { mask = c.events; ptr = c.address }))
  update-Stays p ctl_del c k =
      ground (arith, accepts k p.epollfd ctl_del c.fd (record { mask = c.events; ptr = c.address }))

  update_by-Stays : (i : Index) (p : Poller) (c : Channel) (k : K) → Stays (update_by sys i p c k)
  unfolding update_by
  update_by-Stays k_new p c k = bind-Stays _ _ (update-Stays _ _ _ _) (λ k'. done-Stays _)
  update_by-Stays k_deleted p c k = bind-Stays _ _ (update-Stays _ _ _ _) (λ k'. done-Stays _)
  update_by-Stays k_added p c k =
      if-Stays (is_none_event c) (bind-Stays _ _ (update-Stays _ _ _ _) (λ k'. done-Stays _))
        (bind-Stays _ _ (update-Stays _ _ _ _) (λ k'. done-Stays _))

  on_channel-Stays :
      (f : Poller → Channel → K → Outcome (Poller × Channel × K)) (w : World K)
      → Stays (f w.loop.poller w.conn.channel w.kernel)
      → Stays (on_channel f w)
  unfolding on_channel
  on_channel-Stays f w s = bind-Stays _ _ s (λ r. done-Stays _)

  module _ (cb : Callbacks (World K)) where
    buffer_rest-Stays :
        (bytes : List ℕ) (nwrote remaining : ℕ) (fault : Bool) (w : World K)
        → Stays (buffer_rest sys cb bytes nwrote remaining fault w)
    unfolding buffer_rest enable_writing update_channel
    buffer_rest-Stays bytes nwrote remaining fault w =
        if-Stays (not fault && ltb 0 remaining)
          (if-Stays _ (on_channel-Stays _ _ (update_by-Stays _ _ _ _)) (done-Stays _))
          (done-Stays w)

    after_direct_write-Stays :
        (bytes : List ℕ) (r : IoResult) (w : World K) → Stays (after_direct_write sys cb bytes r w)
    unfolding after_direct_write
    after_direct_write-Stays bytes (count n) w = buffer_rest-Stays _ _ _ _ _
    after_direct_write-Stays bytes (failed errno) w = buffer_rest-Stays _ _ _ _ _

    send_in_loop-Stays : (bytes : List ℕ) (w : World K) → Stays (send_in_loop sys cb bytes w)
    unfolding send_in_loop
    send_in_loop-Stays bytes w =
        if-Stays (state_eq w.conn.state k_disconnected) (done-Stays w)
          (if-Stays _ (after_direct_write-Stays bytes _ _) (buffer_rest-Stays bytes _ _ _ w))

    -- Where epoll refuses no channel and the output vector stays below 2^63 bytes with the data,
    -- `sendInLoop` in an open connection returns, and the bytes are sent or wait in order, or the direct `write` has found the connection broken.
    pub send_in_loop-returns :
        (laws : SysLaws sys) (bytes : List ℕ) (w : World K)
        → Inv laws w
        → IsOpen w.conn.state
        → length bytes < max_size
        → length w.conn.output_buffer.storage + length bytes < max_size
        → (w' : World K) × (send_in_loop sys cb bytes w ≡ done w') × Sent laws cb w bytes w'
    send_in_loop-returns laws bytes w v o small bound =
        Ensures-returns (Sent laws cb w bytes) (send_in_loop sys cb bytes w)
          (send_in_loop-Sent laws cb bytes w v o small bound) (send_in_loop-Stays bytes w)
