-- ===== src/Poller/Registration.antt =====
-- What a client of the poller knows of a change of events: it returns a tracked channel, or the
-- process exits because epoll refused it.
use moduo_write.Common.{
  ℕ, ◌≡◌, inl, inr, Bool-cases, Ensures, Ensures-IsClean, IsClean, bind-IsClean,
}
use moduo_write.Common.Dict.{insert}
use moduo_write.System.{Sys, SysLaws, Mask, CtlOp, ctl_add, ctl_mod, ctl_del}
use moduo_write.Channel.{Channel, Index, k_new, k_added, k_deleted, set_index, is_none_event}
use moduo_write.Poller.{Poller, ctl_result, update, update_by, update_channel}
use moduo_write.Poller.Tracking.{TracksAs, Tracks, index_after, update_channel-Tracks}
use moduo_write.Poller.Frame.{update_channel-sent, update_channel-shut}

module _ {K : Type 0} (sys : Sys K) where
  update-IsClean : (p : Poller) (op : CtlOp) (c : Channel) (k : K) → IsClean (update sys p op c k)
  unfolding update
  update-IsClean p op c k =
      let r = sys.epoll_ctl k p.epollfd op c.fd (record { mask = c.events; ptr = c.address }) in
      elim (Bool-cases (ctl_result op r.0)) [ inl e ↦ rw e tt | inr e ↦ rw e tt ]

  update_by-IsClean :
      (i : Index) (p : Poller) (c : Channel) (k : K) → IsClean (update_by sys i p c k)
  unfolding update_by
  update_by-IsClean k_new p c k = bind-IsClean _ _ (
      update-IsClean (record p { channels = insert c.fd c.address p.channels }) ctl_add
        (set_index c k_added) k)
  update_by-IsClean k_deleted p c k =
      bind-IsClean _ _ (update-IsClean p ctl_add (set_index c k_added) k)
  update_by-IsClean k_added p c k = elim (Bool-cases (is_none_event c)) [
    | inl e ↦ rw e (bind-IsClean _ _ (update-IsClean p ctl_del c k))
    | inr e ↦ rw e (bind-IsClean _ _ (update-IsClean p ctl_mod c k))
  ]

module _ {K : Type 0} {sys : Sys K} (laws : SysLaws sys) where
  -- What `updateChannel` leaves behind.
  pub record Updated (p : Poller) (c : Channel) (k : K) (r : Poller × Channel × K) : Type 0 where
    pub tracked : Tracks laws r.0 r.1 r.2
    pub channel : r.1 ≡ set_index c (index_after c.index c)
    pub sent : (fd : ℕ) → laws.sent r.2 fd ≡ laws.sent k fd
    pub shut : (fd : ℕ) → laws.shut r.2 fd ≡ laws.shut k fd

  -- `updateChannel` returns a tracked channel, changed in its index alone, and sends nothing.
  pub update_channel-Updated :
      (m : Mask) (p : Poller) (c : Channel) (k : K)
      → TracksAs laws m p c k
      → Ensures (Updated p c k) (update_channel sys p c k)
  unfolding update_channel
  update_channel-Updated m p c k t =
      Ensures-IsClean (Updated p c k) (update_channel sys p c k)
        (update_by-IsClean sys c.index p c k)
        λ (p', c', k') e.
          let (tracked, same, _) = update_channel-Tracks laws m p c k t e in
          record {
            tracked = tracked;
            channel = same;
            sent = λ fd. update_channel-sent laws p c k fd e;
            shut = λ fd. update_channel-shut laws p c k fd e;
          }
