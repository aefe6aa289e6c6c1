-- ===== src/Poller/Registry.antt =====
-- EPOLLPoller.cc: epoll knows no channel that the map has lost, so no event names a dangling pointer.
use moduo_write.Common.{
  ℕ, ◌≡◌, refl, sym, ap, subst, ◌∙◌, ◌≢◌, inl, inr, Option, none, some, List, ◌++◌, map, ◌<◌, Mem,
  arith, ◌==◌, Bool-cases, done, done-injective,
}
use mathlib.Core.Logic.{∥∥₁_map, ∥∥₁_elim}
use mathlib.Core.List.{ne-nil_of_mem}
use moduo_write.Common.Dict.{lookup, insert, erase, lookup-insert, lookup-erase}
use moduo_write.System.{
  Sys, SysLaws, Mask, Interest, ctl_add, ctl_mod, ctl_del, ready, wait_failed, WaitResult,
}
use moduo_write.Channel.{Channel, Index, k_new, k_added, k_deleted, set_index}
use moduo_write.Poller.{
  Poller, Channels, update_by, update_channel, remove_by, remove_channel, max_events, poll,
}
use moduo_write.Poller.Frame.{update-other}
use moduo_write.Poller.Tracking.{
  TracksAs, Tracks, mapped, known, update_channel-Tracks, remove_channel-Tracks,
}
use moduo_write.Poller.Polling.{events_of, remark, last_mask, poll-Polled}

module _ {K : Type 0} {sys : Sys K} (laws : SysLaws sys) where
  -- What epoll knows of a descriptor, the map knows too.
  abbrev pub Registry : Poller → K → Type 0
  Registry p k =
      (fd : ℕ) (v : Interest)
      → laws.interest k p.epollfd fd ≡ some v
      → lookup fd p.channels ≡ some v.ptr

  -- At the descriptor of a tracked channel.
  Tracks-Registry :
      (m : Mask) (p : Poller) (c : Channel) (k : K) (v : Interest)
      → TracksAs laws m p c k
      → laws.interest k p.epollfd c.fd ≡ some v
      → lookup c.fd p.channels ≡ some v.ptr
  Tracks-Registry m p c k v t e = go c.index (t.in_map) (sym t.in_epoll ∙ e)
    where
      go :
          (i : Index)
          → lookup c.fd p.channels ≡ mapped i c.address
          → known i (record { mask = m; ptr = c.address }) ≡ some v
          → lookup c.fd p.channels ≡ some v.ptr
      go k_new l h = ground arith
      go k_added l h = ground arith
      go k_deleted l h = ground arith

  -- Away from the channel's own descriptor nothing changes.
  abbrev Same : ℕ → Poller → K → Poller → K → Type 0
  Same fd p k p' k' =
      (p'.epollfd ≡ p.epollfd)
      × (lookup fd p'.channels ≡ lookup fd p.channels)
      × (laws.interest k' p.epollfd fd ≡ laws.interest k p.epollfd fd)

  update_by-Same :
      (i : Index) (p : Poller) (c : Channel) (k : K) (fd : ℕ)
      → c.fd ≢ fd
      → {p' : Poller} {c' : Channel} {k' : K} → update_by sys i p c k ≡ done (p', c', k')
      → Same fd p k p' k'
  unfolding update_by
  update_by-Same k_new p c k fd h {p'} {c'} {k'} e =
      let q = record p { channels = insert c.fd c.address p.channels } in
      ground (
        arith,
        update-other laws q ctl_add (set_index c k_added) k {k' = k'} fd,
        lookup-insert c.fd fd c.address p.channels,
      )
  update_by-Same k_deleted p c k fd h {p'} {c'} {k'} e =
      ground (arith, update-other laws p ctl_add (set_index c k_added) k {k' = k'} fd)
  update_by-Same k_added p c k fd h {p'} {c'} {k'} e = ground (
    arith,
    update-other laws p ctl_mod c k {k' = k'} fd,
    update-other laws p ctl_del c k {k' = k'} fd,
  )

  remove_by-Same :
      (i : Index) (p : Poller) (c : Channel) (k : K) (fd : ℕ)
      → c.fd ≢ fd
      → {p' : Poller} {c' : Channel} {k' : K} → remove_by sys i p c k ≡ done (p', c', k')
      → Same fd p k p' k'
  unfolding remove_by
  remove_by-Same k_new p c k fd h {p'} {c'} {k'} e = ground arith
  remove_by-Same k_deleted p c k fd h {p'} {c'} {k'} e = ground arith
  remove_by-Same k_added p c k fd h {p'} {c'} {k'} e =
      ground (arith, update-other laws p ctl_del c k {k' = k'} fd)

  joined-Registry :
      (p p' : Poller) (c c' : Channel) (k k' : K)
      → Registry p k
      → Tracks laws p' c' k'
      → (c'.fd ≡ c.fd)
      → (p'.epollfd ≡ p.epollfd)
      → ((fd : ℕ) → c.fd ≢ fd → Same fd p k p' k')
      → Registry p' k'
  joined-Registry p p' c c' k k' r t same e others fd v h = elim (Bool-cases (c.fd == fd)) [
    | inl here ↦
        let at : c'.fd ≡ fd = ground arith in
        ap (λ i. lookup i p'.channels) (sym at)
        ∙ Tracks-Registry c'.events p' c' k' v t (ap (λ i. laws.interest k' p'.epollfd i) at ∙ h)
    | inr away ↦
        let (_, map, interest) = others fd (ground arith) in
        map ∙ r fd v (sym interest ∙ ap (λ i. laws.interest k' i fd) (sym e) ∙ h)
  ]

  -- `updateChannel` of a tracked channel keeps the registry, whatever other channels there are.
  pub update_channel-Registry :
      (m : Mask) (p : Poller) (c : Channel) (k : K)
      → Registry p k
      → TracksAs laws m p c k
      → {p' : Poller} {c' : Channel} {k' : K} → update_channel sys p c k ≡ done (p', c', k')
      → Registry p' k'
  unfolding update_channel
  update_channel-Registry m p c k r t {p'} {c'} {k'} e =
      let (t', same, epoll) = update_channel-Tracks laws m p c k t e in
      joined-Registry p p' c c' k k' r t' (ap (λ d. d.fd) same) epoll
        (λ fd h. update_by-Same c.index p c k fd h e)

  -- So does `removeChannel`.
  pub remove_channel-Registry :
      (m : Mask) (p : Poller) (c : Channel) (k : K)
      → Registry p k
      → TracksAs laws m p c k
      → {p' : Poller} {c' : Channel} {k' : K} → remove_channel sys p c k ≡ done (p', c', k')
      → Registry p' k'
  unfolding remove_channel
  remove_channel-Registry m p c k r t {p'} {c'} {k'} e =
      let q = record p { channels = erase c.fd p.channels } in
      let (k₁, returns, t', _) = remove_channel-Tracks laws m p c k t in
      let same : done (q, set_index c k_new, k₁) ≡ done (p', c', k') = sym returns ∙ e in
      let t'' : Tracks laws p' c' k' =
        subst (λ x. Tracks laws x.0 x.1 x.2) (done-injective same) t' in
      joined-Registry p p' c c' k k' r t'' (ap (λ x. x.1.fd) (done-injective (sym same)))
        (ap (λ x. x.0.epollfd) (done-injective (sym same)))
        λ fd h.
          let (epoll, map, interest) = remove_by-Same c.index q c k fd h e in
          (epoll, map ∙ ground (arith, lookup-erase c.fd fd p.channels), interest)

  -- Every channel of the map exists: its address is that of an object of the process.
  abbrev pub IsAlive : Poller → Channels → Type 0
  IsAlive p store = (fd a : ℕ) → lookup fd p.channels ≡ some a → lookup a store ≢ none

  -- The map knows the channel that an event names.
  named :
      (p : Poller) (timeout : ℕ) (k : K)
      → Registry p k
      → (r : WaitResult) → (sys.epoll_wait k p.epollfd (max_events p) timeout).0 ≡ r
      → (v : Interest) → Mem v (events_of r)
      → ∥ ((fd : ℕ) × (lookup fd p.channels ≡ some v.ptr)) ∥₁
  named p timeout k r (ready es) e v m =
      ∥∥₁_map (laws.wait_registered k p.epollfd (max_events p) timeout es v e m)
        λ (fd, x, known, same). (fd, r fd x known ∙ ap some same)
  named p timeout k r (wait_failed errno) e v m = absurd (ne-nil_of_mem m refl)

  still_alive : (f : Mask → Mask) (o o' : Option Channel) → o' ≡ remark f o → o ≢ none → o' ≢ none
  still_alive f none o' e h = absurd (h refl)
  still_alive f (some c) o' e h = λ gone. cc (e, gone)

  -- Where every channel of the map exists and epoll knows no channel that the map has lost, `poll`
  -- returns: it stores no event through a pointer that dangles, and hands none out. The active channels
  -- are those of the reported events, in their order, each of them in the map, and both conditions
  -- hold again afterwards. The list for the events is not empty.
  pub poll-known :
      (p : Poller) (timeout : ℕ) (store : Channels) (active : List ℕ) (k : K)
      → 0 < p.capacity
      → Registry p k
      → IsAlive p store
      → let (r, k') = sys.epoll_wait k p.epollfd (max_events p) timeout in
        (x : Poller × Channels × List ℕ) × (poll sys p timeout store active k
          ≡ done (x.0, x.1, x.2, k'))
        × Registry x.0 k'
        × IsAlive x.0 x.1
        × (x.2 ≡ active ++ map (λ v. v.ptr) (events_of r))
        × ((v : Interest)
            → Mem v (events_of r)
            → ∥ ((fd : ℕ) × (lookup fd x.0.channels ≡ some v.ptr)) ∥₁)
  poll-known p timeout store active k pos r alive =
      let (w, k') = sys.epoll_wait k p.epollfd (max_events p) timeout in
      let (x, returns, polled, _) = poll-Polled laws p timeout store active k pos λ v m none_there.
        ∥∥₁_elim (named p timeout k r w refl v m) (λ (x y : ⊥). absurd x)
          (λ (fd, e). alive fd v.ptr e none_there) in
      (
        x,
        returns,
        λ fd v e.
            ap (lookup fd) polled.same_channels
            ∙ r fd v (
                sym (laws.wait_interest k p.epollfd (max_events p) timeout p.epollfd fd)
                ∙ ap (λ j. laws.interest k' j fd) (sym polled.same_epollfd)
                ∙ e),
        λ fd a e.
            still_alive (last_mask a (events_of w)) (lookup a store) (lookup a x.1)
              (polled.revents a) (alive fd a (sym (ap (lookup fd) polled.same_channels) ∙ e)),
        polled.active_channels,
        λ v m.
            ∥∥₁_map (named p timeout k r w refl v m)
              λ (fd, e). (fd, ap (lookup fd) polled.same_channels ∙ e),
      )
