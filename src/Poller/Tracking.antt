-- ===== src/Poller/Tracking.antt =====
-- EPOLLPoller.cc: the map of channels, the state of a channel and epoll's interest list agree.
use moduo_write.Common.{
  ℕ, ◌≡◌, refl, ◌≢◌, ◌↔◌, true, false, Option, none, some, arith, if◌then◌else◌, done, bind,
}
use moduo_write.Common.Dict.{lookup, insert, erase, lookup-insert, lookup-erase}
use moduo_write.System.{Sys, SysLaws, Mask, Interest, ctl_add, ctl_mod, ctl_del}
use moduo_write.Channel.{Channel, Index, k_new, k_added, k_deleted, set_index, is_none_event}
use moduo_write.Poller.{
  Poller, has_channel, ctl_result, update, update_by, update_channel, remove_by, remove_channel,
}
use moduo_write.Poller.Frame.{interest_of, update-other}

-- Whether a channel in this state is in the map, and with which mask epoll knows its descriptor.
abbrev pub mapped : Index → ℕ → Option ℕ
mapped k_new a = none
mapped k_added a = some a
mapped k_deleted a = some a

abbrev pub known : Index → Interest → Option Interest
known k_new v = none
known k_added v = some v
known k_deleted v = none

-- The index after `updateChannel`.
abbrev pub index_after : Index → Channel → Index
index_after k_new c = k_added
index_after k_deleted c = k_added
index_after k_added c = if is_none_event c then k_deleted else k_added

module _ {K : Type 0} {sys : Sys K} (laws : SysLaws sys) where
  -- The map and epoll hold of the channel what its index says, with the mask `m`.
  pub record TracksAs (m : Mask) (p : Poller) (c : Channel) (k : K) : Type 0 where
    pub in_map : lookup c.fd p.channels ≡ mapped c.index c.address
    pub in_epoll :
        laws.interest k p.epollfd c.fd ≡ known c.index (record { mask = m; ptr = c.address })

  -- With the mask that the channel asks for.
  abbrev pub Tracks : Poller → Channel → K → Type 0
  Tracks p c k = TracksAs c.events p c k

  update-add :
      (p : Poller) (c : Channel) (k : K) {k' : K}
      → update sys p ctl_add c k ≡ done k'
      → laws.interest k' p.epollfd c.fd ≡ some (interest_of c)
  unfolding update ctl_result
  update-add p c k e = ground (arith, laws.ctl_add_interest k p.epollfd c.fd (interest_of c))

  update-mod :
      (p : Poller) (c : Channel) (k : K) {k' : K}
      → update sys p ctl_mod c k ≡ done k'
      → laws.interest k' p.epollfd c.fd ≡ some (interest_of c)
  unfolding update ctl_result
  update-mod p c k e = ground (arith, laws.ctl_mod_interest k p.epollfd c.fd (interest_of c))

  update-del :
      (p : Poller) (c : Channel) (k : K) {k' : K} (w : Interest)
      → laws.interest k p.epollfd c.fd ≡ some w
      → update sys p ctl_del c k ≡ done k'
      → laws.interest k' p.epollfd c.fd ≡ none
  unfolding update ctl_result
  update-del p c k w h e = ground (
    arith,
    laws.ctl_del_interest k p.epollfd c.fd (interest_of c),
    laws.ctl_del_registered k p.epollfd c.fd (interest_of c) w h,
  )

  update-del_returns :
      (p : Poller) (c : Channel) (k : K) → (k' : K) × (update sys p ctl_del c k ≡ done k')
  unfolding update ctl_result
  update-del_returns p c k =
      ((sys.epoll_ctl k p.epollfd ctl_del c.fd (interest_of c)).1, ground arith)

  -- `hasChannel` finds a tracked channel exactly if its index is not kNew.
  pub has_channel-Tracks :
      (m : Mask) (p : Poller) (c : Channel) (k : K)
      → TracksAs m p c k
      → (has_channel p c ≡ true) ↔ (c.index ≢ k_new)
  unfolding has_channel
  has_channel-Tracks m p c k t = go c.index t.in_map
    where
      go :
          (i : Index)
          → lookup c.fd p.channels ≡ mapped i c.address
          → (has_channel p c ≡ true) ↔ (i ≢ k_new)
      go k_new e = ground arith
      go k_added e = ground arith
      go k_deleted e = ground arith

  update_by-Tracks :
      (i : Index) (m : Mask) (p : Poller) (c : Channel) (k : K)
      → c.index ≡ i
      → TracksAs m p c k
      → {p' : Poller} {c' : Channel} {k' : K} → update_by sys i p c k ≡ done (p', c', k')
      → Tracks p' c' k' × (c' ≡ set_index c (index_after i c)) × (p'.epollfd ≡ p.epollfd)
  unfolding update_by
  update_by-Tracks k_new m p c k h t {p'} {c'} {k'} e =
      let q = record p { channels = insert c.fd c.address p.channels } in
      ground (
        arith,
        update-add q (set_index c k_added) k {k' = k'},
        lookup-insert c.fd c.fd c.address p.channels,
      )
  update_by-Tracks k_deleted m p c k h t {p'} {c'} {k'} e =
      ground (arith, update-add p (set_index c k_added) k {k' = k'})
  update_by-Tracks k_added m p c k h t {p'} {c'} {k'} e = ground (
    arith,
    update-mod p c k {k' = k'},
    update-del p c k {k' = k'} (record { mask = m; ptr = c.address }),
  )

  -- When `updateChannel` of a tracked channel returns, the map and epoll hold of the channel what its new index says,
  -- with the mask that it asks for; only its index has changed.
  pub update_channel-Tracks :
      (m : Mask) (p : Poller) (c : Channel) (k : K)
      → TracksAs m p c k
      → {p' : Poller} {c' : Channel} {k' : K} → update_channel sys p c k ≡ done (p', c', k')
      → Tracks p' c' k' × (c' ≡ set_index c (index_after c.index c)) × (p'.epollfd ≡ p.epollfd)
  unfolding update_channel
  update_channel-Tracks m p c k t e = update_by-Tracks c.index m p c k refl t e

  remove_by-Tracks :
      (i : Index) (m : Mask) (p : Poller) (c : Channel) (k : K)
      → c.index ≡ i
      → lookup c.fd p.channels ≡ none
      → laws.interest k p.epollfd c.fd ≡ known i (record { mask = m; ptr = c.address })
      → (k' : K) × (remove_by sys i p c k ≡ done (p, set_index c k_new, k'))
        × Tracks p (set_index c k_new) k'
  unfolding remove_by
  remove_by-Tracks k_new m p c k h l t = (k, refl, ground arith)
  remove_by-Tracks k_deleted m p c k h l t = (k, refl, ground arith)
  remove_by-Tracks k_added m p c k h l t =
      let (k', e) = update-del_returns p c k in
      (
        k',
        rw (e, bind),
        record {
          in_map = l;
          in_epoll = update-del p c k (record { mask = m; ptr = c.address }) t e;
        },
      )

  -- `removeChannel` of a tracked channel always returns. It drops the channel from the map and from
  -- epoll, and `hasChannel` no longer finds it.
  pub remove_channel-Tracks :
      (m : Mask) (p : Poller) (c : Channel) (k : K)
      → TracksAs m p c k
      → let p' = record p { channels = erase c.fd p.channels } in
        (k' : K) × (remove_channel sys p c k ≡ done (p', set_index c k_new, k'))
        × Tracks p' (set_index c k_new) k'
        × (has_channel p' (set_index c k_new) ≡ false)
  unfolding remove_channel has_channel
  remove_channel-Tracks m p c k t =
      let p' = record p { channels = erase c.fd p.channels } in
      let gone : lookup c.fd p'.channels ≡ none =
        ground (arith, lookup-erase c.fd c.fd p.channels) in
      let (k', e, t') = remove_by-Tracks c.index m p' c k refl gone t.in_epoll in
      (k', e, t', ground arith)

  update_by-other :
      (i : Index) (m : Mask) (p : Poller) (c d : Channel) (k : K)
      → c.fd ≢ d.fd
      → TracksAs m p d k
      → {p' : Poller} {c' : Channel} {k' : K} → update_by sys i p c k ≡ done (p', c', k')
      → TracksAs m p' d k'
  unfolding update_by
  update_by-other k_new m p c d k h t {p'} {c'} {k'} e =
      let q = record p { channels = insert c.fd c.address p.channels } in
      ground (
        arith,
        update-other laws q ctl_add (set_index c k_added) k {k' = k'} d.fd,
        lookup-insert c.fd d.fd c.address p.channels,
      )
  update_by-other k_deleted m p c d k h t {p'} {c'} {k'} e =
      ground (arith, update-other laws p ctl_add (set_index c k_added) k {k' = k'} d.fd)
  update_by-other k_added m p c d k h t {p'} {c'} {k'} e = ground (
    arith,
    update-other laws p ctl_mod c k {k' = k'} d.fd,
    update-other laws p ctl_del c k {k' = k'} d.fd,
  )

  -- An update of one channel leaves every channel on another descriptor tracked as it was.
  pub update_channel-other :
      (m : Mask) (p : Poller) (c d : Channel) (k : K)
      → c.fd ≢ d.fd
      → TracksAs m p d k
      → {p' : Poller} {c' : Channel} {k' : K} → update_channel sys p c k ≡ done (p', c', k')
      → TracksAs m p' d k'
  unfolding update_channel
  update_channel-other m p c d k h t e = update_by-other c.index m p c d k h t e
