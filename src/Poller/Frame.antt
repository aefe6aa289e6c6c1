-- ===== src/Poller/Frame.antt =====
-- EPOLLPoller.cc: what a registration leaves alone in the kernel.
use moduo_write.Common.{ℕ, ◌≡◌, ◌≢◌, arith, done}
use moduo_write.Common.Dict.{insert, erase}
use moduo_write.System.{Sys, SysLaws, Interest, CtlOp, ctl_add, ctl_mod, ctl_del}
use moduo_write.Channel.{Channel, Index, k_new, k_added, k_deleted, set_index}
use moduo_write.Poller.{Poller, update, update_by, update_channel, remove_by, remove_channel}

-- What a channel asks epoll for.
abbrev pub interest_of : Channel → Interest
interest_of c = record { mask = c.events; ptr = c.address }

-- A view of the kernel that no epoll_ctl changes.
module _ {K A : Type 0} (sys : Sys K) (view : K → A)
    (keeps : (k : K) (e fd : ℕ) (op : CtlOp) (v : Interest)
      → view (sys.epoll_ctl k e op fd v).1 ≡ view k) where
  update-view :
      (p : Poller) (op : CtlOp) (c : Channel) (k : K) {k' : K}
      → update sys p op c k ≡ done k'
      → view k' ≡ view k
  unfolding update
  update-view p op c k e = ground (arith, keeps k p.epollfd c.fd op (interest_of c))

  update_by-view :
      (i : Index) (p : Poller) (c : Channel) (k : K)
      → {p' : Poller} {c' : Channel} {k' : K} → update_by sys i p c k ≡ done (p', c', k')
      → view k' ≡ view k
  unfolding update_by
  update_by-view k_new p c k {p'} {c'} {k'} e =
      let q = record p { channels = insert c.fd c.address p.channels } in
      ground (arith, update-view q ctl_add (set_index c k_added) k {k' = k'})
  update_by-view k_deleted p c k {p'} {c'} {k'} e =
      ground (arith, update-view p ctl_add (set_index c k_added) k {k' = k'})
  update_by-view k_added p c k {p'} {c'} {k'} e =
      ground (arith, update-view p ctl_mod c k {k' = k'}, update-view p ctl_del c k {k' = k'})

  pub update_channel-view :
      (p : Poller) (c : Channel) (k : K)
      → {p' : Poller} {c' : Channel} {k' : K} → update_channel sys p c k ≡ done (p', c', k')
      → view k' ≡ view k
  unfolding update_channel
  update_channel-view p c k e = update_by-view c.index p c k e

  remove_by-view :
      (i : Index) (p : Poller) (c : Channel) (k : K)
      → {p' : Poller} {c' : Channel} {k' : K} → remove_by sys i p c k ≡ done (p', c', k')
      → view k' ≡ view k
  unfolding remove_by
  remove_by-view k_new p c k {p'} {c'} {k'} e = ground arith
  remove_by-view k_deleted p c k {p'} {c'} {k'} e = ground arith
  remove_by-view k_added p c k {p'} {c'} {k'} e =
      ground (arith, update-view p ctl_del c k {k' = k'})

  pub remove_channel-view :
      (p : Poller) (c : Channel) (k : K)
      → {p' : Poller} {c' : Channel} {k' : K} → remove_channel sys p c k ≡ done (p', c', k')
      → view k' ≡ view k
  unfolding remove_channel
  remove_channel-view p c k e =
      remove_by-view c.index (record p { channels = erase c.fd p.channels }) c k e

module _ {K : Type 0} (sys : Sys K) where
  update_by-fd :
      (i : Index) (p : Poller) (c : Channel) (k : K)
      → {p' : Poller} {c' : Channel} {k' : K} → update_by sys i p c k ≡ done (p', c', k')
      → c'.fd ≡ c.fd
  unfolding update_by
  update_by-fd k_new p c k {p'} {c'} {k'} e = ground arith
  update_by-fd k_deleted p c k {p'} {c'} {k'} e = ground arith
  update_by-fd k_added p c k {p'} {c'} {k'} e = ground arith

  remove_by-fd :
      (i : Index) (p : Poller) (c : Channel) (k : K)
      → {p' : Poller} {c' : Channel} {k' : K} → remove_by sys i p c k ≡ done (p', c', k')
      → c'.fd ≡ c.fd
  unfolding remove_by
  remove_by-fd k_new p c k {p'} {c'} {k'} e = ground arith
  remove_by-fd k_deleted p c k {p'} {c'} {k'} e = ground arith
  remove_by-fd k_added p c k {p'} {c'} {k'} e = ground arith

  pub remove_channel-fd :
      (p : Poller) (c : Channel) (k : K)
      → {p' : Poller} {c' : Channel} {k' : K} → remove_channel sys p c k ≡ done (p', c', k')
      → c'.fd ≡ c.fd
  unfolding remove_channel
  remove_channel-fd p c k e =
      remove_by-fd c.index (record p { channels = erase c.fd p.channels }) c k e

  -- Registration leaves a channel its descriptor.
  pub update_channel-fd :
      (p : Poller) (c : Channel) (k : K)
      → {p' : Poller} {c' : Channel} {k' : K} → update_channel sys p c k ≡ done (p', c', k')
      → c'.fd ≡ c.fd
  unfolding update_channel
  update_channel-fd p c k e = update_by-fd c.index p c k e

module _ {K : Type 0} {sys : Sys K} (laws : SysLaws sys) where
  -- What an epoll_ctl of another descriptor leaves alone.
  pub update-other :
      (p : Poller) (op : CtlOp) (c : Channel) (k : K) {k' : K} (i : ℕ)
      → update sys p op c k ≡ done k'
      → c.fd ≢ i
      → laws.interest k' p.epollfd i ≡ laws.interest k p.epollfd i
  unfolding update
  update-other p op c k i e h =
      ground (arith, laws.ctl_other k p.epollfd c.fd i op (interest_of c) h)

  -- Registration sends no data.
  pub update_channel-sent :
      (p : Poller) (c : Channel) (k : K) (fd : ℕ)
      → {p' : Poller} {c' : Channel} {k' : K} → update_channel sys p c k ≡ done (p', c', k')
      → laws.sent k' fd ≡ laws.sent k fd
  update_channel-sent p c k fd e =
      update_channel-view sys (λ k. laws.sent k fd) (λ k e d op v. laws.ctl_sent k e d fd op v) p c
        k e

  -- Nor does it shut the socket down.
  pub update_channel-shut :
      (p : Poller) (c : Channel) (k : K) (fd : ℕ)
      → {p' : Poller} {c' : Channel} {k' : K} → update_channel sys p c k ≡ done (p', c', k')
      → laws.shut k' fd ≡ laws.shut k fd
  update_channel-shut p c k fd e =
      update_channel-view sys (λ k. laws.shut k fd) (λ k e d op v. laws.ctl_shut k e d fd op v) p c
        k e
