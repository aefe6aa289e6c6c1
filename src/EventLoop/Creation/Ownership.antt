-- ===== src/EventLoop/Creation/Ownership.antt =====
-- Eventloop.cc: one loop in a thread, and what its constructor and destructor leave behind.
use moduo_write.Common.{
  ℕ, ◌≡◌, refl, sym, ap, ◌∙◌, Bool, true, false, Bool-cases, inl, inr, none, some, arith, ◌==◌,
  if◌then◌else◌, [], bind, done, exited, Ensures, Ensures-bind,
}
use moduo_write.Common.Dict.{lookup}
use moduo_write.System.{Sys, SysLaws, mask_zero}
use moduo_write.System.Net.{Net, NetLaws, SocketResult, opened, not_opened}
use moduo_write.System.Fds.{Fds, FdsLaws}
use moduo_write.Channel.{Channel, k_new, k_added, is_reading, or_events, read_event}
use moduo_write.Channel
use moduo_write.CurrentThread.{tid, cache_tid}
use moduo_write.System.{ctl_add}
use moduo_write.Poller.{
  Poller, has_channel, enable_reading, remove_channel, update_channel, update_by, update,
  ctl_result,
}
use moduo_write.Poller
use moduo_write.Poller.Frame.{interest_of}
use moduo_write.Poller.Tracking.{Tracks}
use moduo_write.Poller.Registration.{Updated, update_channel-Updated}
use moduo_write.Poller.Creation.{create, new_default_poller}
use moduo_write.Poller.Creation
use moduo_write.EventLoop.Creation.{Built, create_eventfd, register, new}

module _ {K : Type 0} {sys : Sys K} (laws : SysLaws sys) where
  -- A loop that can be run: idle, the only one of its thread, with its eventfd in epoll for reading.
  pub record Ready (address id : ℕ) (b : Built K) : Type 0 where
    pub idle : (b.loop.looping ≡ false) × (b.loop.calling_pending_functors ≡ false)
    pub none_pending : b.loop.pending_functors ≡ []
    pub thread : (b.loop.thread_id ≡ id) × (b.cached_tid ≡ id)
    pub current : b.current ≡ some address
    pub eventfd : b.wakeup_channel.fd ≡ b.loop.wakeup_fd
    pub reads : is_reading b.wakeup_channel ≡ true
    pub tracked : Tracks laws b.loop.poller b.wakeup_channel b.kernel
    pub known :
        laws.interest b.kernel b.loop.poller.epollfd b.loop.wakeup_fd
        ≡ some (interest_of b.wakeup_channel)

  register-Ready :
      (address channel_address id fd epollfd : ℕ) (k : K)
      → laws.interest k epollfd fd ≡ none
      → Ensures (Ready address id) (
          register sys address none
            (some (Poller.new epollfd))
            id
            fd
            (Channel.new channel_address fd)
            k)
  unfolding register enable_reading Channel.new Poller.new lookup
  register-Ready address channel_address id fd epollfd k silent =
      let p = Poller.new epollfd in
      let c = or_events (Channel.new channel_address fd) read_event in
      Ensures-bind (Updated laws p c k) (Ready address id) _ _
        (update_channel-Updated laws mask_zero p c k (record { in_map = refl; in_epoll = silent }))
        λ (p', c', k') u.
          let added : c'.index ≡ k_added = ap (λ d. d.index) u.channel in
          let at : c'.fd ≡ fd = ap (λ d. d.fd) u.channel in
          record {
            idle = (refl, refl);
            none_pending = refl;
            thread = (refl, refl);
            current = refl;
            eventfd = at;
            reads = rw u.channel refl;
            tracked = u.tracked;
            known =
                ap (λ i. laws.interest k' p'.epollfd i) (sym at)
                ∙ u.tracked.in_epoll
                ∙ rw added refl;
          }

  module _ {fds : Fds K} (fds_laws : FdsLaws laws fds) where
    made_eventfd :
        (address channel_address id epollfd : ℕ) (k : K)
        → ((i : ℕ) → laws.interest k epollfd i ≡ none)
        → Ensures (Ready address id) (
            bind (create_eventfd fds k) λ (evtfd, k').
              register sys address none
                (some (Poller.new epollfd))
                id
                evtfd
                (Channel.new channel_address evtfd)
                k')
    unfolding create_eventfd
    made_eventfd address channel_address id epollfd k silent = go (fds.eventfd k).0
      where
        go :
            (r : SocketResult)
            → Ensures (Ready address id) (
                bind
                  (elim r [
                    | opened evtfd ↦ done (evtfd, (fds.eventfd k).1)
                    | not_opened errno ↦ exited
                  ])
                  λ (evtfd, k').
                    register sys address none
                      (some (Poller.new epollfd))
                      id
                      evtfd
                      (Channel.new channel_address evtfd)
                      k')
        go (opened evtfd) =
            register-Ready address channel_address id evtfd epollfd (fds.eventfd k).1
              (fds_laws.eventfd_interest k epollfd evtfd ∙ silent evtfd)
        go (not_opened errno) = tt

    new_loop :
        (gettid address channel_address cached : ℕ) (k : K)
        → Ensures
            (Ready address (if cached == 0 then gettid else cached))
            (new fds sys false gettid address channel_address cached none k)
    unfolding new new_default_poller create tid cache_tid
    new_loop gettid address channel_address cached k = go (fds.epoll_create1 k).0 refl
      where
        go :
            (r : SocketResult)
            → (fds.epoll_create1 k).0 ≡ r
            → Ensures (Ready address (if cached == 0 then gettid else cached)) (
                bind
                  (bind
                    (elim r [
                      | opened epollfd ↦ done (Poller.new epollfd, (fds.epoll_create1 k).1)
                      | not_opened errno ↦ exited
                    ])
                    λ (p, k'). done (some p, k'))
                  λ (poller, k₁). bind (create_eventfd fds k₁) λ (evtfd, k₂).
                    register sys address none poller
                      (if cached == 0 then (if cached == 0 then gettid else cached) else cached)
                      evtfd
                      (Channel.new channel_address evtfd)
                      k₂)
        go (opened epollfd) e = elim (Bool-cases (cached == 0)) [
          | inl z ↦ rw z (
              made_eventfd address channel_address gettid epollfd (fds.epoll_create1 k).1
                λ i. fds_laws.epoll_fresh k epollfd i e)
          | inr z ↦ rw z (
              made_eventfd address channel_address cached epollfd (fds.epoll_create1 k).1
                λ i. fds_laws.epoll_fresh k epollfd i e)
        ]
        go (not_opened errno) e = tt

    -- A call that makes the loop's descriptors has failed, or epoll refuses the eventfd.
    pub data Refused (channel_address : ℕ) (k : K) : Type 0 where
      no_epoll :
          (errno : ℕ) → (fds.epoll_create1 k).0 ≡ not_opened errno → Refused channel_address k
      no_eventfd :
          (errno : ℕ)
          → (fds.eventfd (fds.epoll_create1 k).1).0 ≡ not_opened errno
          → Refused channel_address k
      no_entry :
          (epollfd fd : ℕ)
          → (fds.epoll_create1 k).0 ≡ opened epollfd
          → (fds.eventfd (fds.epoll_create1 k).1).0 ≡ opened fd
          → (sys.epoll_ctl
              (fds.eventfd (fds.epoll_create1 k).1).1
              epollfd
              ctl_add
              fd
              (record { mask = read_event; ptr = channel_address })).0
            ≡ false
          → Refused channel_address k

    -- What is left to do with both descriptors.
    new-register :
        (gettid address channel_address cached epollfd fd : ℕ) (k : K)
        → (fds.epoll_create1 k).0 ≡ opened epollfd
        → (fds.eventfd (fds.epoll_create1 k).1).0 ≡ opened fd
        → new fds sys false gettid address channel_address cached none k
          ≡ register sys address none
              (some (Poller.new epollfd))
              (tid gettid cached).0
              fd
              (Channel.new channel_address fd)
              (fds.eventfd (fds.epoll_create1 k).1).1
    unfolding new new_default_poller create create_eventfd
    new-register gettid address channel_address cached epollfd fd k e₁ e₂ =
        rw (new, e₁, bind, e₂) refl

    register-refused :
        (address channel_address id fd epollfd : ℕ) (k : K)
        → register sys address none
            (some (Poller.new epollfd))
            id
            fd
            (Channel.new channel_address fd)
            k
          ≡ exited
        → (sys.epoll_ctl k epollfd ctl_add fd
            (record { mask = read_event; ptr = channel_address })).0
          ≡ false
    unfolding register enable_reading update_channel update_by update ctl_result Channel.new
        Poller.new
    register-refused address channel_address id fd epollfd k h = ground arith

    new-Refused :
        (gettid address channel_address cached : ℕ) (k : K)
        → new fds sys false gettid address channel_address cached none k ≡ exited
        → Refused channel_address k
    new-Refused gettid address channel_address cached k h = by_epoll (fds.epoll_create1 k).0 refl
      where
        by_eventfd :
            (epollfd : ℕ)
            → (fds.epoll_create1 k).0 ≡ opened epollfd
            → (r : SocketResult) → (fds.eventfd (fds.epoll_create1 k).1).0 ≡ r
            → Refused channel_address k
        by_eventfd epollfd e₁ (not_opened errno) e₂ = no_eventfd errno e₂
        by_eventfd epollfd e₁ (opened fd) e₂ = no_entry epollfd fd e₁ e₂ (
            register-refused address channel_address (tid gettid cached).0 fd epollfd _
              (sym (new-register gettid address channel_address cached epollfd fd k e₁ e₂) ∙ h))

        by_epoll : (r : SocketResult) → (fds.epoll_create1 k).0 ≡ r → Refused channel_address k
        by_epoll (not_opened errno) e = no_epoll errno e
        by_epoll (opened epollfd) e =
            by_eventfd epollfd e (fds.eventfd (fds.epoll_create1 k).1).0 refl

    -- The constructor in a thread without a loop gives a loop that can be run, registered for its own
    -- eventfd and entered as the loop of the thread, whose number it keeps; or the process exits, and
    -- then one of the two descriptors could not be made or epoll has refused the eventfd.
    pub new-Ready :
        (gettid address channel_address cached : ℕ) (k : K)
        → Ensures
            (Ready address (if cached == 0 then gettid else cached))
            (new fds sys false gettid address channel_address cached none k)
          × (new fds sys false gettid address channel_address cached none k ≡ exited
              → Refused channel_address k)
    new-Ready gettid address channel_address cached k = (
      new_loop gettid address channel_address cached k,
      new-Refused gettid address channel_address cached k,
    )

  -- In a thread that has a loop, the constructor of another ends the process, whatever the kernel
  -- answers.
  pub new-exited :
      (fds : Fds K) (use_poll : Bool) (gettid address channel_address cached other : ℕ) (k : K)
      → new fds sys use_poll gettid address channel_address cached (some other) k ≡ exited
  unfolding new new_default_poller create create_eventfd register
  new-exited fds use_poll gettid address channel_address cached other k = ground arith

  module _ {net : Net K} (net_laws : NetLaws laws net) where
    pub record Released (b : Built K) : Type 0 where
      pub current : b.current ≡ none
      pub absent : has_channel b.loop.poller b.wakeup_channel ≡ false
      pub closed :
          (net_laws.is_open b.kernel b.loop.wakeup_fd ≡ false)
          × (net_laws.is_open b.kernel b.loop.poller.epollfd ≡ false)
