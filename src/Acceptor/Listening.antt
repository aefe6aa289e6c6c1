-- ===== src/Acceptor/Listening.antt =====
-- Acceptor.cc: the accept channel while the acceptor listens and when it is destroyed.
use moduo_write.Common.{
  ◌≡◌, refl, ap, ◌∙◌, true, false, Bool-cases, inl, inr, none, some, arith, Ensures, Ensures-bind,
}
use moduo_write.System.{Sys, SysLaws, Mask}
use moduo_write.System.Net.{Net, NetLaws}
use moduo_write.Socket.{backlog}
use moduo_write.Socket
use moduo_write.Channel.{
  Channel, Index, k_new, k_added, k_deleted, is_reading, or_events, read_event,
}
use moduo_write.Poller.{Poller, has_channel, enable_reading}
use moduo_write.Poller.Frame.{interest_of}
use moduo_write.Poller.Tracking.{TracksAs, Tracks, index_after}
use moduo_write.Poller.Registration.{Updated, update_channel-Updated}
use moduo_write.Acceptor.{Acceptor, listen}

reads_added : (i : Index) (c : Channel) → index_after i (or_events c read_event) ≡ k_added
reads_added k_new c = refl
reads_added k_deleted c = refl
reads_added k_added c = ground arith

module _ {K : Type 0} {sys : Sys K} {laws : SysLaws sys} {net : Net K}
    (net_laws : NetLaws laws net) where
  -- The accept channel waits for clients, and epoll knows it.
  pub record Listening (r : Poller × Acceptor × K) : Type 0 where
    pub listenning : r.1.listenning ≡ true
    pub reads : is_reading r.1.accept_channel ≡ true
    pub tracked : Tracks laws r.0 r.1.accept_channel r.2
    pub known :
        laws.interest r.2 r.0.epollfd r.1.accept_channel.fd ≡ some (interest_of r.1.accept_channel)

  -- `listen` of an acceptor with a tracked channel leaves it listening, its channel in epoll for
  -- reading, whatever the channel waited for before; or the process exits, because the socket or
  -- epoll refused.
  pub listen-Listening :
      (m : Mask) (p : Poller) (a : Acceptor) (k : K)
      → TracksAs laws m p a.accept_channel k
      → Ensures Listening (listen net sys p a k)
  unfolding listen Socket.listen enable_reading
  listen-Listening m p a k t =
      let r = net.listen k a.accept_socket.sockfd backlog in
      let c = or_events a.accept_channel read_event in
      elim (Bool-cases r.0) [
        | inl e ↦
            let t₁ : TracksAs laws m p c r.1 = record {
              in_map = t.in_map;
              in_epoll =
                  net_laws.listen_interest k a.accept_socket.sockfd backlog p.epollfd
                    a.accept_channel.fd
                  ∙ t.in_epoll;
            } in
            rw e (
              Ensures-bind (Updated laws p c r.1) Listening _ _
                (update_channel-Updated laws m p c r.1 t₁)
                λ (p', c', k') u.
                  let added : c'.index ≡ k_added =
                    ap (λ d. d.index) u.channel
                    ∙ reads_added a.accept_channel.index a.accept_channel in
                  record {
                    listenning = refl;
                    reads = rw (u.channel) (ground arith);
                    tracked = u.tracked;
                    known = u.tracked.in_epoll ∙ rw added refl;
                  })
        | inr e ↦ rw e tt
      ]

  -- Neither the poller nor epoll knows the accept channel, and its descriptor is closed.
  pub record Gone (r : Poller × Acceptor × K) : Type 0 where
    pub absent : has_channel r.0 r.1.accept_channel ≡ false
    pub silent : laws.interest r.2 r.0.epollfd r.1.accept_channel.fd ≡ none
    pub closed : net_laws.is_open r.2 r.1.accept_socket.sockfd ≡ false
