-- ===== src/Acceptor/Accepting.antt =====
-- Acceptor.cc: what becomes of the descriptor that `accept4` returns.
use moduo_write.Common.{
  ℕ, ◌+◌, ◌^◌, ◌<◌, ◌≡◌, refl, sym, ap, ◌∙◌, ◌≢◌, inl, inr, true, false, none, some, arith, get_or,
  ◌==◌, Bool-cases, Outcome, done,
}
use moduo_write.Common.Dict.{lookup}
use moduo_write.System.{Sys, SysLaws}
use moduo_write.System.Net.{Net, NetLaws, SockAddr, AcceptResult, accepted, not_accepted}
use moduo_write.EventLoop.{
  EventLoop, Functor, connect_established, is_in_loop_thread, push_functor, wakeup,
}
use moduo_write.ThreadPool.RoundRobin.{IsValid}
use moduo_write.Server.{Process, new_conn, new_connection}
use moduo_write.Server.Lifecycle.{Inv, new_connection-handed_over}
use moduo_write.Socket.{accept}
use moduo_write.Acceptor.{Acceptor, after_accept, handle_read}

abbrev pub with_kernel : {K : Type 0} → K → Process K → Process K
with_kernel k p = record p { kernel = k }

module _ {K : Type 0} {sys : Sys K} {laws : SysLaws sys} {net : Net K}
    (net_laws : NetLaws laws net) where
  -- A descriptor that is opened and closed again leaves no trace.
  closed_again :
      (k : K) (fd conn i : ℕ) (a : SockAddr)
      → (net.accept4 k fd).0 ≡ accepted conn a
      → net_laws.is_open (net.close (net.accept4 k fd).1 conn) i ≡ net_laws.is_open k i
  closed_again k fd conn i a e = elim (Bool-cases (conn == i)) [
    | inl here ↦
        let at : conn ≡ i = ground arith in
        ap (net_laws.is_open (net.close (net.accept4 k fd).1 conn)) (sym at)
        ∙ net_laws.close_closed (net.accept4 k fd).1 conn
        ∙ sym ((net_laws.accept_fresh k fd conn a e).0)
        ∙ ap (net_laws.is_open k) at
    | inr away ↦
        let apart : conn ≢ i = ground arith in
        net_laws.close_other (net.accept4 k fd).1 conn i apart
        ∙ net_laws.accept_other k fd conn i a e apart
  ]

  module _ {W : Type 0} (kernel : W → K) (with_kernel : K → W → W) where
    abbrev after_call : Acceptor → W → W
    after_call a w = with_kernel (net.accept4 (kernel w) a.accept_socket.sockfd).1 w

    -- Without a callback `handleRead` returns, and whatever `accept4` gave, a new descriptor or an
    -- error, the open descriptors are those from before: none leaks.
    pub handle_read-no_leak :
        ((k : K) (w : W) → kernel (with_kernel k w) ≡ k)
        → (a : Acceptor) (w : W)
        → (w' : W) × (handle_read net kernel with_kernel none a w ≡ done w')
          × ((i : ℕ) → net_laws.is_open (kernel w') i ≡ net_laws.is_open (kernel w) i)
    unfolding handle_read accept after_accept
    handle_read-no_leak put a w = go (net.accept4 (kernel w) a.accept_socket.sockfd).0 refl
      where
        go :
            (r : AcceptResult)
            → (net.accept4 (kernel w) a.accept_socket.sockfd).0 ≡ r
            → (w' : W) × (after_accept net kernel with_kernel none r (after_call a w) ≡ done w')
              × ((i : ℕ) → net_laws.is_open (kernel w') i ≡ net_laws.is_open (kernel w) i)
        go (accepted conn peer) e = (
          with_kernel (net.close (kernel (after_call a w)) conn) (after_call a w),
          refl,
          λ i.
              ap (λ k. net_laws.is_open k i)
                (put (net.close (kernel (after_call a w)) conn) (after_call a w))
              ∙ ap (λ k. net_laws.is_open (net.close k conn) i)
                  (put (net.accept4 (kernel w) a.accept_socket.sockfd).1 w)
              ∙ closed_again (kernel w) a.accept_socket.sockfd conn i peer e,
        )
        go (not_accepted errno) e = (
          after_call a w,
          refl,
          λ i.
              ap (λ k. net_laws.is_open k i)
                (put (net.accept4 (kernel w) a.accept_socket.sockfd).1 w)
              ∙ net_laws.accept_failed (kernel w) a.accept_socket.sockfd errno i e,
        )

  abbrev server_after_call : Acceptor → Process K → Process K
  server_after_call a p = with_kernel (net.accept4 p.kernel a.accept_socket.sockfd).1 p

  -- What a server knows after `handleRead`, by what `accept4` gave: a new connection on a descriptor
  -- that was not open before and is open now, handed to the next loop, or nothing.
  abbrev pub TakenBy : ℕ → EventLoop → Process K → Process K → AcceptResult → Type 0
  TakenBy address l p p' (accepted conn peer) =
      (net_laws.is_open p.kernel conn ≡ false)
      × (net_laws.is_open p'.kernel conn ≡ true)
      × (lookup p.server.next_conn_id p'.server.connections ≡ some (new_conn address conn p.server))
      × ((i : ℕ)
          → p.server.next_conn_id ≢ i
          → lookup i p'.server.connections ≡ lookup i p.server.connections)
      × (lookup (get_or p.server.thread_pool.loops p.server.thread_pool.next 0) p'.loops
          ≡ some (push_functor (connect_established address) l))
  TakenBy address l p p' (not_accepted errno) =
      (p'.server ≡ p.server)
      × (p'.loops ≡ p.loops)
      × ((i : ℕ) → net_laws.is_open p'.kernel i ≡ net_laws.is_open p.kernel i)

  -- With the `newConnection` of a server with a pool of threads as its callback, `handleRead` returns
  -- and keeps the server's invariant. A client that is accepted becomes one new connection, on a
  -- descriptor that no other had, and waits in the next loop of the pool; a failed accept changes
  -- nothing of the server. The pool is not empty, its next loop runs in another thread, and the next
  -- number of a connection fits the `int`.
  pub handle_read-TakenBy :
      (exec : Functor → Process K → Outcome (Process K)) (address : ℕ) (a : Acceptor)
      (p : Process K) (l : EventLoop)
      → Inv p.server
      → IsValid p.server.thread_pool
      → p.server.next_conn_id + 1 < 2 ^ 31
      → lookup (get_or p.server.thread_pool.loops p.server.thread_pool.next 0) p.loops ≡ some l
      → is_in_loop_thread l p.tid ≡ false
      → (p' : Process K) × (handle_read net
            (λ p. p.kernel)
            with_kernel
            (some (λ connfd peer. new_connection sys exec address connfd))
            a
            p
          ≡ done p')
        × Inv p'.server
        × TakenBy address l p p' (net.accept4 p.kernel a.accept_socket.sockfd).0
  unfolding handle_read accept after_accept wakeup
  handle_read-TakenBy exec address a p l v t bound e away =
      go (net.accept4 p.kernel a.accept_socket.sockfd).0 refl
    where
      go :
          (r : AcceptResult)
          → (net.accept4 p.kernel a.accept_socket.sockfd).0 ≡ r
          → (p' : Process K) × (after_accept net
                (λ p. p.kernel)
                with_kernel
                (some (λ connfd peer. new_connection sys exec address connfd))
                r
                (server_after_call a p)
              ≡ done p')
            × Inv p'.server
            × TakenBy address l p p' r
      go (accepted conn peer) is =
          let (p', returns, v', _, entered, others, queued, woken) =
            new_connection-handed_over sys exec address conn (server_after_call a p) l v t bound e
              away in
          let (unused, now_open) =
            net_laws.accept_fresh p.kernel a.accept_socket.sockfd conn peer is in
          (
            p',
            returns,
            v',
            (
              unused,
              ap (λ k. net_laws.is_open k conn) woken
                  ∙ net_laws.write_open (net.accept4 p.kernel a.accept_socket.sockfd).1 l.wakeup_fd
                      conn _
                  ∙ now_open,
              entered,
              others,
              queued,
            ),
          )
      go (not_accepted errno) is = (
        server_after_call a p,
        refl,
        v,
        (refl, refl, λ i. net_laws.accept_failed p.kernel a.accept_socket.sockfd errno i is),
      )
