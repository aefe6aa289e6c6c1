-- ===== src/Acceptor.antt =====
-- Acceptor.h and Acceptor.cc: the listening socket of a server, with its channel.
pub mod Accepting
pub mod Listening
mod Tests
use moduo_write.Common.{ℕ, Bool, true, false, Option, none, some, Outcome, done, exited, bind}
use moduo_write.System.{Sys}
use moduo_write.System.Net.{
  Net, SockAddr, SocketResult, opened, not_opened, AcceptResult, accepted, not_accepted,
}
use moduo_write.Socket.{Socket, bind_address, accept, set_reuse_addr, set_reuse_port}
use moduo_write.Socket
use moduo_write.Channel.{Channel}
use moduo_write.Channel
use moduo_write.Poller.{Poller, enable_reading, disable_all, remove_channel}

-- `class Acceptor`, less its loop and the callback, which `handle_read` takes.
pub record Acceptor : Type 0 where
  pub accept_socket : Socket
  pub accept_channel : Channel
  pub listenning : Bool

module _ {K : Type 0} (net : Net K) where
  -- A failure ends the process.
  unfoldable pub create_nonblocking_socket : K → Outcome (ℕ × K)
  create_nonblocking_socket k =
      let (r, k') = net.socket k in
      elim r [ opened sockfd ↦ done (sockfd, k') | not_opened errno ↦ exited ]

  -- The constructor, where the channel is a member at `channel_address`.
  unfoldable pub new : ℕ → SockAddr → Bool → K → Outcome (Acceptor × K)
  new channel_address listen_addr reuseport k = bind (create_nonblocking_socket k) λ (sockfd, k₁).
      let s : Socket = record { sockfd = sockfd } in
      let k₂ = set_reuse_port net s reuseport (set_reuse_addr net s true k₁) in
      bind (bind_address net s listen_addr k₂) λ k₃. done (
        record {
          accept_socket = s;
          accept_channel = Channel.new channel_address sockfd;
          listenning = false;
        },
        k₃,
      )

  module _ (sys : Sys K) where
    unfoldable pub listen : Poller → Acceptor → K → Outcome (Poller × Acceptor × K)
    listen p a k = bind (Socket.listen net a.accept_socket k) λ k₁.
        bind (enable_reading sys p a.accept_channel k₁)
          λ (p', c, k₂). done (p', record a { accept_channel = c; listenning = true }, k₂)

    -- The destructor, with that of the socket.
    unfoldable pub destroy : Poller → Acceptor → K → Outcome (Poller × Acceptor × K)
    destroy p a k = bind (disable_all sys p a.accept_channel k) λ (p₁, c₁, k₁).
        bind (remove_channel sys p₁ c₁ k₁) λ (p₂, c₂, k₂).
          done (p₂, record a { accept_channel = c₂ }, Socket.destroy net a.accept_socket k₂)

  -- On any state `W` of which the kernel is a part.
  module _ {W : Type 0} (kernel : W → K) (with_kernel : K → W → W) where
    -- After `accept`, by its result. Without a callback the descriptor is closed; an error is only
    -- logged.
    unfoldable pub after_accept :
        Option (ℕ → SockAddr → W → Outcome W) → AcceptResult → W → Outcome W
    after_accept (some new_connection_callback) (accepted connfd peeraddr) w =
        new_connection_callback connfd peeraddr w
    after_accept none (accepted connfd peeraddr) w =
        done (with_kernel (net.close (kernel w) connfd) w)
    after_accept callback (not_accepted errno) w = done w

    unfoldable pub handle_read : Option (ℕ → SockAddr → W → Outcome W) → Acceptor → W → Outcome W
    handle_read callback a w =
        let (r, k) = accept net a.accept_socket (kernel w) in
        after_accept callback r (with_kernel k w)
