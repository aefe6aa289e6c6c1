-- ===== src/Socket.antt =====
-- Socket.h and Socket.cc: a descriptor that is closed with its object. `shutdownWrite` stands with the
-- connection, its one caller.
use moduo_write.Common.{ℕ, Bool, if◌then◌else◌, Outcome, done, exited}
use moduo_write.System.Net.{
  Net, SockAddr, AcceptResult, tcp_nodelay, so_reuseaddr, so_reuseport, so_keepalive,
}

-- `class Socket`.
pub record Socket : Type 0 where
  pub sockfd : ℕ

abbrev pub backlog : ℕ
backlog = 1024

-- `on ? 1 : 0`
abbrev pub optval : Bool → ℕ
optval on = if on then 1 else 0

module _ {K : Type 0} (net : Net K) where
  -- A failure ends the process.
  unfoldable pub bind_address : Socket → SockAddr → K → Outcome K
  bind_address s a k =
      let (success, k') = net.bind k s.sockfd a in if success then done k' else exited

  unfoldable pub listen : Socket → K → Outcome K
  listen s k =
      let (success, k') = net.listen k s.sockfd backlog in if success then done k' else exited

  -- The peer's address is set where `accept4` succeeds, and then alone looked at.
  unfoldable pub accept : Socket → K → AcceptResult × K
  accept s k = net.accept4 k s.sockfd

  unfoldable pub set_tcp_no_delay : Socket → Bool → K → K
  set_tcp_no_delay s on k = net.setsockopt k s.sockfd tcp_nodelay (optval on)

  unfoldable pub set_reuse_addr : Socket → Bool → K → K
  set_reuse_addr s on k = net.setsockopt k s.sockfd so_reuseaddr (optval on)

  unfoldable pub set_reuse_port : Socket → Bool → K → K
  set_reuse_port s on k = net.setsockopt k s.sockfd so_reuseport (optval on)

  unfoldable pub set_keep_alive : Socket → Bool → K → K
  set_keep_alive s on k = net.setsockopt k s.sockfd so_keepalive (optval on)

  -- The destructor.
  unfoldable pub destroy : Socket → K → K
  destroy s k = net.close k s.sockfd
