-- ===== src/System/Net.antt =====
-- The socket calls of `Socket` and `Acceptor`, as parameters: what they return, and what the manual
-- pages say that they do to the open descriptors.
use moduo_write.Common.{ℕ, ◌≡◌, ◌≢◌, Bool, true, false, none, List}
use moduo_write.System.{Sys, SysLaws}

-- `sockaddr_in`: the family, and the port and the address in network byte order.
pub record SockAddr : Type 0 where
  pub sin_family : ℕ
  pub sin_port : ℕ
  pub sin_addr : ℕ

-- A call that returns a descriptor, or -1 with `errno`.
pub data SocketResult : Type 0 where
  opened : ℕ → SocketResult
  not_opened : ℕ → SocketResult

-- `accept4`: the descriptor with the peer's address, or -1 with `errno`.
pub data AcceptResult : Type 0 where
  accepted : ℕ → SockAddr → AcceptResult
  not_accepted : ℕ → AcceptResult

pub data SocketOption : Type 0 where
  tcp_nodelay so_reuseaddr so_reuseport so_keepalive : SocketOption

pub record Net (K : Type 0) : Type 0 where
  -- `socket(AF_INET, SOCK_STREAM | SOCK_NONBLOCK | SOCK_CLOEXEC, IPPROTO_TCP)`
  pub socket : K → SocketResult × K
  -- `bind(fd, addr, …)` and `listen(fd, backlog)`; true is the result 0
  pub bind : K → ℕ → SockAddr → Bool × K
  pub listen : K → ℕ → ℕ → Bool × K
  -- `accept4(fd, …, SOCK_CLOEXEC | SOCK_NONBLOCK)`
  pub accept4 : K → ℕ → AcceptResult × K
  -- `setsockopt(fd, …, option, …)`, whose result is never looked at
  pub setsockopt : K → ℕ → SocketOption → ℕ → K
  pub close : K → ℕ → K

-- `is_open` tells which descriptors are open.
pub record NetLaws {K : Type 0} {sys : Sys K} (laws : SysLaws sys) (net : Net K) : Type 0 where
  pub is_open : K → ℕ → Bool
  -- accept4 opens one new descriptor, or none
  pub accept_fresh :
      (k : K) (fd conn : ℕ) (a : SockAddr)
      → (net.accept4 k fd).0 ≡ accepted conn a
      → (is_open k conn ≡ false) × (is_open (net.accept4 k fd).1 conn ≡ true)
  pub accept_other :
      (k : K) (fd conn i : ℕ) (a : SockAddr)
      → (net.accept4 k fd).0 ≡ accepted conn a
      → conn ≢ i
      → is_open (net.accept4 k fd).1 i ≡ is_open k i
  pub accept_failed :
      (k : K) (fd e i : ℕ)
      → (net.accept4 k fd).0 ≡ not_accepted e
      → is_open (net.accept4 k fd).1 i ≡ is_open k i
  pub close_closed : (k : K) (fd : ℕ) → is_open (net.close k fd) fd ≡ false
  pub close_other : (k : K) (fd i : ℕ) → fd ≢ i → is_open (net.close k fd) i ≡ is_open k i
  -- close adds no descriptor to an interest list; listen and the options change none
  pub close_interest :
      (k : K) (fd e i : ℕ) → laws.interest k e i ≡ none → laws.interest (net.close k fd) e i ≡ none
  pub listen_interest :
      (k : K) (fd backlog e i : ℕ)
      → laws.interest (net.listen k fd backlog).1 e i ≡ laws.interest k e i
  -- write opens and closes no descriptor
  pub write_open :
      (k : K) (fd i : ℕ) (bytes : List ℕ) → is_open (sys.write k fd bytes).1 i ≡ is_open k i
