-- ===== src/System/Fds.antt =====
-- The calls that make the descriptors of a loop, as parameters.
use moduo_write.Common.{ℕ, ◌≡◌, none}
use moduo_write.System.{Sys, SysLaws, ReadResult}
use moduo_write.System.Net.{SocketResult, opened}

pub record Fds (K : Type 0) : Type 0 where
  -- `epoll_create1(EPOLL_CLOEXEC)` and `eventfd(0, EFD_NONBLOCK | EFD_CLOEXEC)`
  pub epoll_create1 : K → SocketResult × K
  pub eventfd : K → SocketResult × K
  -- `read(fd, buf, n)`
  pub read : K → ℕ → ℕ → ReadResult × K

pub record FdsLaws {K : Type 0} {sys : Sys K} (laws : SysLaws sys) (fds : Fds K) : Type 0 where
  -- a new epoll instance has no entries, and eventfd enters nothing
  pub epoll_fresh :
      (k : K) (e i : ℕ)
      → (fds.epoll_create1 k).0 ≡ opened e
      → laws.interest (fds.epoll_create1 k).1 e i ≡ none
  pub eventfd_interest :
      (k : K) (e i : ℕ) → laws.interest (fds.eventfd k).1 e i ≡ laws.interest k e i
