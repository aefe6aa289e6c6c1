-- ===== src/Poller/Creation.antt =====
-- EPOLLPoller.cc and DefaultPoller.cc: the poller of a new loop.
use moduo_write.Common.{Bool, Option, none, some, if◌then◌else◌, Outcome, done, exited, bind}
use moduo_write.System.Net.{Net, opened, not_opened}
use moduo_write.System.Fds.{Fds}
use moduo_write.Poller.{Poller, new}

module _ {K : Type 0} (fds : Fds K) where
  -- The constructor with its system call, whose failure ends the process.
  unfoldable pub create : K → Outcome (Poller × K)
  create k =
      let (r, k') = fds.epoll_create1 k in
      elim r [ opened epollfd ↦ done (new epollfd, k') | not_opened errno ↦ exited ]

  -- `none` is the null pointer; `use_poll` tells whether MUDUO_USE_POLL is set.
  unfoldable pub new_default_poller : Bool → K → Outcome (Option Poller × K)
  new_default_poller use_poll k =
      if use_poll then done (none, k) else (bind (create k) λ (p, k'). done (some p, k'))

-- The destructor.
unfoldable pub destroy : {K : Type 0} → Net K → Poller → K → K
destroy net p k = net.close k p.epollfd
