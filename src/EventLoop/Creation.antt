-- ===== src/EventLoop/Creation.antt =====
-- Eventloop.cc: a loop from its constructor to its destructor.
pub mod Ownership
mod Tests
use moduo_write.Common.{
  ℕ, Bool, true, false, Option, none, some, [], Outcome, done, exited, undefined, bind,
}
use moduo_write.System.{Sys}
use moduo_write.System.Net.{Net, opened, not_opened}
use moduo_write.System.Fds.{Fds}
use moduo_write.Channel.{Channel}
use moduo_write.Channel
use moduo_write.Poller.{Poller, enable_reading, disable_all, remove_channel}
use moduo_write.Poller.Creation.{new_default_poller}
use moduo_write.Poller.Creation
use moduo_write.EventLoop.{EventLoop}
use moduo_write.CurrentThread.{tid}

-- A loop with the channel of its eventfd. Of its thread, `current` is `t_loopInThisThread` and
-- `cached_tid` is `t_cachedTid`.
pub record Built (K : Type 0) : Type 0 where
  pub loop : EventLoop
  pub wakeup_channel : Channel
  pub current : Option ℕ
  pub cached_tid : ℕ
  pub kernel : K

module _ {K : Type 0} (sys : Sys K) where
  -- The constructor's body, when the members are there. A null poller is dereferenced.
  unfoldable pub register : ℕ → Option ℕ → Option Poller → ℕ → ℕ → Channel → K → Outcome (Built K)
  register address (some other) poller id wakeup_fd c k = exited
  register address none none id wakeup_fd c k = undefined
  register address none (some p) id wakeup_fd c k = bind (enable_reading sys p c k) λ (p', c', k').
      done (record {
        loop = record {
          looping = false;
          quit = false;
          calling_pending_functors = false;
          thread_id = id;
          poller = p';
          wakeup_fd = wakeup_fd;
          pending_functors = [];
        };
        wakeup_channel = c';
        current = some address;
        cached_tid = id;
        kernel = k';
      })

  -- The destructor, with that of the poller, which is a member.
  unfoldable pub destroy : Net K → Built K → Outcome (Built K)
  destroy net b = bind (disable_all sys b.loop.poller b.wakeup_channel b.kernel) λ (p₁, c₁, k₁).
      bind (remove_channel sys p₁ c₁ k₁) λ (p₂, c₂, k₂).
        let k₃ = net.close k₂ b.loop.wakeup_fd in
        done (record b {
          loop = record b.loop { poller = p₂ };
          wakeup_channel = c₂;
          current = none;
          kernel = Creation.destroy net p₂ k₃;
        })

module _ {K : Type 0} (fds : Fds K) where
  unfoldable pub create_eventfd : K → Outcome (ℕ × K)
  create_eventfd k =
      let (r, k') = fds.eventfd k in
      elim r [ opened evtfd ↦ done (evtfd, k') | not_opened errno ↦ exited ]

  -- The result is at most logged.
  unfoldable pub handle_read : EventLoop → K → K
  handle_read l k = (fds.read k l.wakeup_fd 8).1

  module _ (sys : Sys K) where
    -- The constructor of the loop at `address`, with its channel at `channel_address`, in a thread
    -- with the number `gettid`.
    unfoldable pub new : Bool → ℕ → ℕ → ℕ → ℕ → Option ℕ → K → Outcome (Built K)
    new use_poll gettid address channel_address cached current k =
        let (id, cached') = tid gettid cached in
        bind (new_default_poller fds use_poll k) λ (poller, k₁).
          bind (create_eventfd k₁) λ (evtfd, k₂).
            register sys address current poller id evtfd (Channel.new channel_address evtfd) k₂
