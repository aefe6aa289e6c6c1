-- ===== src/EventLoop/Interleaving.antt =====
-- Eventloop.cc: the loop's thread and other threads, as interleaved steps.
use moduo_write.Common.{
  ℕ, ◌+◌, ◌-◌, ◌<◌, ◌≡◌, ◌≢◌, Bool, true, false, List, [], ◌∷◌, ◌++◌, if◌then◌else◌,
}
use moduo_write.EventLoop.{
  EventLoop, Functor, wakes, begin_calling, swap_pending, end_calling, push_functor, start_looping,
  stop_looping,
}

-- Where the loop's thread stands in `loop()`: at the test of `quit_`, in `poll`, handling the active
-- channels, in `doPendingFunctors` before the swap, or running the functors that are left.
pub data Phase : Type 0 where
  testing polling handling marked stopped : Phase
  running : List Functor → Phase

-- `wakeups` is the counter of the eventfd. `wakers` counts the threads that stand in `queueInLoop` or
-- `quit` between the change that they make and the `wakeup` that follows it. `queued` and `ran` record
-- the functors in the order in which they were queued and started.
pub record State : Type 0 where
  pub loop : EventLoop
  pub phase : Phase
  pub wakeups : ℕ
  pub wakers : ℕ
  pub queued : List Functor
  pub ran : List Functor

-- The wakeups that a thread owes after `queueInLoop` has released the mutex.
unfoldable pub owed : Bool → EventLoop → ℕ
owed in_loop l = if wakes in_loop l.calling_pending_functors then 1 else 0

abbrev pub push : Functor → State → State
push f s = record s { loop = push_functor f s.loop; queued = s.queued ++ f ∷ [] }

pub data Step : State → State → Type 0 where
  -- another thread queues a functor, and then writes the eventfd
  queue_from_outside :
      (s : State) (f : Functor)
      → Step s (record (push f s) { wakers = s.wakers + owed false s.loop })
  quit_from_outside :
      (s : State)
      → Step s (record s { loop = record s.loop { quit = true }; wakers = s.wakers + 1 })
  wake :
      (s : State)
      → 0 < s.wakers
      → Step s (record s { wakers = s.wakers - 1; wakeups = s.wakeups + 1 })
  -- `while (!quit_)`
  enter_poll :
      (s : State) → s.phase ≡ testing → s.loop.quit ≡ false → Step s (record s { phase = polling })
  stop :
      (s : State)
      → s.phase ≡ testing
      → s.loop.quit ≡ true
      → Step s (record s { phase = stopped; loop = stop_looping s.loop })
  -- `poll` returns, for the eventfd, another descriptor or a timeout
  poll_returns : (s : State) → s.phase ≡ polling → Step s (record s { phase = handling })
  -- `handleRead` takes the whole counter
  read_eventfd : (s : State) → s.phase ≡ handling → Step s (record s { wakeups = 0 })
  -- a callback in the loop's thread asks the loop to quit
  quit_inside :
      (s : State) → s.phase ≢ polling → Step s (record s { loop = record s.loop { quit = true } })
  -- a callback of a channel queues a functor, in the loop's thread
  queue_while_handling :
      (s : State) (f : Functor)
      → s.phase ≡ handling
      → Step s (record (push f s) { wakeups = s.wakeups + owed true s.loop })
  mark :
      (s : State)
      → s.phase ≡ handling
      → Step s (record s { phase = marked; loop = begin_calling s.loop })
  swap :
      (s : State)
      → s.phase ≡ marked
      → Step s
          (record s { phase = running (swap_pending s.loop).0; loop = (swap_pending s.loop).1 })
  run :
      (s : State) (f : Functor) (fs : List Functor)
      → s.phase ≡ running (f ∷ fs)
      → Step s (record s { phase = running fs; ran = s.ran ++ f ∷ [] })
  -- a functor queues another, in the loop's thread
  queue_while_running :
      (s : State) (f : Functor) (fs : List Functor)
      → s.phase ≡ running fs
      → Step s (record (push f s) { wakeups = s.wakeups + owed true s.loop })
  finish :
      (s : State)
      → s.phase ≡ running []
      → Step s (record s { phase = testing; loop = end_calling s.loop })

pub data Reach (s : State) : State → Type 0 where
  here : Reach s s
  next : {t u : State} → Reach s t → Step t u → Reach s u

-- `loop()` as it starts: nothing queued that was not run.
abbrev pub started : EventLoop → State
started l = record {
  loop = start_looping l;
  phase = testing;
  wakeups = 0;
  wakers = 0;
  queued = l.pending_functors;
  ran = [];
}
