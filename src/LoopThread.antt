-- ===== src/LoopThread.antt =====
-- EventLoopThread.h and EventLoopThread.cc, with `start` and `join` of Thread.cc: the owner of the
-- object and the thread that it starts, as interleaved steps.
pub mod Invariant
pub mod Starting
pub mod Ending
mod Tests
use moduo_write.Common.{ℕ, ◌+◌, ◌-◌, ◌<◌, ◌≡◌, ◌≢◌, Bool, true, false, Option, none, some}
use moduo_write.Thread.{Thread, set_started, set_joined, set_tid}

-- Where the owner stands. In `startLoop`: before it, in `sem_wait` of `start`, before the mutex, at the
-- test of `loop_` with the mutex, in `cond_.wait`, and woken there; then it has the loop. In the
-- destructor: before `loop_->quit()`, in `join`, and through. It is broken where it calls `quit` on a
-- loop that is gone, which C++ leaves undefined.
pub data Owner : Type 0 where
  idle waiting locking checking sleeping woken quitting joining gone broken : Owner
  returned : ℕ → Owner

-- Where the new thread stands: not there yet, before each of the actions of its function, in
-- `loop()`, and through.
pub data Worker : Type 0 where
  absent entered posting constructing calling_back publishing notifying starting looping : Worker
  clearing closing finished : Worker

-- `has_mutex` tells whether a thread holds `mutex_`, and `sem` is the semaphore of `start`. Of the
-- loop, which is an object on the thread's stack, `alive` tells whether it exists and `quit` is
-- `quit_`; `initialised` tells whether `callback_` has run, and `asked` whether a callback in the loop
-- has called `quit`.
pub record State : Type 0 where
  pub thread : Thread
  pub loop : Option ℕ
  pub exiting : Bool
  pub has_mutex : Bool
  pub sem : ℕ
  pub owner : Owner
  pub worker : Worker
  pub alive : Bool
  pub initialised : Bool
  pub quit : Bool
  pub asked : Bool

-- `cond_.notify_one()`.
unfoldable pub notified : Owner → Owner
notified sleeping = woken
notified idle = idle
notified waiting = waiting
notified locking = locking
notified checking = checking
notified woken = woken
notified quitting = quitting
notified joining = joining
notified gone = gone
notified broken = broken
notified (returned l) = returned l

-- `own` is the address of the thread's loop, and `tid` its number.
pub data Step (own tid : ℕ) : State → State → Type 0 where
  -- `thread_.start()`
  start :
      (s : State)
      → s.owner ≡ idle
      → Step own tid s
          (record s { thread = set_started s.thread; sem = 0; owner = waiting; worker = entered })
  sem_wait :
      (s : State)
      → s.owner ≡ waiting
      → 0 < s.sem
      → Step own tid s (record s { sem = s.sem - 1; owner = locking })
  -- the constructor of `lock`, and the end of a wait
  lock :
      (s : State)
      → s.owner ≡ locking
      → s.has_mutex ≡ false
      → Step own tid s (record s { has_mutex = true; owner = checking })
  relock :
      (s : State)
      → s.owner ≡ woken
      → s.has_mutex ≡ false
      → Step own tid s (record s { has_mutex = true; owner = checking })
  -- `loop_ == nullptr`: the wait gives the mutex back
  wait :
      (s : State)
      → s.owner ≡ checking
      → s.loop ≡ none
      → Step own tid s (record s { has_mutex = false; owner = sleeping })
  wake_spuriously : (s : State) → s.owner ≡ sleeping → Step own tid s (record s { owner = woken })
  -- `loop = loop_`, and the return
  take_loop :
      (s : State) (l : ℕ)
      → s.owner ≡ checking
      → s.loop ≡ some l
      → Step own tid s (record s { has_mutex = false; owner = returned l })
  -- the destructor, whose test reads `loop_` without the mutex
  destroy :
      (s : State) (l m : ℕ)
      → s.owner ≡ returned l
      → s.loop ≡ some m
      → Step own tid s (record s { exiting = true; owner = quitting })
  destroy_null :
      (s : State) (l : ℕ)
      → s.owner ≡ returned l
      → s.loop ≡ none
      → Step own tid s (record s { exiting = true; owner = gone })
  -- `loop_->quit()`, which reads `loop_` again, and `join` up to its wait
  call_quit :
      (s : State) (l : ℕ)
      → s.owner ≡ quitting
      → s.loop ≡ some l
      → s.alive ≡ true
      → Step own tid s (record s { quit = true; thread = set_joined s.thread; owner = joining })
  -- the loop has ended since the test: a null pointer, or an object that is gone
  call_quit_null :
      (s : State)
      → s.owner ≡ quitting
      → s.loop ≡ none
      → Step own tid s (record s { owner = broken })
  call_quit_dangling :
      (s : State) (l : ℕ)
      → s.owner ≡ quitting
      → s.loop ≡ some l
      → s.alive ≡ false
      → Step own tid s (record s { owner = broken })
  join :
      (s : State)
      → s.owner ≡ joining
      → s.worker ≡ finished
      → Step own tid s (record s { owner = gone })
  -- the new thread, up to `func_()`
  store_tid :
      (s : State)
      → s.worker ≡ entered
      → Step own tid s (record s { thread = set_tid tid s.thread; worker = posting })
  post :
      (s : State)
      → s.worker ≡ posting
      → Step own tid s (record s { sem = s.sem + 1; worker = constructing })
  -- `threadFunc`
  construct :
      (s : State)
      → s.worker ≡ constructing
      → Step own tid s (record s { alive = true; quit = false; worker = calling_back })
  call_back :
      (s : State)
      → s.worker ≡ calling_back
      → Step own tid s (record s { initialised = true; worker = publishing })
  publish :
      (s : State)
      → s.worker ≡ publishing
      → s.has_mutex ≡ false
      → Step own tid s (record s { has_mutex = true; loop = some own; worker = notifying })
  notify :
      (s : State)
      → s.worker ≡ notifying
      → Step own tid s (record s { has_mutex = false; owner = notified s.owner; worker = starting })
  -- `loop()` begins with `quit_ = false`
  begin_looping :
      (s : State)
      → s.worker ≡ starting
      → Step own tid s (record s { quit = false; worker = looping })
  -- a callback in the loop
  quit_inside :
      (s : State) → s.worker ≡ looping → Step own tid s (record s { quit = true; asked = true })
  end_looping :
      (s : State)
      → s.worker ≡ looping
      → s.quit ≡ true
      → Step own tid s (record s { worker = clearing })
  -- `loop_ = nullptr`, with the mutex
  clear :
      (s : State)
      → s.worker ≡ clearing
      → s.has_mutex ≡ false
      → Step own tid s (record s { loop = none; worker = closing })
  -- the destructor of the loop, at the end of the function
  close :
      (s : State)
      → s.worker ≡ closing
      → Step own tid s (record s { alive = false; worker = finished })

pub data Reach (own tid : ℕ) (s : State) : State → Type 0 where
  here : Reach own tid s s
  next : {t u : State} → Reach own tid s t → Step own tid t u → Reach own tid s u

-- The constructor.
unfoldable pub new : Thread → State
new thread = record {
  thread = thread;
  loop = none;
  exiting = false;
  has_mutex = false;
  sem = 0;
  owner = idle;
  worker = absent;
  alive = false;
  initialised = false;
  quit = false;
  asked = false;
}
