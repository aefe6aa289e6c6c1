-- ===== src/LoopThread/Tests.antt =====
-- The theorems on the loop's thread at concrete runs.
use moduo_write.Common.{ℕ, ◌≡◌, ◌≢◌, refl, ◌⊎◌, true, false, none, some, [], arith}
use moduo_write.Thread.{Thread, set_started, set_tid}
use moduo_write.LoopThread.{
  sleeping, woken, joining, gone, returned, constructing, starting, looping, closing, finished,
  State, notified, start, sem_wait, lock, relock, wait, take_loop, store_tid, post, construct,
  call_back, publish, notify, begin_looping, quit_inside, end_looping, clear, Reach, here, next,
  new,
}
use moduo_write.LoopThread.Invariant.{start_loop-own}
use moduo_write.LoopThread.Starting.{Run, start_loop-returns}
use moduo_write.LoopThread.Ending.{start_loop-too_late, quit-lost}

abbrev thread : Thread
thread = record { started = false; joined = false; tid = 0; name = [] }

-- The owner sleeps before the loop is there.
abbrev asleep : State
asleep = record {
  thread = record { started = true; joined = false; tid = 7; name = [] };
  loop = none;
  exiting = false;
  has_mutex = false;
  sem = 0;
  owner = sleeping;
  worker = constructing;
  alive = false;
  initialised = false;
  quit = false;
  asked = false;
}

asleep-Reach : Reach 90 7 (new thread) asleep
unfolding new set_started set_tid
asleep-Reach =
    next
      (next
        (next (next (next (next here (start _ refl)) (store_tid _ refl)) (post _ refl))
          (sem_wait _ refl (omega arith)))
        (lock _ refl refl))
      (wait _ refl refl)

start_loop-returns_example : (u : State) × Run 90 7 asleep u × (u.owner ≡ returned 90)
start_loop-returns_example = start_loop-returns 90 7 thread asleep refl refl asleep-Reach refl refl

-- It has the loop, which has not begun.
abbrev has_loop : State
has_loop = record asleep {
  loop = some 90;
  owner = returned 90;
  worker = starting;
  alive = true;
  initialised = true;
}

has_loop-Reach : Reach 90 7 (new thread) has_loop
unfolding notified
has_loop-Reach =
    next
      (next
        (next
          (next (next (next asleep-Reach (construct _ refl)) (call_back _ refl))
            (publish _ refl refl))
          (notify _ refl))
        (relock _ refl refl))
      (take_loop _ 90 refl refl)

start_loop-own_example :
    (◌≡◌ {A = ℕ} 90 90)
    × (has_loop.thread.started ≡ true)
    × (has_loop.thread.tid ≡ 7)
    × (has_loop.initialised ≡ true)
    × ((m : ℕ) → has_loop.loop ≡ some m → (m ≡ 90) × (has_loop.alive ≡ true))
start_loop-own_example = start_loop-own 90 7 thread has_loop 90 refl refl has_loop-Reach refl

-- The destructor's `quit` before `loop()`.
abbrev too_early : State
too_early = record has_loop {
  thread = record { started = true; joined = true; tid = 7; name = [] };
  exiting = true;
  owner = joining;
  quit = true;
}

abbrev stays : State
stays = record too_early { worker = looping; quit = false }

quit-lost_example : (stays.asked ≡ true) ⊎ (stays.owner ≡ joining)
quit-lost_example = quit-lost 90 7 too_early stays refl refl (next here (begin_looping _ refl))

-- A callback has ended the loop while the owner slept and was woken.
abbrev over : State
over = record asleep {
  owner = woken;
  worker = closing;
  alive = true;
  initialised = true;
  quit = true;
  asked = true;
}

over-Reach : Reach 90 7 (new thread) over
unfolding notified
over-Reach =
    next
      (next
        (next
          (next
            (next
              (next (next (next asleep-Reach (construct _ refl)) (call_back _ refl))
                (publish _ refl refl))
              (notify _ refl))
            (begin_looping _ refl))
          (quit_inside _ refl))
        (end_looping _ refl refl))
      (clear _ refl refl)

start_loop-too_late_example : over.owner ≢ returned 90
start_loop-too_late_example =
    start_loop-too_late 90 7 thread over over 90 refl refl over-Reach refl refl here

abbrev through : State
through = record too_early {
  loop = none;
  owner = gone;
  worker = finished;
  alive = false;
  asked = true;
}
