-- ===== src/EventLoop/Tests.antt =====
-- The theorems on the loop's callbacks at concrete runs.
use moduo_write.Common.{true, ◌∷◌, Outcome, done, ◌+◌, ◌≡◌, refl, false, [], ◌++◌}
use moduo_write.Common.{subst, done-injective}
use moduo_write.System.Toy.{Toy, fresh, toy}
use moduo_write.EventLoop.{loop_turns, after_turn, queue_in_loop}
use moduo_write.EventLoop.Interleaving.{stopped}
use moduo_write.EventLoop.Refining.{
  works, Notes, Noted, Same, Calls, nothing, queues, quits, after_queueing,
}
use moduo_write.EventLoop.Refining.Loop.{run_loop-in_order}
use moduo_write.EventLoop.{
  EventLoop, Functor, Thread, run_functors, do_pending_functors, run_loop, stop_looping,
  end_calling, user, wakes, push_functor, begin_calling, swap_pending, start_looping,
}
use moduo_write.EventLoop.Interleaving.{
  State, polling, handling, marked, running, owed, push, Reach, started,
}
use moduo_write.System.Part.{KernelWith, sys_with}
use moduo_write.Common.{List, sym, append-nil}

abbrev idle : EventLoop
idle = record {
  looping = false;
  quit = false;
  calling_pending_functors = false;
  thread_id = 9;
  poller = record { epollfd = 3; channels = []; capacity = 16 };
  wakeup_fd = 4;
  pending_functors = [];
}

abbrev in_poll : State
in_poll = record (started idle) { phase = polling }

-- Another thread has queued a functor and has not written the eventfd yet.
abbrev waiting : State
waiting = record (push (user 1) in_poll) { wakers = in_poll.wakers + owed false in_poll.loop }

abbrev handled : State
handled = record waiting { phase = handling }

abbrev marked_state : State
marked_state = record handled { phase = marked; loop = begin_calling handled.loop }

-- The functor has been swapped out, and another thread queues the next one.
abbrev swapped : State
swapped = record marked_state {
  phase = running (swap_pending marked_state.loop).0;
  loop = (swap_pending marked_state.loop).1;
}

abbrev crossed : State
crossed = record (push (user 2) swapped) { wakers = swapped.wakers + owed false swapped.loop }

-- A loop in which every functor is noted and asks it to quit, and which was asked to quit before.
abbrev asks : Functor → Thread (List Functor) → Outcome (Thread (List Functor))
asks f t = done (record { loop = record t.loop { quit = true }; kernel = t.kernel ++ f ∷ [] })

abbrev to_quit : Thread (List Functor)
to_quit = record {
  loop = record idle { quit = true; pending_functors = user 2 ∷ user 1 ∷ [] };
  kernel = [];
}

-- A loop in which a channel's callback queues a functor, and the functor asks the loop to quit.
record Log : Type 0 where
  ran : List Functor
  queued : List Functor

abbrev logs : Notes (sys_with {A = Log} toy)
logs = record { ran_of = λ k. k.rest.ran; queued_of = λ k. k.rest.queued }

abbrev begun : Thread (KernelWith Toy Log)
begun = record {
  loop = idle;
  kernel = record { kernel = fresh 2; rest = record { ran = []; queued = [] } };
}

abbrev note : Log → Thread (KernelWith Toy Log) → Thread (KernelWith Toy Log)
note log t = record { loop = t.loop; kernel = record t.kernel { rest = log } }

abbrev queues_one : Thread (KernelWith Toy Log) → Outcome (Thread (KernelWith Toy Log))
queues_one t = done (
    note (record t.kernel.rest { queued = t.kernel.rest.queued ++ user 1 ∷ [] })
      (after_queueing (sys_with toy) (user 1) t))

abbrev stops_it : Functor → Thread (KernelWith Toy Log) → Outcome (Thread (KernelWith Toy Log))
stops_it f t = done (
    note (record t.kernel.rest { ran = t.kernel.rest.ran ++ f ∷ [] })
      (record t { loop = record t.loop { quit = true } }))

abbrev ended : Thread (KernelWith Toy Log)
ended = record {
  loop = record idle { quit = true };
  kernel = record { kernel = fresh 2; rest = record { ran = user 1 ∷ []; queued = user 1 ∷ [] } };
}

stops_it-Calls :
    (f : Functor) (t t' : Thread (KernelWith Toy Log))
    → stops_it f t ≡ done t'
    → (fs : List Functor) × Calls (sys_with toy) t fs t'
      × Noted (sys_with toy) logs (f ∷ []) fs t t'
stops_it-Calls f t t' e =
    subst
      (λ u.
        (fs : List Functor) × Calls (sys_with toy) t fs u
        × Noted (sys_with toy) logs (f ∷ []) fs t u)
      (done-injective e)
      (
        [],
        works [] (record t { loop = record t.loop { quit = true } }) t.loop.poller _
            (quits [] t nothing),
        record { ran = refl; queued = sym (append-nil t.kernel.rest.queued) },
      )

queues_one-Calls :
    (t t' : Thread (KernelWith Toy Log))
    → queues_one t ≡ done t'
    → (fs : List Functor) × Calls (sys_with toy) t fs t' × Noted (sys_with toy) logs [] fs t t'
queues_one-Calls t t' e =
    subst
      (λ u. (fs : List Functor) × Calls (sys_with toy) t fs u × Noted (sys_with toy) logs [] fs t u)
      (done-injective e)
      (
        user 1 ∷ [],
        works (user 1 ∷ []) (after_queueing (sys_with toy) (user 1) t) _ _
            (queues [] t (user 1) nothing),
        record { ran = sym (append-nil t.kernel.rest.ran); queued = refl },
      )

run_loop-in_order_example :
    (s : State) × Reach (started idle) s
    × (s.phase ≡ stopped)
    × Same s.loop ended.loop
    × (user 1 ∷ [] ≡ [] ++ s.ran)
    × (user 1 ∷ [] ≡ [] ++ (s.ran ++ []))
unfolding run_loop loop_turns after_turn do_pending_functors run_functors start_looping stop_looping
    begin_calling swap_pending end_calling queue_in_loop push_functor wakes
run_loop-in_order_example =
    run_loop-in_order (sys_with toy) stops_it queues_one logs stops_it-Calls queues_one-Calls 2
      begun ended refl refl refl
