-- ===== src/EventLoop.antt =====
-- Eventloop.h and Eventloop.cc: the loop of one thread, with the callbacks that wait to be run in it.
pub mod Interleaving
pub mod Refining
pub mod Wakeup
pub mod Creation
pub mod Ending
mod Tests
use moduo_write.Common.{
  zero, suc, false, Option, none, some, Outcome, done, exited, bad_call, undefined, bind,
}
use moduo_write.Common.{ℕ, Bool, true, ◌||◌, not, List, [], ◌∷◌, ◌++◌, ◌==◌, if◌then◌else◌}
use moduo_write.System.{Sys}
use moduo_write.Poller.{Poller, Channels, poll}

-- The closures that the library hands to `runInLoop` and `queueInLoop`. A connection is named by its
-- address, and the argument of `sendInLoop` is a pointer with a length.
pub data Functor : Type 0 where
  write_complete : ℕ → Functor
  high_water_mark : ℕ → ℕ → Functor
  send_in_loop : ℕ → ℕ → ℕ → Functor
  shutdown_in_loop : ℕ → Functor
  connect_established : ℕ → Functor
  connect_destroyed : ℕ → Functor
  remove_connection_in_loop : ℕ → Functor
  listen : Functor
  user : ℕ → Functor

-- `class EventLoop`, less the channels that the last poll reported.
pub record EventLoop : Type 0 where
  pub looping : Bool
  pub quit : Bool
  pub calling_pending_functors : Bool
  pub thread_id : ℕ
  pub poller : Poller
  pub wakeup_fd : ℕ
  pub pending_functors : List Functor

-- `threadId_ == CurrentThread::tid()`; `tid` is the running thread.
abbrev pub is_in_loop_thread : EventLoop → ℕ → Bool
is_in_loop_thread l tid = l.thread_id == tid

-- `uint64_t one = 1` in memory.
abbrev pub one_bytes : List ℕ
one_bytes = 1 ∷ 0 ∷ 0 ∷ 0 ∷ 0 ∷ 0 ∷ 0 ∷ 0 ∷ []

-- When `queueInLoop` wakes the loop: `!isInLoopThread() || callingPendingFuntors_`.
unfoldable pub wakes : Bool → Bool → Bool
wakes in_loop calling = not in_loop || calling

-- What `doPendingFunctors` does around the callbacks: mark, swap, and clear the mark.
unfoldable pub begin_calling : EventLoop → EventLoop
begin_calling l = record l { calling_pending_functors = true }

unfoldable pub swap_pending : EventLoop → List Functor × EventLoop
swap_pending l = (l.pending_functors, record l { pending_functors = [] })

unfoldable pub end_calling : EventLoop → EventLoop
end_calling l = record l { calling_pending_functors = false }

-- The two atomic flags as `loop()` sets them when it starts and when it ends.
unfoldable pub start_looping : EventLoop → EventLoop
start_looping l = record l { looping = true; quit = false }

unfoldable pub stop_looping : EventLoop → EventLoop
stop_looping l = record l { looping = false }

unfoldable pub push_functor : Functor → EventLoop → EventLoop
push_functor cb l = record l { pending_functors = l.pending_functors ++ cb ∷ [] }

module _ {K : Type 0} (sys : Sys K) where
  -- A short or failed write is only logged.
  unfoldable pub wakeup : EventLoop → K → K
  wakeup l k = (sys.write k l.wakeup_fd one_bytes).1

  pub quit_loop : ℕ → EventLoop → K → EventLoop × K
  quit_loop tid l k =
      (record l { quit = true }, if not (is_in_loop_thread l tid) then wakeup l k else k)

  unfoldable pub queue_in_loop : ℕ → Functor → EventLoop → K → EventLoop × K
  queue_in_loop tid cb l k = (
    push_functor cb l,
    if wakes (is_in_loop_thread l tid) l.calling_pending_functors then wakeup l k else k,
  )

-- A loop with the kernel, where its callbacks run.
pub record Thread (K : Type 0) : Type 0 where
  pub loop : EventLoop
  pub kernel : K

abbrev pub poll_time_ms : ℕ
poll_time_ms = 10000

-- What a turn does before the functors. `channels` are the channels of the process, and `handle_event`
-- that of the channel at an address.
module _ {K : Type 0} (sys : Sys K) (channels : K → Channels) (with_channels : Channels → K → K)
    (handle_event : ℕ → Thread K → Outcome (Thread K)) where
  unfoldable pub handle_active : List ℕ → Thread K → Outcome (Thread K)
  handle_active [] t = done t
  handle_active (c ∷ cs) t = bind (handle_event c t) λ t'. handle_active cs t'

  unfoldable pub poll_and_handle : Thread K → Outcome (Thread K)
  poll_and_handle t =
      bind (poll sys t.loop.poller poll_time_ms (channels t.kernel) [] t.kernel)
        λ (p, store, active, k).
          handle_active active
            (record { loop = record t.loop { poller = p }; kernel = with_channels store k })

module _ {K : Type 0} (exec : Functor → Thread K → Outcome (Thread K)) where
  -- `for (const Functor& functor : functors) functor();`
  unfoldable pub run_functors : List Functor → Thread K → Outcome (Thread K)
  run_functors [] t = done t
  run_functors (f ∷ fs) t = bind (exec f t) λ t'. run_functors fs t'

  unfoldable pub do_pending_functors : Thread K → Outcome (Thread K)
  do_pending_functors t =
      let (functors, l) = swap_pending (begin_calling t.loop) in
      bind (run_functors functors (record t { loop = l }))
        λ t'. done (record t' { loop = end_calling t'.loop })

  -- The loop goes on after a turn that returns.
  unfoldable pub after_turn :
      (Thread K → Option (Outcome (Thread K))) → Outcome (Thread K) → Option (Outcome (Thread K))
  after_turn again (done t) = again t
  after_turn again exited = some exited
  after_turn again bad_call = some bad_call
  after_turn again undefined = some undefined

  -- The loop runs on fuel: `none` where it is still running when the fuel is used up. `turn` is the
  -- poll and the handling of the channels that it reports, as `poll_and_handle` does them.
  unfoldable pub loop_turns :
      (Thread K → Outcome (Thread K)) → ℕ → Thread K → Option (Outcome (Thread K))
  loop_turns turn zero t = none
  loop_turns turn (suc n) t = elim t.loop.quit [
    | true ↦ some (done (record t { loop = stop_looping t.loop }))
    | false ↦ after_turn (loop_turns turn n) (bind (turn t) do_pending_functors)
  ]

  -- `loop()`.
  unfoldable pub run_loop :
      (Thread K → Outcome (Thread K)) → ℕ → Thread K → Option (Outcome (Thread K))
  run_loop turn n t = loop_turns turn n (record t { loop = start_looping t.loop })
