-- ===== src/LoopThread/Ending.antt =====
-- EventLoopThread.cc: the end of the loop, and what it means for `startLoop` and the destructor.
use moduo_write.Common.{ℕ, ◌≡◌, ◌≢◌, refl, ◌⊎◌, inl, inr, Bool, true, false, not, none, arith}
use moduo_write.Thread.{Thread}
use moduo_write.LoopThread.{
  Owner, idle, joining, returned, Worker, starting, looping, closing, finished, State, Step, start,
  sem_wait, lock, relock, wait, wake_spuriously, take_loop, destroy, destroy_null, call_quit,
  call_quit_null, call_quit_dangling, join, store_tid, post, construct, call_back, publish, notify,
  begin_looping, quit_inside, end_looping, clear, close, Reach, here, next, new,
}
use moduo_write.LoopThread.Invariant.{Reach-Inv, new-Inv}
use moduo_write.LoopThread.Starting.{in_start_loop}

abbrev is_idle_or_new : Owner → Bool
is_idle_or_new idle = true
is_idle_or_new _ = false

-- The thread has set `loop_` back.
abbrev pub has_cleared : Worker → Bool
has_cleared closing = true
has_cleared finished = true
has_cleared _ = false

module _ (own tid : ℕ) where
  record Late (s : State) : Type 0 where
    owner : in_start_loop s.owner ≡ true
    not_idle : is_idle_or_new s.owner ≡ false
    worker : has_cleared s.worker ≡ true
    null : s.loop ≡ none

  Step-Late : {s t : State} → Step own tid s t → Late s → Late t
  Step-Late (start s p) v = ground arith
  Step-Late (sem_wait s p h) v = ground arith
  Step-Late (lock s p h) v = ground arith
  Step-Late (relock s p h) v = ground arith
  Step-Late (wait s p h) v = ground arith
  Step-Late (wake_spuriously s p) v = ground arith
  Step-Late (take_loop s l p h) v = ground arith
  Step-Late (destroy s l m p h) v = ground arith
  Step-Late (destroy_null s l p h) v = ground arith
  Step-Late (call_quit s l p h a) v = ground arith
  Step-Late (call_quit_null s p h) v = ground arith
  Step-Late (call_quit_dangling s l p h a) v = ground arith
  Step-Late (join s p h) v = ground arith
  Step-Late (store_tid s p) v = ground arith
  Step-Late (post s p) v = ground arith
  Step-Late (construct s p) v = ground arith
  Step-Late (call_back s p) v = ground arith
  Step-Late (publish s p h) v = ground arith
  Step-Late (notify s p) v = ground arith
  Step-Late (begin_looping s p) v = ground arith
  Step-Late (quit_inside s p) v = ground arith
  Step-Late (end_looping s p h) v = ground arith
  Step-Late (clear s p h) v = ground arith
  Step-Late (close s p) v = ground arith

  Reach-Late : {s t : State} → Late s → Reach own tid s t → Late t
  Reach-Late v here = v
  Reach-Late v (next r st) = Step-Late st (Reach-Late v r)

  -- If the loop has ended and `loop_` is null again while the owner is still in `startLoop`, then
  -- `startLoop` never returns.
  pub start_loop-too_late :
      (thread : Thread) (s u : State) (l : ℕ)
      → thread.started ≡ false
      → thread.joined ≡ false
      → Reach own tid (new thread) s
      → in_start_loop s.owner ≡ true
      → has_cleared s.worker ≡ true
      → Reach own tid s u
      → u.owner ≢ returned l
  start_loop-too_late thread s u l h j r i e on at =
      let v = Reach-Inv (new-Inv own tid thread h j) r in
      let late : Late s = record {
        owner = i;
        not_idle = ground (arith, v);
        worker = e;
        null = ground (arith, v);
      } in
      ground (arith, Reach-Late late on)

  -- Before `loop()` begins, or in it with `quit_` clear.
  abbrev runs_on : Worker → Bool → Bool
  runs_on starting q = true
  runs_on looping q = not q
  runs_on _ q = false

  record Lost (s : State) : Type 0 where
    owner : s.owner ≡ joining
    worker : s.asked ≡ false → runs_on s.worker s.quit ≡ true

  Step-Lost : {s t : State} → Step own tid s t → Lost s → (t.asked ≡ true) ⊎ Lost t
  Step-Lost (start s p) v = ground arith
  Step-Lost (sem_wait s p h) v = ground arith
  Step-Lost (lock s p h) v = ground arith
  Step-Lost (relock s p h) v = ground arith
  Step-Lost (wait s p h) v = ground arith
  Step-Lost (wake_spuriously s p) v = ground arith
  Step-Lost (take_loop s l p h) v = ground arith
  Step-Lost (destroy s l m p h) v = ground arith
  Step-Lost (destroy_null s l p h) v = ground arith
  Step-Lost (call_quit s l p h a) v = ground arith
  Step-Lost (call_quit_null s p h) v = ground arith
  Step-Lost (call_quit_dangling s l p h a) v = ground arith
  Step-Lost (join s p h) v = ground arith
  Step-Lost (store_tid s p) v = ground arith
  Step-Lost (post s p) v = ground arith
  Step-Lost (construct s p) v = ground arith
  Step-Lost (call_back s p) v = ground arith
  Step-Lost (publish s p h) v = ground arith
  Step-Lost (notify s p) v = ground arith
  Step-Lost (begin_looping s p) v = ground arith
  Step-Lost (quit_inside s p) v = ground arith
  Step-Lost (end_looping s p h) v = ground arith
  Step-Lost (clear s p h) v = ground arith
  Step-Lost (close s p) v = ground arith

  Step-asked : {s t : State} → Step own tid s t → s.asked ≡ true → t.asked ≡ true
  Step-asked (start s p) e = e
  Step-asked (sem_wait s p h) e = e
  Step-asked (lock s p h) e = e
  Step-asked (relock s p h) e = e
  Step-asked (wait s p h) e = e
  Step-asked (wake_spuriously s p) e = e
  Step-asked (take_loop s l p h) e = e
  Step-asked (destroy s l m p h) e = e
  Step-asked (destroy_null s l p h) e = e
  Step-asked (call_quit s l p h a) e = e
  Step-asked (call_quit_null s p h) e = e
  Step-asked (call_quit_dangling s l p h a) e = e
  Step-asked (join s p h) e = e
  Step-asked (store_tid s p) e = e
  Step-asked (post s p) e = e
  Step-asked (construct s p) e = e
  Step-asked (call_back s p) e = e
  Step-asked (publish s p h) e = e
  Step-asked (notify s p) e = e
  Step-asked (begin_looping s p) e = e
  Step-asked (quit_inside s p) e = refl
  Step-asked (end_looping s p h) e = e
  Step-asked (clear s p h) e = e
  Step-asked (close s p) e = e

  Reach-Lost : {s t : State} → Lost s → Reach own tid s t → (t.asked ≡ true) ⊎ Lost t
  Reach-Lost v here = inr v
  Reach-Lost v (next r st) = elim (Reach-Lost v r) [
    | inl e ↦ inl (Step-asked st e)
    | inr w ↦ Step-Lost st w
  ]

  -- A `quit` of the destructor that comes before the thread has begun `loop()` is lost: the owner stays
  -- in `join` unless a callback in the loop asks it to quit.
  pub quit-lost :
      (s u : State)
      → s.owner ≡ joining
      → s.worker ≡ starting
      → Reach own tid s u
      → (u.asked ≡ true) ⊎ (u.owner ≡ joining)
  quit-lost s u p w r =
      let lost : Lost s = record { owner = p; worker = λ _. rw w refl } in
      elim (Reach-Lost lost r) [ inl e ↦ inl e | inr v ↦ inr v.owner ]
