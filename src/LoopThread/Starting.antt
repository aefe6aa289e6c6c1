-- ===== src/LoopThread/Starting.antt =====
-- EventLoopThread.cc: `startLoop` returns while the loop runs.
use moduo_write.Common.{
  ℕ, zero, suc, ◌+◌, ◌*◌, ◌<◌, ◌≤◌, ◌≡◌, refl, ◌∙◌, ◌⊎◌, inl, inr, Bool, true, false, arith,
  Bool-cases,
}
use moduo_write.Thread.{Thread}
use moduo_write.LoopThread.{
  Owner, idle, waiting, locking, checking, sleeping, woken, quitting, joining, gone, broken,
  returned, Worker, absent, entered, posting, constructing, calling_back, publishing, notifying,
  starting, looping, clearing, closing, finished, State, notified, Step, start, sem_wait, lock,
  relock, wait, take_loop, wake_spuriously, store_tid, post, construct, call_back, publish, notify,
  Reach, here, next, new,
}
use moduo_write.LoopThread.Invariant.{Inv, Reach-Inv, new-Inv, is_idle, owner_holds}

-- The owner is in `startLoop`, or about to call it.
abbrev pub in_start_loop : Owner → Bool
in_start_loop quitting = false
in_start_loop joining = false
in_start_loop gone = false
in_start_loop broken = false
in_start_loop (returned l) = false
in_start_loop _ = true

-- The thread has left `loop()`.
abbrev pub has_ended : Worker → Bool
has_ended clearing = true
has_ended closing = true
has_ended finished = true
has_ended _ = false

abbrev owner_rank : Owner → ℕ
owner_rank idle = 5
owner_rank waiting = 4
owner_rank locking = 3
owner_rank woken = 3
owner_rank checking = 2
owner_rank sleeping = 1
owner_rank _ = 0

abbrev worker_rank : Worker → ℕ
worker_rank absent = 8
worker_rank entered = 7
worker_rank posting = 6
worker_rank constructing = 5
worker_rank calling_back = 4
worker_rank publishing = 3
worker_rank notifying = 2
worker_rank starting = 1
worker_rank _ = 0

abbrev rank : State → ℕ
rank s = 6 * worker_rank s.worker + owner_rank s.owner

module _ (own tid : ℕ) where
  abbrev pub is_spurious : {s t : State} → Step own tid s t → Bool
  is_spurious (wake_spuriously s p) = true
  is_spurious _ = false

  -- A run in which `wait` returns only when it was notified.
  pub data Run : State → State → Type 0 where
    stays : (s : State) → Run s s
    moves : {s t u : State} (st : Step own tid s t) → is_spurious st ≡ false → Run t u → Run s u

  -- A step that brings `startLoop` nearer to its return.
  Nearer : State → Type 0
  Nearer s =
      (t : State) × (st : Step own tid s t) × (is_spurious st ≡ false)
      × (rank t < rank s)
      × (has_ended t.worker ≡ false)
      × ((in_start_loop t.owner ≡ true) ⊎ (t.owner ≡ returned own))

  idle-owner : (o : Owner) → is_idle o ≡ true → o ≡ idle
  idle-owner o e = ground arith

  holds-owner : (o : Owner) → owner_holds o ≡ true → o ≡ checking
  holds-owner o e = ground arith

  notified-in_start_loop :
      (o : Owner)
      → in_start_loop o ≡ true
      → (in_start_loop (notified o) ≡ true) × (owner_rank (notified o) ≤ owner_rank o + 2)
  unfolding notified
  notified-in_start_loop o e = ground arith

  -- With the loop announced, the owner goes on by itself.
  owner_goes_on :
      (s : State) (o : Owner)
      → Inv own tid s
      → s.owner ≡ o
      → in_start_loop o ≡ true
      → (s.worker ≡ starting) ⊎ (s.worker ≡ looping)
      → Nearer s
  unfolding Nearer
  owner_goes_on s idle v p i w = absurd (ground (arith, v))
  owner_goes_on s waiting v p i w =
      (_, sem_wait s p (ground (arith, v)), refl, ground arith, ground arith, inl refl)
  owner_goes_on s locking v p i w =
      (_, lock s p (ground (arith, v)), refl, ground arith, ground arith, inl refl)
  owner_goes_on s woken v p i w =
      (_, relock s p (ground (arith, v)), refl, ground arith, ground arith, inl refl)
  owner_goes_on s checking v p i w =
      (_, take_loop s own p (ground (arith, v)), refl, ground arith, ground arith, inr refl)
  owner_goes_on s sleeping v p i w = absurd (ground (arith, v))
  owner_goes_on s quitting v p i w = cc i
  owner_goes_on s joining v p i w = cc i
  owner_goes_on s gone v p i w = cc i
  owner_goes_on s broken v p i w = cc i
  owner_goes_on s (returned l) v p i w = cc i

  go_on :
      (s : State) (w : Worker)
      → Inv own tid s
      → in_start_loop s.owner ≡ true
      → s.worker ≡ w
      → has_ended w ≡ false
      → Nearer s
  unfolding Nearer
  go_on s absent v i p e =
      let at : s.owner ≡ idle = idle-owner s.owner (v.begun ∙ rw p refl) in
      (_, start s at, refl, ground arith, refl, inl refl)
  go_on s entered v i p e = (_, store_tid s p, refl, ground arith, refl, inl i)
  go_on s posting v i p e = (_, post s p, refl, ground arith, refl, inl i)
  go_on s constructing v i p e = (_, construct s p, refl, ground arith, refl, inl i)
  go_on s calling_back v i p e = (_, call_back s p, refl, ground arith, refl, inl i)
  go_on s publishing v i p e = elim (Bool-cases s.has_mutex) [
    | inr free ↦ (_, publish s p free, refl, ground arith, refl, inl i)
    | inl held ↦
        let at : s.owner ≡ checking = holds-owner s.owner (ground (arith, v)) in
        (_, wait s at (v.loop ∙ rw p refl), refl, ground arith, ground arith, inl refl)
  ]
  go_on s notifying v i p e =
      let (still, small) = notified-in_start_loop s.owner i in
      (_, notify s p, refl, ground arith, refl, inl still)
  go_on s starting v i p e = owner_goes_on s s.owner v refl i (inl p)
  go_on s looping v i p e = owner_goes_on s s.owner v refl i (inr p)
  go_on s clearing v i p e = cc e
  go_on s closing v i p e = cc e
  go_on s finished v i p e = cc e

  runs :
      (n : ℕ) (s : State)
      → rank s < n
      → Inv own tid s
      → in_start_loop s.owner ≡ true
      → has_ended s.worker ≡ false
      → (u : State) × Run s u × (u.owner ≡ returned own)
  unfolding Nearer
  runs zero s h v i e = absurd (omega arith)
  runs (suc n) s h v i e =
      let (t, st, awake, less, e', o) = go_on s s.worker v i refl e in
      elim o [
        | inl still ↦
            let (u, r, at) = runs n t (omega arith) (Step-keeps st v) still e' in
            (u, moves st awake r, at)
        | inr at ↦ (t, moves st awake (stays t), at)
      ]
    where
      Step-keeps : {s t : State} → Step own tid s t → Inv own tid s → Inv own tid t
      Step-keeps st v = Reach-Inv v (next here st)

  -- `startLoop` is never stuck while the loop runs: from every point of a run at which it has not
  -- returned and the thread has not left `loop()`, a run without spurious wakeups
  -- leads to its return, and it returns the thread's own loop.
  pub start_loop-returns :
      (thread : Thread) (s : State)
      → thread.started ≡ false
      → thread.joined ≡ false
      → Reach own tid (new thread) s
      → in_start_loop s.owner ≡ true
      → has_ended s.worker ≡ false
      → (u : State) × Run s u × (u.owner ≡ returned own)
  start_loop-returns thread s h j r i e =
      runs (suc (rank s)) s (omega arith) (Reach-Inv (new-Inv own tid thread h j) r) i e
