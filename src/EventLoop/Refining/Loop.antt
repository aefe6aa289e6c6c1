-- ===== src/EventLoop/Refining/Loop.antt =====
-- Eventloop.cc, `loop`: the function takes the steps of the interleaving, from its start to its end.
use moduo_write.Common.{
  some-injective, ap, append-nil, ap₂, done-injective, ℕ, zero, suc, ◌≡◌, ◌≢◌, refl, sym, ◌∙◌,
  subst, inl, inr, Bool-cases, false, Option, none, some, List, [], ◌∷◌, ◌++◌, Outcome, done,
  exited, bad_call, undefined, bind, bind-eq-done,
}
use moduo_write.System.{Sys}
use moduo_write.EventLoop.{
  Functor, Thread, do_pending_functors, start_looping, stop_looping, after_turn, loop_turns,
  run_loop,
}
use moduo_write.EventLoop.Interleaving.{
  State, testing, polling, handling, stopped, enter_poll, poll_returns, stop, queue_while_handling,
  Reach, here, next, started,
}
use moduo_write.EventLoop.Ending.{goes_on, ends}
use moduo_write.EventLoop.Wakeup.{left, functors_in_order}
use moduo_write.EventLoop.Refining.{
  Notes, Noted, Tally, Tally-Noted, Same, Calls, Calls-Ran, Reach-trans, do_pending_functors-Reach,
}

not_handling : handling ≢ polling
not_handling e = cc e

no_result : {A : Type 0} {a : A} → none ≢ some a
no_result e = cc e

module _ {K : Type 0} (sys : Sys K) (exec : Functor → Thread K → Outcome (Thread K))
    (turn : Thread K → Outcome (Thread K)) (notes : Notes sys)
    (calls : (f : Functor) (t t' : Thread K)
      → exec f t ≡ done t'
      → (fs : List Functor) × Calls sys t fs t' × Noted sys notes (f ∷ []) fs t t')
    (handles : (t t' : Thread K)
      → turn t ≡ done t'
      → (fs : List Functor) × Calls sys t fs t' × Noted sys notes [] fs t t')
    (k₀ : K) where
  after_turn-done :
      (again : Thread K → Option (Outcome (Thread K))) (m : Outcome (Thread K)) (v : Thread K)
      → after_turn exec again m ≡ some (done v)
      → (u : Thread K) × (m ≡ done u) × (again u ≡ some (done v))
  unfolding after_turn
  after_turn-done again (done u) v e = (u, refl, e)
  after_turn-done again exited v e = cc e
  after_turn-done again bad_call v e = cc e
  after_turn-done again undefined v e = cc e

  -- One turn, begun while nobody has asked the loop to quit.
  turn-Reach :
      (t u : Thread K) (s : State)
      → bind (turn t) (do_pending_functors exec) ≡ done u
      → t.loop.quit ≡ false
      → s.phase ≡ testing
      → Same s.loop t.loop
      → Tally sys notes k₀ s t
      → (s' : State) × Reach s s'
        × (s'.phase ≡ testing)
        × Same s'.loop u.loop
        × Tally sys notes k₀ s' u
  turn-Reach t u s e go h m y =
      let (t₁, handled, rest) = bind-eq-done (turn t) (do_pending_functors exec) e in
      let (fs, c, noted) = handles t t₁ handled in
      let s₁ = record s { phase = polling } in
      let s₂ = record s₁ { phase = handling } in
      let (s₃, r) = Calls-Ran sys handling not_handling queue_while_handling t t₁ fs s₂ c refl m in
      let y₃ : Tally sys notes k₀ s₃ t₁ =
        Tally-Noted sys notes k₀ [] fs s s₃ t t₁ y noted (r.ran ∙ sym (append-nil s.ran))
          r.queued in
      let (s', reach, phase, same, _, tally) =
        do_pending_functors-Reach sys exec notes calls k₀ t₁ u s₃ rest r.phase r.loop y₃ in
      (
        s',
        Reach-trans (next (next here (enter_poll s h (m.quit ∙ go))) (poll_returns s₁ refl))
            (Reach-trans r.reach reach),
        phase,
        same,
        tally,
      )

  loop_turns-Reach :
      (n : ℕ) (t v : Thread K) (s : State)
      → loop_turns exec turn n t ≡ some (done v)
      → s.phase ≡ testing
      → Same s.loop t.loop
      → Tally sys notes k₀ s t
      → (s' : State) × Reach s s'
        × (s'.phase ≡ stopped)
        × Same s'.loop v.loop
        × Tally sys notes k₀ s' v
  unfolding loop_turns stop_looping
  loop_turns-Reach zero t v s e h m y = absurd (no_result e)
  loop_turns-Reach (suc n) t v s e h m y = elim (Bool-cases t.loop.quit) [
    | inl q ↦ (
      record s { phase = stopped; loop = stop_looping s.loop },
      next here (stop s h (m.quit ∙ q)),
      refl,
      subst (λ (u : Thread K). Same (stop_looping s.loop) u.loop)
          (done-injective (some-injective (sym (ends exec turn t n q) ∙ e)))
          (record { looping = refl; quit = m.quit; calling = m.calling; queue = m.queue }),
      subst (Tally sys notes k₀ _)
          (done-injective (some-injective (sym (ends exec turn t n q) ∙ e)))
          (record { ran = y.ran; queued = y.queued }),
    )
    | inr go ↦
        let (u, turned, rest) =
          after_turn-done (loop_turns exec turn n) _ v (sym (goes_on exec turn t n go) ∙ e) in
        let (s₁, reach, phase, same, y₁) = turn-Reach t u s turned go h m y in
        let (s', more, end, same', y') = loop_turns-Reach n u v s₁ rest phase same y₁ in
        (s', Reach-trans reach more, end, same', y')
  ]

module _ {K : Type 0} (sys : Sys K) (exec : Functor → Thread K → Outcome (Thread K))
    (turn : Thread K → Outcome (Thread K)) (notes : Notes sys)
    (calls : (f : Functor) (t t' : Thread K)
      → exec f t ≡ done t'
      → (fs : List Functor) × Calls sys t fs t' × Noted sys notes (f ∷ []) fs t t')
    (handles : (t t' : Thread K)
      → turn t ≡ done t'
      → (fs : List Functor) × Calls sys t fs t' × Noted sys notes [] fs t t') where
  -- `loop()`, where it returns, has taken steps of the interleaving from its start to its end. The
  -- kernel shows which functors have been run and which have been queued: exactly those of the steps.
  -- So every functor that was queued while the loop ran has been run once, in the order of queueing,
  -- but for those that are still in the queue at the end. The loop that is left is that of the steps
  -- but for the poller. It starts with an empty queue and without the mark of running functors; its
  -- functors and its channels' callbacks only queue functors in it, ask it to quit, and change the
  -- poller and the kernel, and each notes in the kernel what it queues, a functor also that it runs.
  pub run_loop-in_order :
      (n : ℕ) (t v : Thread K)
      → t.loop.calling_pending_functors ≡ false
      → t.loop.pending_functors ≡ []
      → run_loop exec turn n t ≡ some (done v)
      → (s : State) × Reach (started t.loop) s
        × (s.phase ≡ stopped)
        × Same s.loop v.loop
        × (notes.ran_of v.kernel ≡ notes.ran_of t.kernel ++ s.ran)
        × (notes.queued_of v.kernel
            ≡ notes.queued_of t.kernel ++ (s.ran ++ v.loop.pending_functors))
  unfolding run_loop start_looping
  run_loop-in_order n t v c q e =
      let (s, reach, phase, same, y) =
        loop_turns-Reach sys exec turn notes calls handles t.kernel n
          (record t { loop = start_looping t.loop }) v (started t.loop) e refl
          (record { looping = refl; quit = refl; calling = refl; queue = refl })
          (record {
            ran = sym (append-nil (notes.ran_of t.kernel));
            queued = sym (
                ap (λ xs. notes.queued_of t.kernel ++ xs) q
                ∙ append-nil (notes.queued_of t.kernel));
          }) in
      (
        s,
        reach,
        phase,
        same,
        y.ran,
        y.queued
            ∙ ap (λ xs. notes.queued_of t.kernel ++ xs)
                (functors_in_order t.loop s c q reach
                  ∙ ap₂ (λ p gs. s.ran ++ (left p ++ gs)) phase same.queue),
      )
