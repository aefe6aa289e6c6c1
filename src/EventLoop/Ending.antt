-- ===== src/EventLoop/Ending.antt =====
-- Eventloop.cc: `loop()` ends after the round in which a functor asks it to quit.
use moduo_write.Common.{
  ℕ, suc, ◌≡◌, refl, sym, ap, ◌∙◌, true, false, some, List, [], ◌∷◌, ◌++◌, append-nil, append_assoc,
  Outcome, done, bind,
}
use moduo_write.EventLoop.{
  Functor, Thread, stop_looping, run_functors, do_pending_functors, after_turn, loop_turns,
}

module _ {K : Type 0} (exec : Functor → Thread K → Outcome (Thread K))
    (turn : Thread K → Outcome (Thread K)) where
  pub goes_on :
      (t : Thread K) (fuel : ℕ)
      → t.loop.quit ≡ false
      → loop_turns exec turn (suc fuel) t
        ≡ after_turn exec (loop_turns exec turn fuel) (bind (turn t) (do_pending_functors exec))
  unfolding loop_turns
  goes_on t fuel go = rw go refl

  pub ends :
      (t : Thread K) (fuel : ℕ)
      → t.loop.quit ≡ true
      → loop_turns exec turn (suc fuel) t ≡ some (done (record t { loop = stop_looping t.loop }))
  unfolding loop_turns
  ends t fuel q = rw q refl

module _ {K : Type 0} (exec : Functor → Thread K → Outcome (Thread K))
    (turn : Thread K → Outcome (Thread K)) (ran_of : K → List Functor) where
  -- A functor that returns, does not take back a request to quit, and is noted in the kernel.
  pub record Returns (f : Functor) (t : Thread K) : Type 0 where
    pub after : Thread K
    pub returns : exec f t ≡ done after
    pub noted : ran_of after.kernel ≡ ran_of t.kernel ++ f ∷ []
    pub keeps_quit : t.loop.quit ≡ true → after.loop.quit ≡ true

  -- A turn's poll and channels, which return, run no functor and at most queue some.
  pub record Handles (t : Thread K) : Type 0 where
    pub after : Thread K
    pub returns : turn t ≡ done after
    pub noted : ran_of after.kernel ≡ ran_of t.kernel
    pub more : List Functor
    pub queue : after.loop.pending_functors ≡ t.loop.pending_functors ++ more

  record AllRan (fs : List Functor) (t : Thread K) : Type 0 where
    after : Thread K
    returns : run_functors exec fs t ≡ done after
    noted : ran_of after.kernel ≡ ran_of t.kernel ++ fs
    keeps_quit : t.loop.quit ≡ true → after.loop.quit ≡ true

  module _ (returning : (f : Functor) (t : Thread K) → Returns f t) where
    then_all :
        (f : Functor) (fs : List Functor) (t : Thread K)
        → AllRan fs (returning f t).after
        → AllRan (f ∷ fs) t
    unfolding run_functors
    then_all f fs t all =
        let r = returning f t in
        record {
          after = all.after;
          returns = ap (λ m. bind m (run_functors exec fs)) r.returns ∙ all.returns;
          noted =
              all.noted ∙ ap (λ xs. xs ++ fs) r.noted ∙ append_assoc (ran_of t.kernel) (f ∷ []) fs;
          keeps_quit = λ q. all.keeps_quit (r.keeps_quit q);
        }

    run_all : (fs : List Functor) (t : Thread K) → AllRan fs t
    unfolding run_functors
    run_all [] t = record {
      after = t;
      returns = refl;
      noted = sym (append-nil (ran_of t.kernel));
      keeps_quit = λ q. q;
    }
    run_all (f ∷ fs) t = then_all f fs t (run_all fs (returning f t).after)
