-- ===== src/EventLoop/Refining.antt =====
-- Eventloop.cc, `doPendingFunctors`: the function takes the steps of the interleaving.
pub mod Loop
use moduo_write.Common.{
  ◌+◌, ◌≢◌, ℕ, ◌≡◌, refl, sym, ap, ap₂, ◌∙◌, subst, true, false, List, [], ◌∷◌, ◌++◌, append-nil,
  append_assoc, Outcome, done, bind, bind-eq-done, done-injective, ◌==◌, arith,
}
use moduo_write.System.{Sys}
use moduo_write.Poller.{Poller}
use moduo_write.EventLoop.{
  EventLoop, Functor, Thread, queue_in_loop, push_functor, run_functors, do_pending_functors,
  begin_calling, swap_pending, end_calling,
}
use moduo_write.EventLoop.Interleaving.{
  State, Phase, handling, marked, running, polling, testing, Step, quit_inside, mark, swap, run,
  queue_while_running, finish, Reach, here, next, push, owed,
}

not_polling : (fs : List Functor) → running fs ≢ polling
not_polling fs e = cc e

pub Reach-trans : {r s t : State} → Reach r s → Reach s t → Reach r t
Reach-trans a here = a
Reach-trans a (next b c) = next (Reach-trans a b) c

-- The loop of a step's state is the function's, but for its poller.
pub record Same (s l : EventLoop) : Type 0 where
  pub looping : s.looping ≡ l.looping
  pub quit : s.quit ≡ l.quit
  pub calling : s.calling_pending_functors ≡ l.calling_pending_functors
  pub queue : s.pending_functors ≡ l.pending_functors

module _ {K : Type 0} (sys : Sys K) where
  -- `queueInLoop`, called in the loop's thread.
  abbrev pub after_queueing : Functor → Thread K → Thread K
  after_queueing f t =
      let (l, k) = queue_in_loop sys t.loop.thread_id f t.loop t.kernel in
      record { loop = l; kernel = k }

  -- What a functor does to its loop, in the loop's thread: it queues functors and asks the loop to
  -- quit, in any order, changes the registration of channels, and does anything to the kernel.
  pub data Calls (t : Thread K) : List Functor → Thread K → Type 0 where
    nothing : Calls t [] t
    queues :
        (fs : List Functor) (u : Thread K) (f : Functor)
        → Calls t fs u
        → Calls t (fs ++ f ∷ []) (after_queueing f u)
    quits :
        (fs : List Functor) (u : Thread K)
        → Calls t fs u
        → Calls t fs (record u { loop = record u.loop { quit = true } })
    works :
        (fs : List Functor) (u : Thread K) (p : Poller) (k : K)
        → Calls t fs u
        → Calls t fs (record { loop = record u.loop { poller = p }; kernel = k })

  -- The steps of such calls in one phase, after which these have been queued.
  pub record Ran (at : Phase) (fs : List Functor) (s : State) (t : Thread K) (s' : State)
      : Type 0 where
    pub reach : Reach s s'
    pub phase : s'.phase ≡ at
    pub loop : Same s'.loop t.loop
    pub ran : s'.ran ≡ s.ran
    pub queued : s'.queued ≡ s.queued ++ fs

  -- In a phase in which the loop's thread can queue functors.
  pub Calls-Ran :
      (at : Phase)
      → at ≢ polling
      → ((s : State) (f : Functor)
          → s.phase ≡ at
          → Step s (record (push f s) { wakeups = s.wakeups + owed true s.loop }))
      → (t t' : Thread K) (fs : List Functor) (s : State) → Calls t fs t'
      → s.phase ≡ at
      → Same s.loop t.loop
      → (s' : State) × Ran at fs s t' s'
  unfolding queue_in_loop push_functor
  Calls-Ran at apart step t _ _ s nothing h m = (
    s,
    record { reach = here; phase = h; loop = m; ran = refl; queued = sym (append-nil s.queued) },
  )
  Calls-Ran at apart step t _ _ s (queues fs u f c) h m =
      let (s', r) = Calls-Ran at apart step t u fs s c h m in
      (
        record (push f s') { wakeups = s'.wakeups + owed true s'.loop },
        record {
          reach = next r.reach (step s' f r.phase);
          phase = r.phase;
          loop = record {
            looping = r.loop.looping;
            quit = r.loop.quit;
            calling = r.loop.calling;
            queue = ap (λ gs. gs ++ f ∷ []) r.loop.queue;
          };
          ran = r.ran;
          queued = ap (λ gs. gs ++ f ∷ []) r.queued ∙ append_assoc s.queued fs (f ∷ []);
        },
      )
  Calls-Ran at apart step t _ fs s (quits _ u c) h m =
      let (s', r) = Calls-Ran at apart step t u fs s c h m in
      (
        record s' { loop = record s'.loop { quit = true } },
        record {
          reach = next r.reach (quit_inside s' λ e. apart (sym r.phase ∙ e));
          phase = r.phase;
          loop = record {
            looping = r.loop.looping;
            quit = refl;
            calling = r.loop.calling;
            queue = r.loop.queue;
          };
          ran = r.ran;
          queued = r.queued;
        },
      )
  Calls-Ran at apart step t _ fs s (works _ u p k c) h m =
      let (s', r) = Calls-Ran at apart step t u fs s c h m in
      (
        s',
        record {
          reach = r.reach;
          phase = r.phase;
          loop = record {
            looping = r.loop.looping;
            quit = r.loop.quit;
            calling = r.loop.calling;
            queue = r.loop.queue;
          };
          ran = r.ran;
          queued = r.queued;
        },
      )

  -- Observations of the kernel: the functors that have been run and those that have been queued.
  pub record Notes : Type 0 where
    pub ran_of : K → List Functor
    pub queued_of : K → List Functor

  -- Since `t` the first functors have been run and the second queued.
  pub record Noted (notes : Notes) (fs gs : List Functor) (t u : Thread K) : Type 0 where
    pub ran : notes.ran_of u.kernel ≡ notes.ran_of t.kernel ++ fs
    pub queued : notes.queued_of u.kernel ≡ notes.queued_of t.kernel ++ gs

  -- The steps have run and queued what is noted in the kernel since it was `k₀`.
  pub record Tally (notes : Notes) (k₀ : K) (s : State) (t : Thread K) : Type 0 where
    pub ran : notes.ran_of t.kernel ≡ notes.ran_of k₀ ++ s.ran
    pub queued : notes.queued_of t.kernel ≡ notes.queued_of k₀ ++ s.queued

  pub Tally-Noted :
      (notes : Notes) (k₀ : K) (fs gs : List Functor) (s s' : State) (t u : Thread K)
      → Tally notes k₀ s t
      → Noted notes fs gs t u
      → s'.ran ≡ s.ran ++ fs
      → s'.queued ≡ s.queued ++ gs
      → Tally notes k₀ s' u
  Tally-Noted notes k₀ fs gs s s' t u y n ran queued = record {
    ran =
        n.ran
        ∙ ap (λ xs. xs ++ fs) y.ran
        ∙ append_assoc (notes.ran_of k₀) s.ran fs
        ∙ ap (λ xs. notes.ran_of k₀ ++ xs) (sym ran);
    queued =
        n.queued
        ∙ ap (λ xs. xs ++ gs) y.queued
        ∙ append_assoc (notes.queued_of k₀) s.queued gs
        ∙ ap (λ xs. notes.queued_of k₀ ++ xs) (sym queued);
  }

  module _ (exec : Functor → Thread K → Outcome (Thread K)) (notes : Notes)
      (calls : (f : Functor) (t t' : Thread K)
        → exec f t ≡ done t'
        → (fs : List Functor) × Calls t fs t' × Noted notes (f ∷ []) fs t t')
      (k₀ : K) where
    -- The steps of all functors of the list, which leave none.
    pub record AllRan (todo : List Functor) (s : State) (t' : Thread K) (s' : State) : Type 0 where
      pub reach : Reach s s'
      pub phase : s'.phase ≡ running []
      pub loop : Same s'.loop t'.loop
      pub ran : s'.ran ≡ s.ran ++ todo
      pub more : List Functor
      pub queued : s'.queued ≡ s.queued ++ more
      pub tally : Tally notes k₀ s' t'

    run_functors-AllRan :
        (todo : List Functor) (t t' : Thread K) (s : State)
        → run_functors exec todo t ≡ done t'
        → s.phase ≡ running todo
        → Same s.loop t.loop
        → Tally notes k₀ s t
        → (s' : State) × AllRan todo s t' s'
    unfolding run_functors
    run_functors-AllRan [] t t' s e h m y = (
      s,
      record {
        reach = here;
        phase = h;
        loop = subst (λ (u : Thread K). Same s.loop u.loop) (done-injective e) m;
        ran = sym (append-nil s.ran);
        more = [];
        queued = sym (append-nil s.queued);
        tally = subst (Tally notes k₀ s) (done-injective e) y;
      },
    )
    run_functors-AllRan (f ∷ todo) t t' s e h m y =
        let (u, first, rest) = bind-eq-done (exec f t) (run_functors exec todo) e in
        let (fs, c, noted) = calls f t u first in
        let s₁ = record s { phase = running todo; ran = s.ran ++ f ∷ [] } in
        let (s₂, r) =
          Calls-Ran (running todo) (not_polling todo) (λ q g. queue_while_running q g todo) t u fs
            s₁ c refl m in
        let y₂ = Tally-Noted notes k₀ (f ∷ []) fs s s₂ t u y noted r.ran r.queued in
        let (s', a) = run_functors-AllRan todo u t' s₂ rest r.phase r.loop y₂ in
        (
          s',
          record {
            reach = Reach-trans (next here (run s f todo h)) (Reach-trans r.reach a.reach);
            phase = a.phase;
            loop = a.loop;
            ran = a.ran ∙ ap (λ gs. gs ++ todo) r.ran ∙ append_assoc s.ran (f ∷ []) todo;
            more = fs ++ a.more;
            queued = a.queued ∙ ap (λ gs. gs ++ a.more) r.queued ∙ append_assoc s.queued fs a.more;
            tally = a.tally;
          },
        )

    -- `doPendingFunctors`, where it returns and each functor only does to its loop what functors can,
    -- takes steps of the interleaving: from the handling of the channels to the test of `quit_`. The
    -- functors that waited have been run, in their order, and the loop is the function's.
    pub do_pending_functors-Reach :
        (t t' : Thread K) (s : State)
        → do_pending_functors exec t ≡ done t'
        → s.phase ≡ handling
        → Same s.loop t.loop
        → Tally notes k₀ s t
        → (s' : State) × Reach s s'
          × (s'.phase ≡ testing)
          × Same s'.loop t'.loop
          × (s'.ran ≡ s.ran ++ t.loop.pending_functors)
          × Tally notes k₀ s' t'
    unfolding do_pending_functors begin_calling swap_pending end_calling
    do_pending_functors-Reach t t' s e h m y =
        let t₁ = record t { loop = (swap_pending (begin_calling t.loop)).1 } in
        let (u, runs, ends) = bind-eq-done (run_functors exec t.loop.pending_functors t₁) _ e in
        let s₁ = record s { phase = marked; loop = begin_calling s.loop } in
        let s₂ = record s₁ {
          phase = running s.loop.pending_functors;
          loop = (swap_pending (begin_calling s.loop)).1;
        } in
        let (s₃, a) =
          run_functors-AllRan t.loop.pending_functors t₁ u s₂ runs (ap running m.queue)
            (record { looping = m.looping; quit = m.quit; calling = refl; queue = refl })
            (record { ran = y.ran; queued = y.queued }) in
        (
          record s₃ { phase = testing; loop = end_calling s₃.loop },
          next (Reach-trans (next (next here (mark s h)) (swap s₁ refl)) a.reach)
              (finish s₃ a.phase),
          refl,
          subst (λ (v : Thread K). Same (end_calling s₃.loop) v.loop) (done-injective ends)
              (record {
                looping = a.loop.looping;
                quit = a.loop.quit;
                calling = refl;
                queue = a.loop.queue;
              }),
          a.ran,
          subst (Tally notes k₀ _) (done-injective ends)
              (record { ran = a.tally.ran; queued = a.tally.queued }),
        )
