-- ===== src/EventLoop/Wakeup.antt =====
-- Eventloop.cc: no wakeup of the loop is lost, and its functors run in order.
use moduo_write.Common.{
  ◌+◌, ◌<◌, ◌≡◌, refl, ap, Bool, true, false, List, [], ◌∷◌, ◌++◌, append-nil, append_assoc, arith,
  length,
}
use moduo_write.EventLoop.Interleaving.{
  State, Phase, testing, polling, handling, marked, stopped, running, owed, Step,
  queue_from_outside, quit_from_outside, wake, enter_poll, stop, poll_returns, read_eventfd,
  quit_inside, queue_while_handling, mark, swap, run, queue_while_running, finish, Reach, here,
  next, started,
}
use moduo_write.EventLoop.{
  EventLoop, Functor, wakes, begin_calling, swap_pending, end_calling, push_functor, start_looping,
  stop_looping,
}

-- The functors that were swapped out and have not started.
abbrev pub left : Phase → List Functor
left testing = []
left polling = []
left handling = []
left marked = []
left stopped = []
left (running fs) = fs

-- Whether the thread is past the swap and on its way to `poll`: what is queued now must wake it.
abbrev pub is_late : Phase → Bool
is_late testing = true
is_late polling = true
is_late handling = false
is_late marked = false
is_late stopped = false
is_late (running fs) = true

abbrev pub is_calling : Phase → Bool
is_calling testing = false
is_calling polling = false
is_calling handling = false
is_calling marked = true
is_calling stopped = false
is_calling (running fs) = true

pub record Inv (s : State) : Type 0 where
  pub calling : s.loop.calling_pending_functors ≡ is_calling s.phase
  pub in_order : s.queued ≡ s.ran ++ (left s.phase ++ s.loop.pending_functors)
  pub woken : is_late s.phase ≡ true → 0 < length s.loop.pending_functors → 0 < s.wakeups + s.wakers
  pub quits : s.phase ≡ polling → s.loop.quit ≡ true → 0 < s.wakeups + s.wakers

queued_last :
    (s : State) (f : Functor)
    → s.queued ≡ s.ran ++ (left s.phase ++ s.loop.pending_functors)
    → s.queued ++ f ∷ [] ≡ s.ran ++ (left s.phase ++ (s.loop.pending_functors ++ f ∷ []))
queued_last s f e = rw (e, append_assoc, append_assoc)

pub Step-Inv : {s t : State} → Step s t → Inv s → Inv t
unfolding owed wakes push_functor begin_calling swap_pending end_calling stop_looping
Step-Inv (queue_from_outside s f) v = record {
  calling = v.calling;
  in_order = queued_last s f v.in_order;
  woken = λ _ _. omega arith;
  quits = λ _ _. omega arith;
}
Step-Inv (quit_from_outside s) v = record {
  calling = v.calling;
  in_order = v.in_order;
  woken = λ _ _. omega arith;
  quits = λ _ _. omega arith;
}
Step-Inv (wake s h) v = record {
  calling = v.calling;
  in_order = v.in_order;
  woken = λ _ _. omega arith;
  quits = λ _ _. omega arith;
}
Step-Inv (enter_poll s p q) v = record {
  calling = ground arith;
  in_order = ground arith;
  woken = λ _ h. v.woken (rw p refl) h;
  quits = λ _ e. cc (e, q);
}
Step-Inv (stop s p q) v = record {
  calling = ground arith;
  in_order = ground arith;
  woken = λ e. cc e;
  quits = λ e. cc e;
}
Step-Inv (poll_returns s p) v = record {
  calling = ground arith;
  in_order = ground arith;
  woken = λ e. cc e;
  quits = λ e. cc e;
}
Step-Inv (read_eventfd s p) v = record {
  calling = v.calling;
  in_order = v.in_order;
  woken = λ e. cc (ap is_late p, e);
  quits = λ e. cc (e, p);
}
Step-Inv (quit_inside s p) v = record {
  calling = v.calling;
  in_order = v.in_order;
  woken = v.woken;
  quits = λ e. absurd (p e);
}
Step-Inv (queue_while_handling s f p) v = record {
  calling = v.calling;
  in_order = queued_last s f v.in_order;
  woken = λ e. cc (ap is_late p, e);
  quits = λ e. cc (e, p);
}
Step-Inv (mark s p) v = record {
  calling = refl;
  in_order = ground arith;
  woken = λ e. cc e;
  quits = λ e. cc e;
}
Step-Inv (swap s p) v = record {
  calling = ground arith;
  in_order = ground (arith, append-nil s.loop.pending_functors);
  woken = λ _ h. absurd (omega arith);
  quits = λ e. cc e;
}
Step-Inv (run s f fs p) v = record {
  calling = ground arith;
  in_order = ground (arith, append_assoc s.ran (f ∷ []) (fs ++ s.loop.pending_functors));
  woken = λ _ h. v.woken (rw p refl) h;
  quits = λ e. cc e;
}
Step-Inv (queue_while_running s f fs p) v = record {
  calling = v.calling;
  in_order = queued_last s f v.in_order;
  woken = λ _ _. ground arith;
  quits = λ e. cc (e, p);
}
Step-Inv (finish s p) v = record {
  calling = refl;
  in_order = ground arith;
  woken = λ _ h. v.woken (rw p refl) h;
  quits = λ e. cc e;
}

pub Reach-Inv : {s t : State} → Inv s → Reach s t → Inv t
Reach-Inv v here = v
Reach-Inv v (next r st) = Step-Inv st (Reach-Inv v r)

started-Inv :
    (l : EventLoop) → l.calling_pending_functors ≡ false → l.pending_functors ≡ [] → Inv (started l)
unfolding start_looping
started-Inv l c e = record {
  calling = c;
  in_order = refl;
  woken = λ _ h. absurd (omega (arith, ap length e));
  quits = λ _ q. cc q;
}

pub functors_in_order :
    (l : EventLoop) (t : State)
    → l.calling_pending_functors ≡ false
    → l.pending_functors ≡ []
    → Reach (started l) t
    → t.queued ≡ t.ran ++ (left t.phase ++ t.loop.pending_functors)
functors_in_order l t c e r = (Reach-Inv (started-Inv l c e) r).in_order
