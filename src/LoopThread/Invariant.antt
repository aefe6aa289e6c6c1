-- ===== src/LoopThread/Invariant.antt =====
-- EventLoopThread.cc: what holds of the owner and the new thread at every point of a run.
use moduo_write.Common.{
  ℕ, ◌≡◌, refl, ◌∙◌, Bool, true, false, not, ◌||◌, ◌⊎◌, inl, inr, Option, none, some, arith,
}
use moduo_write.Thread.{Thread, set_started, set_joined, set_tid}
use moduo_write.LoopThread.{
  Owner, idle, waiting, locking, checking, sleeping, woken, quitting, joining, gone, broken,
  returned, Worker, absent, entered, posting, constructing, calling_back, notifying, starting,
  looping, clearing, closing, finished, State, notified, Step, start, sem_wait, lock, relock, wait,
  wake_spuriously, take_loop, destroy, destroy_null, call_quit, call_quit_null, call_quit_dangling,
  join, store_tid, post, construct, call_back, publish, notify, begin_looping, quit_inside,
  end_looping, clear, close, Reach, here, next, new,
}

-- What the position of the owner says.
abbrev pub is_idle : Owner → Bool
is_idle idle = true
is_idle _ = false

abbrev pub is_waiting : Owner → Bool
is_waiting waiting = true
is_waiting _ = false

abbrev pub owner_holds : Owner → Bool
owner_holds checking = true
owner_holds _ = false

abbrev pub is_asleep : Owner → Bool
is_asleep sleeping = true
is_asleep _ = false

-- `startLoop` has returned.
abbrev pub has_returned : Owner → Bool
has_returned (returned l) = true
has_returned quitting = true
has_returned joining = true
has_returned gone = true
has_returned broken = true
has_returned _ = false

abbrev pub is_joining : Owner → Bool
is_joining joining = true
is_joining _ = false

abbrev pub is_gone : Owner → Bool
is_gone gone = true
is_gone _ = false

-- What the position of the new thread says.
abbrev pub is_absent : Worker → Bool
is_absent absent = true
is_absent _ = false

-- It has stored its number.
abbrev pub has_tid : Worker → Bool
has_tid absent = false
has_tid entered = false
has_tid _ = true

abbrev pub has_posted : Worker → Bool
has_posted absent = false
has_posted entered = false
has_posted posting = false
has_posted _ = true

abbrev pub is_alive : Worker → Bool
is_alive absent = false
is_alive entered = false
is_alive posting = false
is_alive constructing = false
is_alive finished = false
is_alive _ = true

abbrev pub is_initialised : Worker → Bool
is_initialised absent = false
is_initialised entered = false
is_initialised posting = false
is_initialised constructing = false
is_initialised calling_back = false
is_initialised _ = true

abbrev pub worker_holds : Worker → Bool
worker_holds notifying = true
worker_holds _ = false

-- `loop_` is set now, and it has been set.
abbrev pub is_published : Worker → Bool
is_published notifying = true
is_published starting = true
is_published looping = true
is_published clearing = true
is_published _ = false

abbrev pub was_published : Worker → Bool
was_published notifying = true
was_published starting = true
was_published looping = true
was_published clearing = true
was_published closing = true
was_published finished = true
was_published _ = false

-- The owner was notified and will find the loop.
abbrev pub is_announced : Worker → Bool
is_announced starting = true
is_announced looping = true
is_announced clearing = true
is_announced _ = false

abbrev pub is_finished : Worker → Bool
is_finished finished = true
is_finished _ = false

abbrev pub loop_if : Bool → ℕ → Option ℕ
loop_if true l = some l
loop_if false l = none

abbrev pub as_number : Bool → ℕ
as_number true = 1
as_number false = 0

-- What `startLoop` has returned, or `d`.
abbrev pub loop_returned : Owner → ℕ → ℕ
loop_returned (returned l) d = l
loop_returned _ d = d

pub record Inv (own tid : ℕ) (s : State) : Type 0 where
  pub begun : is_idle s.owner ≡ is_absent s.worker
  pub loop : s.loop ≡ loop_if (is_published s.worker) own
  pub alive : s.alive ≡ is_alive s.worker
  pub initialised : s.initialised ≡ is_initialised s.worker
  pub numbered : has_tid s.worker ≡ true → s.thread.tid ≡ tid
  pub mutex : s.has_mutex ≡ (owner_holds s.owner || worker_holds s.worker)
  pub exclusive : owner_holds s.owner ≡ true → worker_holds s.worker ≡ false
  pub sem : is_waiting s.owner ≡ true → s.sem ≡ as_number (has_posted s.worker)
  pub asleep : is_asleep s.owner ≡ true → is_announced s.worker ≡ false
  pub result : has_returned s.owner ≡ true → was_published s.worker ≡ true
  pub own_loop : loop_returned s.owner own ≡ own
  pub started : s.thread.started ≡ not (is_idle s.owner)
  pub joins : is_gone s.owner ≡ false → s.thread.joined ≡ is_joining s.owner
  pub joined : is_gone s.owner ≡ true → s.thread.joined ≡ true → is_finished s.worker ≡ true

notified-cases : (o : Owner) → ((o ≡ sleeping) × (notified o ≡ woken)) ⊎ (notified o ≡ o)
unfolding notified
notified-cases sleeping = inl (refl, refl)
notified-cases idle = inr refl
notified-cases waiting = inr refl
notified-cases locking = inr refl
notified-cases checking = inr refl
notified-cases woken = inr refl
notified-cases quitting = inr refl
notified-cases joining = inr refl
notified-cases gone = inr refl
notified-cases broken = inr refl
notified-cases (returned l) = inr refl

notified-awake : (o : Owner) → is_asleep (notified o) ≡ false
unfolding notified
notified-awake o = ground arith

pub Step-Inv : {own tid : ℕ} {s t : State} → Step own tid s t → Inv own tid s → Inv own tid t
unfolding set_started set_joined set_tid
Step-Inv (start s p) v = ground arith
Step-Inv (sem_wait s p h) v = ground arith
Step-Inv (lock s p h) v = ground arith
Step-Inv (relock s p h) v = ground arith
Step-Inv (wait s p h) v = ground arith
Step-Inv (wake_spuriously s p) v = ground arith
Step-Inv (take_loop s l p h) v = ground arith
Step-Inv (destroy s l m p h) v = ground arith
Step-Inv (destroy_null s l p h) v = ground arith
Step-Inv (call_quit s l p h a) v = ground arith
Step-Inv (call_quit_null s p h) v = ground arith
Step-Inv (call_quit_dangling s l p h a) v = ground arith
Step-Inv (join s p h) v = ground arith
Step-Inv (store_tid s p) v = ground arith
Step-Inv (post s p) v = ground arith
Step-Inv (construct s p) v = ground arith
Step-Inv (call_back s p) v = ground arith
Step-Inv (publish s p h) v = ground arith
Step-Inv (notify s p) v = ground (arith, notified-cases s.owner, notified-awake s.owner)
Step-Inv (begin_looping s p) v = ground arith
Step-Inv (quit_inside s p) v = ground arith
Step-Inv (end_looping s p h) v = ground arith
Step-Inv (clear s p h) v = ground arith
Step-Inv (close s p) v = ground arith

pub Reach-Inv : {own tid : ℕ} {s t : State} → Inv own tid s → Reach own tid s t → Inv own tid t
Reach-Inv v here = v
Reach-Inv v (next r st) = Step-Inv st (Reach-Inv v r)

published-facts :
    (w : Worker) → was_published w ≡ true → (has_tid w ≡ true) × (is_initialised w ≡ true)
published-facts w e = ground arith

published-alive : (w : Worker) → is_published w ≡ true → is_alive w ≡ true
published-alive w e = ground arith

pub new-Inv :
    (own tid : ℕ) (thread : Thread)
    → thread.started ≡ false
    → thread.joined ≡ false
    → Inv own tid (new thread)
unfolding new
new-Inv own tid thread h j = ground arith

-- Once `startLoop` has returned, it has returned the loop of the new thread. By then the thread is
-- started and its number is known, the init callback has run on the loop, and `loop_` was set; while
-- `loop_` is set, the loop that it points to exists.
pub start_loop-own :
    (own tid : ℕ) (thread : Thread) (t : State) (l : ℕ)
    → thread.started ≡ false
    → thread.joined ≡ false
    → Reach own tid (new thread) t
    → t.owner ≡ returned l
    → (l ≡ own)
      × (t.thread.started ≡ true)
      × (t.thread.tid ≡ tid)
      × (t.initialised ≡ true)
      × ((m : ℕ) → t.loop ≡ some m → (m ≡ own) × (t.alive ≡ true))
start_loop-own own tid thread t l h j r e =
    let v = Reach-Inv (new-Inv own tid thread h j) r in
    let (own_loop, rest) : (l ≡ own) × (was_published t.worker ≡ true) =
      (ground arith, v.result (rw e refl)) in
    let published = published-facts t.worker rest in
    (
      own_loop,
      v.started ∙ rw e refl,
      v.numbered published.0,
      v.initialised ∙ published.1,
      λ m set. ground (arith, published-alive t.worker),
    )
