-- ===== src/Poller/Polling.antt =====
-- EPOLLPoller.cc, `poll`: what the loop learns of the events that epoll reports.
use moduo_write.Common.{
  ℕ, ◌*◌, ◌%◌, ◌^◌, ◌≤◌, ◌≡◌, ◌≢◌, refl, sym, ap, ◌∙◌, Mem, done, undefined, bind, Option, none,
  some, List, [], ◌∷◌, ◌++◌, map, append-nil, append_assoc, arith, ltb, ◌==◌, if◌then◌else◌, length,
  ◌<◌, true,
}
use moduo_write.Common.Dict.{lookup, insert, lookup-insert}
use moduo_write.System.{Sys, SysLaws, Mask, Interest, WaitResult, ready, wait_failed}
use moduo_write.Channel.{Channel, set_revents}
use mathlib.Core.List.{mem-cons_self, mem-cons_of_mem}
use moduo_write.Poller.{
  Poller, Channels, store_revents, fill_active_channels, after_wait, max_events, poll,
}

-- The mask that a channel is left with: that of the last event for it, or its own.
abbrev pub last_mask : ℕ → List Interest → Mask → Mask
last_mask a [] m = m
last_mask a (e ∷ es) m = last_mask a es (if e.ptr == a then e.mask else m)

-- A channel, if there is one, with its `revents` changed.
abbrev pub remark : (Mask → Mask) → Option Channel → Option Channel
remark f none = none
remark f (some c) = some (set_revents c (f c.revents))

remark-id : (o : Option Channel) → o ≡ remark (λ m. m) o
remark-id none = refl
remark-id (some c) = refl

remark-remark :
    (f g : Mask → Mask) (o : Option Channel) → remark f (remark g o) ≡ remark (λ m. f (g m)) o
remark-remark f g none = refl
remark-remark f g (some c) = refl

remark-some : (f : Mask → Mask) (o : Option Channel) → o ≢ none → remark f o ≢ none
remark-some f none h = absurd (h refl)
remark-some f (some c) h = λ e. cc e

-- Every event names a channel that is there.
abbrev pub AreLive : List Interest → Channels → Type 0
AreLive es store = (v : Interest) → Mem v es → lookup v.ptr store ≢ none

store_revents-remark :
    (e : Interest) (store : Channels)
    → lookup e.ptr store ≢ none
    → (store' : Channels) × (store_revents store e ≡ done store')
      × ((a : ℕ)
          → lookup a store' ≡ remark (λ m. if e.ptr == a then e.mask else m) (lookup a store))
unfolding store_revents
store_revents-remark e store live = go (lookup e.ptr store) refl
  where
    go :
        (o : Option Channel)
        → lookup e.ptr store ≡ o
        → (store' : Channels) × (elim o [
          | none ↦ undefined
          | some c ↦ done (insert e.ptr (set_revents c e.mask) store)
        ]
            ≡ done store')
          × ((a : ℕ)
              → lookup a store' ≡ remark (λ m. if e.ptr == a then e.mask else m) (lookup a store))
    go none unknown = absurd (live unknown)
    go (some c) known = (
      insert e.ptr (set_revents c e.mask) store,
      refl,
      λ a.
          ground
            (arith, lookup-insert e.ptr a (set_revents c e.mask) store, remark-id (lookup a store)),
    )

fill_active_channels-remark :
    (es : List Interest) (store : Channels) (active : List ℕ)
    → AreLive es store
    → (store' : Channels) × (fill_active_channels es store active
        ≡ done (store', active ++ map (λ e. e.ptr) es))
      × ((a : ℕ) → lookup a store' ≡ remark (last_mask a es) (lookup a store))
unfolding fill_active_channels
fill_active_channels-remark [] store active live =
    (store, ap (λ xs. done (store, xs)) (sym (append-nil active)), λ a. remark-id (lookup a store))
fill_active_channels-remark (e ∷ es) store active live =
    let (store₁, returns, marks) = store_revents-remark e store (live e mem-cons_self) in
    let live₁ : AreLive es store₁ = λ v m none_there.
      remark-some (λ x. if e.ptr == v.ptr then e.mask else x) (lookup v.ptr store)
        (live v (mem-cons_of_mem e m)) (sym (marks v.ptr) ∙ none_there) in
    let (store', fills, marks') =
      fill_active_channels-remark es store₁ (active ++ e.ptr ∷ []) live₁ in
    (
      store',
      ap (λ m. bind m λ s. fill_active_channels es s (active ++ e.ptr ∷ [])) returns
          ∙ fills
          ∙ ap (λ xs. done (store', xs)) (append_assoc active (e.ptr ∷ []) (map (λ v. v.ptr) es)),
      λ a.
          marks' a
          ∙ ap (remark (last_mask a es)) (marks a)
          ∙ remark-remark (last_mask a es) (λ m. if e.ptr == a then e.mask else m) (lookup a store),
    )

-- The events that `epoll_wait` reports: none where it fails.
abbrev pub events_of : WaitResult → List Interest
events_of (ready es) = es
events_of (wait_failed errno) = []

-- What `poll` makes of the events `es`.
pub record Polled (es : List Interest) (p : Poller) (store : Channels) (active : List ℕ)
    (p' : Poller) (store' : Channels) (active' : List ℕ) : Type 0 where
  pub active_channels : active' ≡ active ++ map (λ e. e.ptr) es
  pub revents : (a : ℕ) → lookup a store' ≡ remark (last_mask a es) (lookup a store)
  pub list_size :
      p'.capacity ≡ (if length es == p.capacity then (p.capacity * 2) % 2 ^ 64 else p.capacity)
  pub same_channels : p'.channels ≡ p.channels
  pub same_epollfd : p'.epollfd ≡ p.epollfd

-- What is left of the poller, the channels and the active ones.
abbrev Results : Type 0
Results = Poller × Channels × List ℕ

after_wait-Polled :
    (r : WaitResult) (p : Poller) (store : Channels) (active : List ℕ)
    → 0 < p.capacity
    → AreLive (events_of r) store
    → (x : Results) × (after_wait r p store active ≡ done x)
      × Polled (events_of r) p store active x.0 x.1 x.2
unfolding after_wait
after_wait-Polled (wait_failed errno) p store active pos live = (
  (p, store, active),
  refl,
  record {
    active_channels = rw append-nil;
    revents = λ a. remark-id (lookup a store);
    list_size = ground arith;
    same_channels = refl;
    same_epollfd = refl;
  },
)
after_wait-Polled (ready []) p store active pos live = (
  (p, store, active),
  refl,
  record {
    active_channels = rw append-nil;
    revents = λ a. remark-id (lookup a store);
    list_size = ground arith;
    same_channels = refl;
    same_epollfd = refl;
  },
)
after_wait-Polled (ready (e ∷ es)) p store active pos live =
    let some_events : ltb 0 (length (e ∷ es)) ≡ true = ground arith in
    let (store', fills, marks) = fill_active_channels-remark (e ∷ es) store active live in
    let p' : Poller =
      if length (e ∷ es) == p.capacity
      then record p { capacity = (p.capacity * 2) % 2 ^ 64 }
      else p in
    (
      (p', store', active ++ map (λ v. v.ptr) (e ∷ es)),
      rw (some_events, fills) refl,
      record {
        active_channels = refl;
        revents = marks;
        list_size = ground arith;
        same_channels = ground arith;
        same_epollfd = ground arith;
      },
    )

-- Where every event that `epoll_wait` reports names a channel that is there, `poll` returns. It adds
-- these channels to the active ones, in order, and stores each event's mask in its channel; all other
-- channels stay as they are. The list for the events, which `epoll_wait` never exceeds, is doubled
-- when it was full. A failed `epoll_wait` changes nothing.
pub poll-Polled :
    {K : Type 0} {sys : Sys K} (laws : SysLaws sys) (p : Poller) (timeout : ℕ) (store : Channels)
    (active : List ℕ) (k : K)
    → 0 < p.capacity
    → let (r, k') = sys.epoll_wait k p.epollfd (max_events p) timeout in
      AreLive (events_of r) store
      → (x : Results) × (poll sys p timeout store active k ≡ done (x.0, x.1, x.2, k'))
        × Polled (events_of r) p store active x.0 x.1 x.2
        × (length (events_of r) ≤ p.capacity)
unfolding poll
poll-Polled {sys = sys} laws p timeout store active k pos live =
    let (r, k') = sys.epoll_wait k p.epollfd (max_events p) timeout in
    let (x, returns, polled) = after_wait-Polled r p store active pos live in
    (
      x,
      ap (λ m. bind m λ (p', store', active'). done (p', store', active', k')) returns,
      polled,
      within r refl,
    )
  where
    within :
        (r : WaitResult)
        → (sys.epoll_wait k p.epollfd (max_events p) timeout).0 ≡ r
        → length (events_of r) ≤ p.capacity
    within (ready es) e =
        let few = laws.wait_count k p.epollfd (max_events p) timeout es e in omega arith
    within (wait_failed errno) e = omega arith
