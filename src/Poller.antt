-- ===== src/Poller.antt =====
-- Poller.h, Poller.cc, EPOLLPoller.h and EPOLLPoller.cc: the channels of one event loop and their
-- registration with epoll. The calls of Channel and EventLoop that lead here pass on their argument.
pub mod Tracking
pub mod Frame
pub mod Registration
pub mod Polling
pub mod Registry
pub mod Creation
mod Tests
use moduo_write.Common.{
  ℕ, ◌*◌, Bool, true, false, none, some, List, [], ◌∷◌, ◌==◌, if◌then◌else◌, Outcome, done, exited,
  undefined, bind, length, ltb, ◌++◌, ◌%◌, ◌^◌,
}
use moduo_write.Common.Dict.{lookup, insert, erase}
use moduo_write.System.{
  Sys, Interest, CtlOp, ctl_add, ctl_mod, ctl_del, WaitResult, ready, wait_failed,
}
use moduo_write.Channel.{
  Channel, Index, k_new, k_added, k_deleted, set_index, set_revents, is_none_event, or_events,
  and_not_events, no_events, read_event, write_event,
}

-- `channels_` maps a descriptor to the address of its channel. `capacity` is `events_.size()`.
pub record Poller : Type 0 where
  pub epollfd : ℕ
  pub channels : List (ℕ × ℕ)
  pub capacity : ℕ

abbrev pub init_event_list_size : ℕ
init_event_list_size = 16

-- The constructor, with the descriptor that `epoll_create1` has returned.
unfoldable pub new : ℕ → Poller
new epollfd = record { epollfd = epollfd; channels = []; capacity = init_event_list_size }

unfoldable pub has_channel : Poller → Channel → Bool
has_channel p c = elim (lookup c.fd p.channels) [ none ↦ false | some a ↦ a == c.address ]

-- A failed deletion is logged; any other failure ends the process.
unfoldable pub ctl_result : CtlOp → Bool → Bool
ctl_result ctl_del success = true
ctl_result ctl_add success = success
ctl_result ctl_mod success = success

module _ {K : Type 0} (sys : Sys K) where
  unfoldable pub update : Poller → CtlOp → Channel → K → Outcome K
  update p op c k =
      let (success, k') =
        sys.epoll_ctl k p.epollfd op c.fd (record { mask = c.events; ptr = c.address }) in
      if ctl_result op success then done k' else exited

  -- By `channel->index()`.
  unfoldable pub update_by : Index → Poller → Channel → K → Outcome (Poller × Channel × K)
  update_by k_new p c k =
      let c' = set_index c k_added in
      bind (update (record p { channels = insert c.fd c.address p.channels }) ctl_add c' k)
        λ k'. done (record p { channels = insert c.fd c.address p.channels }, c', k')
  update_by k_deleted p c k =
      let c' = set_index c k_added in bind (update p ctl_add c' k) λ k'. done (p, c', k')
  update_by k_added p c k =
      if is_none_event c
      then (bind (update p ctl_del c k) λ k'. done (p, set_index c k_deleted, k'))
      else (bind (update p ctl_mod c k) λ k'. done (p, c, k'))

  unfoldable pub update_channel : Poller → Channel → K → Outcome (Poller × Channel × K)
  update_channel p c k = update_by c.index p c k

  unfoldable pub remove_by : Index → Poller → Channel → K → Outcome (Poller × Channel × K)
  remove_by k_added p c k = bind (update p ctl_del c k) λ k'. done (p, set_index c k_new, k')
  remove_by _ p c k = done (p, set_index c k_new, k)

  unfoldable pub remove_channel : Poller → Channel → K → Outcome (Poller × Channel × K)
  remove_channel p c k = remove_by c.index (record p { channels = erase c.fd p.channels }) c k

  unfoldable pub enable_reading : Poller → Channel → K → Outcome (Poller × Channel × K)
  enable_reading p c k = update_channel p (or_events c read_event) k

  unfoldable pub disable_reading : Poller → Channel → K → Outcome (Poller × Channel × K)
  disable_reading p c k = update_channel p (and_not_events c read_event) k

  unfoldable pub enable_writing : Poller → Channel → K → Outcome (Poller × Channel × K)
  enable_writing p c k = update_channel p (or_events c write_event) k

  unfoldable pub disable_writing : Poller → Channel → K → Outcome (Poller × Channel × K)
  disable_writing p c k = update_channel p (and_not_events c write_event) k

  unfoldable pub disable_all : Poller → Channel → K → Outcome (Poller × Channel × K)
  disable_all p c k = update_channel p (no_events c) k

-- The channels of the process, by address.
abbrev pub Channels : Type 0
Channels = List (ℕ × Channel)

-- `channel->set_revents(events_[i].events)`, where an event that names no channel is a dangling pointer.
unfoldable pub store_revents : Channels → Interest → Outcome Channels
store_revents store e = elim (lookup e.ptr store) [
  | none ↦ undefined
  | some c ↦ done (insert e.ptr (set_revents c e.mask) store)
]

unfoldable pub fill_active_channels :
    List Interest → Channels → List ℕ → Outcome (Channels × List ℕ)
fill_active_channels [] store active = done (store, active)
fill_active_channels (e ∷ es) store active =
    bind (store_revents store e) λ store'. fill_active_channels es store' (active ++ e.ptr ∷ [])

-- What `poll` does when `epoll_wait` has returned. A failure is at most logged.
unfoldable pub after_wait :
    WaitResult → Poller → Channels → List ℕ → Outcome (Poller × Channels × List ℕ)
after_wait (wait_failed errno) p store active = done (p, store, active)
after_wait (ready es) p store active =
    let n = length es in
    if ltb 0 n
    then bind (fill_active_channels es store active) (λ (store', active'). done (
      if n == p.capacity then record p { capacity = (p.capacity * 2) % 2 ^ 64 } else p,
      store',
      active',
    ))
    else done (p, store, active)

-- `static_cast<int>(events_.size())`, as the 32 bits that `epoll_wait` gets.
abbrev pub max_events : Poller → ℕ
max_events p = p.capacity % 2 ^ 32

-- `poll(timeoutMs, activeChannels)`, less the time stamp that it returns.
unfoldable pub poll :
    {K : Type 0}
    → Sys K
    → Poller
    → ℕ
    → Channels
    → List ℕ
    → K
    → Outcome (Poller × Channels × List ℕ × K)
poll sys p timeout store active k =
    let (r, k') = sys.epoll_wait k p.epollfd (max_events p) timeout in
    bind (after_wait r p store active) λ (p', store', active'). done (p', store', active', k')
