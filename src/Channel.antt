-- ===== src/Channel.antt =====
-- Channel.h and Channel.cc: a descriptor with the events it waits for and the callbacks for them.
-- `update` and `remove` go through the event loop to its poller, and stand in Poller.antt.
pub mod Dispatch
mod Tests
use moduo_write.Common.{
  ℕ, Bool, true, false, ◌&&◌, not, Option, none, some, if◌then◌else◌, Outcome, done, bind,
}
use moduo_write.System.{
  Mask, mask_zero, mask_or, mask_and, mask_not, is_set, in_bit, pri_bit, out_bit, err_bit, hup_bit,
}

-- `index_`: the constants kNew (-1), kAdded (1) and kDeleted (2) of EPOLLPoller.cc.
pub data Index : Type 0 where
  k_new k_added k_deleted : Index

-- `address` is the channel's own address. `tie` is the object that `tie_` observes.
pub record Channel : Type 0 where
  pub address : ℕ
  pub fd : ℕ
  pub events : Mask
  pub revents : Mask
  pub index : Index
  pub tie : ℕ
  pub tied : Bool

abbrev pub none_event : Mask
none_event = mask_zero

abbrev pub read_event : Mask
read_event = mask_or in_bit pri_bit

abbrev pub write_event : Mask
write_event = out_bit

-- The constructor.
unfoldable pub new : ℕ → ℕ → Channel
new address fd = record {
  address = address;
  fd = fd;
  events = mask_zero;
  revents = mask_zero;
  index = k_new;
  tie = 0;
  tied = false;
}

unfoldable pub tie_to : Channel → ℕ → Channel
tie_to c obj = record c { tie = obj; tied = true }

abbrev pub set_revents : Channel → Mask → Channel
set_revents c revt = record c { revents = revt }

abbrev pub set_index : Channel → Index → Channel
set_index c idx = record c { index = idx }

-- How each of the five setters changes `events_`, before it calls `update`.
abbrev pub or_events : Channel → Mask → Channel
or_events c m = record c { events = mask_or c.events m }

abbrev pub and_not_events : Channel → Mask → Channel
and_not_events c m = record c { events = mask_and c.events (mask_not m) }

abbrev pub no_events : Channel → Channel
no_events c = record c { events = none_event }

abbrev pub is_none_event : Channel → Bool
is_none_event c = not (is_set c.events)

abbrev pub is_writing : Channel → Bool
is_writing c = is_set (mask_and c.events write_event)

abbrev pub is_reading : Channel → Bool
is_reading c = is_set (mask_and c.events read_event)

-- The four callbacks, on a state `W`. An empty `std::function` is `none`.
pub record Callbacks (W : Type 0) : Type 0 where
  pub read_callback : Option (W → Outcome W)
  pub write_callback : Option (W → Outcome W)
  pub close_callback : Option (W → Outcome W)
  pub error_callback : Option (W → Outcome W)

module _ {W : Type 0} where
  unfoldable pub set_read_callback : (W → Outcome W) → Callbacks W → Callbacks W
  set_read_callback f cb = record cb { read_callback = some f }

  unfoldable pub set_write_callback : (W → Outcome W) → Callbacks W → Callbacks W
  set_write_callback f cb = record cb { write_callback = some f }

  unfoldable pub set_close_callback : (W → Outcome W) → Callbacks W → Callbacks W
  set_close_callback f cb = record cb { close_callback = some f }

  unfoldable pub set_error_callback : (W → Outcome W) → Callbacks W → Callbacks W
  set_error_callback f cb = record cb { error_callback = some f }

  -- Before any is set.
  unfoldable pub no_callbacks : Callbacks W
  no_callbacks = record {
    read_callback = none;
    write_callback = none;
    close_callback = none;
    error_callback = none;
  }

  -- `if (callback_) callback_();`
  unfoldable pub call_if_set : Option (W → Outcome W) → W → Outcome W
  call_if_set none w = done w
  call_if_set (some f) w = f w

  -- `if (test) { if (callback_) callback_(); }`
  unfoldable pub call_when : Bool → Option (W → Outcome W) → W → Outcome W
  call_when test callback w = if test then call_if_set callback w else done w

  -- `revents_` is read again at each test; no callback of the library changes it.
  unfoldable pub handle_event_with_guard : Callbacks W → Mask → W → Outcome W
  handle_event_with_guard cb revents w =
      bind
        (call_when (is_set (mask_and revents hup_bit) && not (is_set (mask_and revents in_bit)))
          cb.close_callback w)
        λ w₁. bind (call_when (is_set (mask_and revents err_bit)) cb.error_callback w₁) λ w₂.
          bind (call_when (is_set (mask_and revents (mask_or in_bit pri_bit))) cb.read_callback w₂)
            λ w₃. call_when (is_set (mask_and revents out_bit)) cb.write_callback w₃

  -- `alive` tells whether `tie_.lock()` gives an object.
  unfoldable pub handle_event : (ℕ → Bool) → Callbacks W → Channel → W → Outcome W
  handle_event alive cb c w =
      if c.tied
      then (if alive c.tie then handle_event_with_guard cb c.revents w else done w)
      else handle_event_with_guard cb c.revents w
