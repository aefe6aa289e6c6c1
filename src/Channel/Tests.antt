-- ===== src/Channel/Tests.antt =====
-- The dispatch of a hang-up with an error and urgent data, by callbacks that note that they have run.
use moduo_write.Common.{◌≡◌, refl, true, some, none, List, [], ◌∷◌, ◌++◌, done}
use moduo_write.System.{mask_or, hup_bit, err_bit, pri_bit}
use moduo_write.Channel.{
  Channel, Callbacks, k_added, read_event, handle_event, handle_event_with_guard, call_when,
  call_if_set,
}
use moduo_write.Channel.Dispatch.{Kind, close, error, read, write, run_due, handle_event-in_order}

abbrev noting : Callbacks (List Kind)
noting = record {
  read_callback = some (λ ks. done (ks ++ read ∷ []));
  write_callback = some (λ ks. done (ks ++ write ∷ []));
  close_callback = some (λ ks. done (ks ++ close ∷ []));
  error_callback = none;
}

abbrev hung_up : Channel
hung_up = record {
  address = 2;
  fd = 5;
  events = read_event;
  revents = mask_or hup_bit (mask_or err_bit pri_bit);
  index = k_added;
  tie = 1;
  tied = true;
}

noted : handle_event (λ obj. true) noting hung_up [] ≡ done (close ∷ read ∷ [])
unfolding handle_event handle_event_with_guard call_when call_if_set
noted = refl

handle_event-in_order_example :
    handle_event (λ obj. true) noting hung_up []
    ≡ run_due noting hung_up.revents (close ∷ error ∷ read ∷ write ∷ []) []
handle_event-in_order_example = handle_event-in_order (λ obj. true) noting hung_up []
