-- ===== src/Connection/Tests.antt =====
-- The theorems on a connection at concrete inputs: a socket that takes at most two bytes at a time.
use moduo_write.Common.{inl, true, ℕ, List, ◌++◌, ◌≡◌, refl, some, [], ◌∷◌, arith, done, Ensures}
use moduo_write.System.Toy.{Toy, toy, toy_laws}
use moduo_write.EventLoop.{EventLoop}
use moduo_write.EventLoop
use moduo_write.Connection.{
  channel_callbacks, World, Callbacks, send_in_loop, handle_read, handle_close, connect_established,
  connect_destroyed,
}
use moduo_write.Connection.Sample.{connected, connecting, connected-Inv, connecting-Inv}
use moduo_write.Buffer.Contents.{contents}
use moduo_write.Connection.Invariant.{Inv}
use moduo_write.System.{mask_or, in_bit, out_bit, err_bit, hup_bit}
use moduo_write.Channel.{handle_event}
use moduo_write.Connection.Events.{WellBehaved, handle_event-Inv}
use moduo_write.Connection.Conversation.{quiet, sends, delivered_in_order}
use moduo_write.Connection.Sending.{Sent}
use moduo_write.Connection.Returning.{send_in_loop-returns}
use moduo_write.Connection.Receiving.{handle_read-Ensures}
use moduo_write.Connection.Lifecycle.{
  Closed, handle_close-Closed, Removed, connect_destroyed-Removed,
}
use moduo_write.Connection.Opening.{Established, connect_established-Established}

abbrev callbacks : Callbacks (World Toy)
callbacks = record {
  connection_callback = some done;
  message_callback = some done;
  write_complete_callback = some done;
  high_water_mark_callback = some (λ n. done);
  close_callback = some done;
}

handle_close-Closed_example : Ensures (Closed toy_laws) (handle_close toy callbacks connected)
handle_close-Closed_example =
    handle_close-Closed toy_laws callbacks done done connected refl refl (λ w c. c) (λ w c. c)
      connected-Inv tt

connect_destroyed-Removed_example :
    Ensures (Removed toy_laws) (connect_destroyed toy callbacks connected)
connect_destroyed-Removed_example =
    connect_destroyed-Removed toy_laws callbacks done done connected (λ e. (refl, λ w c. c))
      connected-Inv

connect_established-Established_example :
    Ensures (Established toy_laws) (connect_established toy callbacks connecting)
connect_established-Established_example =
    connect_established-Established toy_laws callbacks done connecting refl (λ w e. e)
      connecting-Inv refl

handle_read-Ensures_example : Ensures (Inv toy_laws) (handle_read toy callbacks connected)
handle_read-Ensures_example =
    handle_read-Ensures toy_laws callbacks done done done (Inv toy_laws) connected refl refl refl
      (λ w c. c) (λ w c. c) connected-Inv tt (omega arith) (λ bytes w r pos k a. a.inv)
      (λ w r c. c.inv) (λ e w r a. a.inv)

abbrev sent_bytes : List ℕ
sent_bytes = 1 ∷ 2 ∷ 3 ∷ []

abbrev sent_world :
    (w : World Toy) × (send_in_loop toy callbacks sent_bytes connected ≡ done w)
    × Sent toy_laws callbacks connected sent_bytes w
sent_world =
    send_in_loop-returns toy (λ k e op fd v. refl) callbacks toy_laws sent_bytes connected
      connected-Inv tt (omega arith) (omega arith)

delivered_in_order_example :
    Inv toy_laws sent_world.0
    × (toy_laws.sent sent_world.0.kernel sent_world.0.conn.channel.fd
          ++ contents sent_world.0.conn.output_buffer
        ≡ toy_laws.sent connected.kernel connected.conn.channel.fd ++ ([] ++ sent_bytes))
delivered_in_order_example =
    delivered_in_order toy_laws callbacks connected sent_world.0 ([] ++ sent_bytes) connected-Inv
      refl
      (sends [] sent_bytes connected sent_world.0 quiet tt (omega arith) (omega arith)
        (λ (e, h, which). cc h) sent_world.1)

-- The peer has sent data and reset the connection, and the socket can be written.
abbrev alarmed : World Toy
alarmed = record connected {
  conn = record connected.conn {
    channel = record connected.conn.channel {
      revents = mask_or in_bit (mask_or out_bit (mask_or err_bit hup_bit));
    };
  };
}

alarmed-Inv : Inv toy_laws alarmed
alarmed-Inv = record {
  input = connected-Inv.input;
  output = connected-Inv.output;
  tracked = record {
    in_map = connected-Inv.tracked.in_map;
    in_epoll = connected-Inv.tracked.in_epoll;
  };
  other_fd = connected-Inv.other_fd;
  registered = connected-Inv.registered;
}

callbacks-WellBehaved : WellBehaved toy_laws callbacks done done done
callbacks-WellBehaved = record {
  has_connection = refl;
  has_message = refl;
  has_close = refl;
  connection = λ w c. c;
  closing = λ w c. c;
  message = λ w v o. inl (v, o);
}

handle_event-Inv_example :
    Ensures
      (Inv toy_laws)
      (handle_event (λ obj. true) (channel_callbacks toy callbacks) alarmed.conn.channel alarmed)
handle_event-Inv_example =
    handle_event-Inv toy_laws callbacks done done done (λ obj. true) alarmed refl
      callbacks-WellBehaved alarmed-Inv tt (omega arith)
