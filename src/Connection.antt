-- ===== src/Connection.antt =====
-- TcpConnection.h and TcpConnection.cc: one connection with its loop.
pub mod Object
pub mod Invariant
pub mod Opening
pub mod Sending
pub mod Conversation
pub mod Emptying
pub mod Flushing
pub mod Lifecycle
pub mod Events
pub mod Receiving
pub mod Requests
pub mod Returning
pub mod Unmoved
pub mod Sample
mod Tests
unfoldable pub use Object.*
use moduo_write.Common.{
  exited, ℕ, ◌*◌, ◌%◌, ◌^◌, Bool, true, false, ◌&&◌, ◌||◌, not, Option, none, some, List, ltb, leb,
  ◌==◌, if◌then◌else◌, length, take, drop, add_size, sub_size, Outcome, done, bad_call, undefined,
  bind,
}
use moduo_write.System.{Sys, IoResult, count, failed, ewouldblock, epipe, econnreset}
use moduo_write.Buffer.{Buffer, readable_bytes, retrieve, append, read_fd, write_fd}
use moduo_write.Buffer
use moduo_write.Channel.{
  Channel, tie_to, is_writing, set_read_callback, set_write_callback, set_close_callback,
  set_error_callback, no_callbacks,
}
use moduo_write.Channel
use moduo_write.Poller.{
  Poller, enable_reading, enable_writing, disable_writing, disable_all, remove_channel,
}
use moduo_write.EventLoop.{EventLoop, Functor, is_in_loop_thread, queue_in_loop}
use moduo_write.EventLoop
use moduo_write.System.Net.{Net}
use moduo_write.Socket.{set_keep_alive}

-- The members that the constructor initialises.
unfoldable pub new : ℕ → ℕ → ℕ → TcpConnection
new address channel_address sockfd = record {
  address = address;
  state = k_connecting;
  reading = true;
  channel = Channel.new channel_address sockfd;
  high_water_mark = 64 * 1024 * 1024;
  input_buffer = Buffer.new Buffer.initial_size;
  output_buffer = Buffer.new Buffer.initial_size;
}

-- `CheckLoopNotNull`.
unfoldable pub check_loop_not_null : Option ℕ → Outcome ℕ
check_loop_not_null none = exited
check_loop_not_null (some loop) = done loop

-- The whole constructor; the channel's callbacks are `channel_callbacks`.
unfoldable pub construct :
    {K : Type 0} → Net K → Option ℕ → ℕ → ℕ → ℕ → K → Outcome (TcpConnection × K)
construct net loop address channel_address sockfd k = bind (check_loop_not_null loop) λ l.
    done
      (new address channel_address sockfd, set_keep_alive net (record { sockfd = sockfd }) true k)

module _ {K : Type 0} where
  unfoldable pub set_state : StateE → World K → World K
  set_state s w = record w { conn = record w.conn { state = s } }

  pub set_output : Buffer → World K → World K
  set_output b w = record w { conn = record w.conn { output_buffer = b } }

  -- A call on the connection's channel, through its loop's poller.
  unfoldable pub on_channel :
      (Poller → Channel → K → Outcome (Poller × Channel × K)) → World K → Outcome (World K)
  on_channel f w = bind (f w.loop.poller w.conn.channel w.kernel) λ (p, c, k). done (record w {
    conn = record w.conn { channel = c };
    loop = record w.loop { poller = p };
    kernel = k;
  })

module _ {K : Type 0} (sys : Sys K) where
  pub queue : Functor → World K → World K
  queue f w =
      let (l, k) = queue_in_loop sys w.tid f w.loop w.kernel in record w { loop = l; kernel = k }

  -- `loop_->runInLoop(f)`, where `now` is what `f` does when it runs.
  pub run_in_loop : Functor → (World K → Outcome (World K)) → World K → Outcome (World K)
  run_in_loop f now w = if is_in_loop_thread w.loop w.tid then now w else done (queue f w)

  -- A failed `shutdown` is only logged.
  pub shutdown_write : World K → World K
  shutdown_write w = record w { kernel = (sys.shutdown w.kernel w.conn.channel.fd).1 }

  pub shutdown_in_loop : World K → Outcome (World K)
  shutdown_in_loop w = if not (is_writing w.conn.channel) then done (shutdown_write w) else done w

  pub shutdown : World K → Outcome (World K)
  shutdown w =
      if state_eq w.conn.state k_connected
      then run_in_loop (EventLoop.shutdown_in_loop w.conn.address) shutdown_in_loop
          (set_state k_disconnecting w)
      else done w

  -- The error is only logged; reading it clears it.
  pub handle_error : World K → Outcome (World K)
  handle_error w = done (record w { kernel = (sys.so_error w.kernel w.conn.channel.fd).1 })

  module _ (cb : Callbacks (World K)) where
    unfoldable pub handle_close : World K → Outcome (World K)
    handle_close w =
        bind (on_channel (disable_all sys) (set_state k_disconnected w))
          λ w₁. bind (call cb.connection_callback w₁) λ w₂. call cb.close_callback w₂

    -- After `readFd`, by its result.
    unfoldable pub after_read : IoResult → World K → Outcome (World K)
    after_read (count n) w = if ltb 0 n then call cb.message_callback w else handle_close w
    after_read (failed errno) w = handle_error w

    unfoldable pub handle_read : World K → Outcome (World K)
    handle_read w =
        let (n, b, k) = read_fd sys w.conn.input_buffer w.conn.channel.fd w.kernel in
        after_read n (record w { conn = record w.conn { input_buffer = b }; kernel = k })

    -- `if (writeCompleteCallback_) loop_->queueInLoop(…)`
    pub queue_write_complete : World K → World K
    queue_write_complete w =
        if is_callable cb.write_complete_callback
        then queue (EventLoop.write_complete w.conn.address) w
        else w

    -- When the output buffer has been emptied.
    pub output_done : World K → Outcome (World K)
    output_done w = bind (on_channel (disable_writing sys) w) λ w₁.
        let w₂ = queue_write_complete w₁ in
        if state_eq w₂.conn.state k_disconnecting then shutdown_in_loop w₂ else done w₂

    -- After `writeFd`, by its result.
    pub after_write : IoResult → World K → Outcome (World K)
    after_write (count n) w =
        if ltb 0 n
        then (let w₁ = set_output (retrieve w.conn.output_buffer n) w in
            if readable_bytes w₁.conn.output_buffer == 0 then output_done w₁ else done w₁)
        else done w
    after_write (failed errno) w = done w

    pub handle_write : World K → Outcome (World K)
    handle_write w =
        if is_writing w.conn.channel
        then elim (write_fd sys w.conn.output_buffer w.conn.channel.fd w.kernel) [
          | none ↦ undefined
          | some (n, k) ↦ after_write n (record w { kernel = k })
        ]
        else done w

    -- `if (oldLen + remaining >= highWaterMark_ && …) loop_->queueInLoop(…)`
    pub queue_high_water_mark : ℕ → ℕ → World K → World K
    queue_high_water_mark old_len remaining w =
        if leb w.conn.high_water_mark (add_size old_len remaining)
          && (ltb old_len w.conn.high_water_mark && is_callable cb.high_water_mark_callback)
        then queue (EventLoop.high_water_mark w.conn.address (add_size old_len remaining)) w
        else w

    -- The last part of `sendInLoop`: what was not written goes to the output buffer.
    pub buffer_rest : List ℕ → ℕ → ℕ → Bool → World K → Outcome (World K)
    buffer_rest bytes nwrote remaining fault_error w =
        if not fault_error && ltb 0 remaining
        then (let w₁ = queue_high_water_mark (readable_bytes w.conn.output_buffer) remaining w in
            let w₂ =
              set_output (append w₁.conn.output_buffer (take remaining (drop nwrote bytes))) w₁ in
            if not (is_writing w₂.conn.channel)
            then on_channel (enable_writing sys) w₂
            else done w₂)
        else done w

    -- After the direct `write` of `sendInLoop`, by its result.
    pub after_direct_write : List ℕ → IoResult → World K → Outcome (World K)
    after_direct_write bytes (count nwrote) w =
        let remaining = sub_size (length bytes) nwrote in
        buffer_rest bytes nwrote remaining false
          (if remaining == 0 then queue_write_complete w else w)
    after_direct_write bytes (failed errno) w =
        buffer_rest bytes 0 (length bytes)
          (not (errno == ewouldblock) && (errno == epipe || errno == econnreset)) w

    -- `sendInLoop(data, len)`; the list is the `len` bytes at `data`.
    pub send_in_loop : List ℕ → World K → Outcome (World K)
    send_in_loop bytes w =
        if state_eq w.conn.state k_disconnected
        then done w
        else if not (is_writing w.conn.channel) && readable_bytes w.conn.output_buffer == 0
        then (let (n, k) = sys.write w.kernel w.conn.channel.fd bytes in
            after_direct_write bytes n (record w { kernel = k }))
        else buffer_rest bytes 0 (length bytes) false w

    -- The size of the string becomes the `int` parameter of `sendInLoop`: 32 bits, and what would be
    -- negative there is a wrong length for `write`.
    pub send_size : List ℕ → World K → Outcome (World K)
    send_size bytes w =
        let len = length bytes % 2 ^ 32 in
        if ltb len (2 ^ 31) then send_in_loop (take len bytes) w else undefined

    -- `send(buf)`, where `buf` holds `bytes` at the address `data`. In another thread the address is
    -- queued, and not the bytes.
    pub send : ℕ → List ℕ → World K → Outcome (World K)
    send address bytes w =
        if state_eq w.conn.state k_connected
        then (if is_in_loop_thread w.loop w.tid
            then send_size bytes w
            else run_in_loop (EventLoop.send_in_loop w.conn.address address (length bytes % 2 ^ 32))
                (send_size bytes) w)
        else done w

    unfoldable pub connect_established : World K → Outcome (World K)
    connect_established w =
        let w₁ = set_state k_connected w in
        let w₂ = record w₁ {
          conn = record w₁.conn { channel = tie_to w₁.conn.channel w.conn.address };
        } in
        bind (on_channel (enable_reading sys) w₂) λ w₃. call cb.connection_callback w₃

    unfoldable pub connect_destroyed : World K → Outcome (World K)
    connect_destroyed w =
        bind
          (if state_eq w.conn.state k_connected
            then (bind (on_channel (disable_all sys) (set_state k_disconnected w))
                λ w₁. call cb.connection_callback w₁)
            else done w)
          (on_channel (remove_channel sys))

    -- What the constructor sets in the channel.
    unfoldable pub channel_callbacks : Channel.Callbacks (World K)
    channel_callbacks = set_error_callback handle_error (
        set_close_callback handle_close
          (set_write_callback handle_write (set_read_callback handle_read no_callbacks)))
