-- ===== src/Connection/Sending.antt =====
-- TcpConnection.cc, `sendInLoop`: every byte reaches the socket or the output buffer, in order.
use moduo_write.Common.{
  ℕ, ◌+◌, ◌<◌, ◌≡◌, refl, sym, ap, ◌∙◌, ◌⊎◌, inl, inr, Bool, true, false, not, ◌&&◌, ◌||◌, List, [],
  ◌++◌, append-nil, append_assoc, arith, length, take, drop, ltb, ◌==◌, if◌then◌else◌, sub_size,
  nil_of_length, take_all, drop_all, length-append, length-drop, take-append-drop, Bool-cases, done,
  Ensures, Ensures-mono,
}
use moduo_write.System.{Sys, SysLaws, IoResult, count, failed, ewouldblock, epipe, econnreset}
use moduo_write.Buffer.{Buffer, readable_bytes, append}
use moduo_write.Buffer.Contents.{
  IsValid, contents, max_size, readable_bytes-length, append-contents,
}
use moduo_write.Channel.{Channel, is_writing, or_events, write_event, set_index}
use moduo_write.Poller.Tracking.{index_after}
use moduo_write.Poller.{enable_writing}
use moduo_write.Connection.{
  World, Callbacks, StateE, k_connecting, k_connected, k_disconnecting, set_output, on_channel,
  buffer_rest, after_direct_write, send_in_loop, queue_write_complete, state_eq, k_disconnected,
}
use moduo_write.Connection.Invariant.{
  Inv, stream, Kept, Kept-refl, Kept-Inv, write-Inv, Kept-stream, queue_high_water_mark-Kept,
  queue_write_complete-Kept, Changed, Changed-Inv, Changed-stream, on_channel-Changed, IsOpen,
  Registered-open, open-Registered, RegisteredOpen, has_output,
}

-- An open channel that is told to wait for writing stays registered.
writing-RegisteredOpen :
    (c : Channel) (b b' : Buffer)
    → RegisteredOpen c b
    → has_output b' ≡ true
    → RegisteredOpen
        (set_index (or_events c write_event) (index_after c.index (or_events c write_event)))
        b'
writing-RegisteredOpen c b b' (added, reads, writes) h =
    (rw (added, reads), ground arith, ground arith)

IsOpen-state_eq : (s : StateE) → IsOpen s → state_eq s k_disconnected ≡ false
IsOpen-state_eq k_connecting o = absurd o
IsOpen-state_eq k_connected o = refl
IsOpen-state_eq k_disconnecting o = refl
IsOpen-state_eq k_disconnected o = absurd o

-- What `write` took and what it left make up the data.
taken_rest :
    (s s' out bytes : List ℕ) (n : ℕ)
    → out ≡ []
    → s' ≡ s ++ take n bytes
    → (s' ++ out) ++ drop n bytes ≡ (s ++ out) ++ bytes
taken_rest s s' out bytes n empty taken =
    rw (empty, append-nil, append-nil, taken, append_assoc, take-append-drop n bytes)

module _ {K : Type 0} {sys : Sys K} (laws : SysLaws sys) (cb : Callbacks (World K)) where
  -- Bytes put behind the output, for which the channel is made to wait.
  module _ (w : World K) (b : Buffer) (v : Inv laws w) (o : IsOpen w.conn.state) where
    enable_writing-Inv :
        IsValid b
        → has_output b ≡ true
        → let w₂ = set_output b w in
          Ensures
            (λ w'.
              Inv laws w' × (stream laws w' ≡ laws.sent w.kernel w.conn.channel.fd ++ contents b))
            (if not (is_writing w₂.conn.channel)
              then on_channel (enable_writing sys) w₂
              else done w₂)
    unfolding set_output enable_writing
    enable_writing-Inv valid some_output = elim (Bool-cases (is_writing w.conn.channel)) [
      | inl e ↦ rw e (
        record {
          input = v.input;
          output = valid;
          tracked = record { in_map = v.tracked.in_map; in_epoll = v.tracked.in_epoll };
          other_fd = v.other_fd;
          registered =
              open-Registered w.conn.state w.conn.channel b o
                (opened.0, opened.1, e ∙ sym some_output);
        },
        refl,
      )
      | inr e ↦ rw e (
          Ensures-mono (Changed laws g (set_output b w)) _
            (on_channel (enable_writing sys) (set_output b w))
            (on_channel-Changed laws g (set_output b w) w.conn.channel.events
              (record { in_map = v.tracked.in_map; in_epoll = v.tracked.in_epoll }))
            λ w' c. (
              Changed-Inv laws g c refl v.input valid v.other_fd (
                  open-Registered w.conn.state _ b o (
                    writing-RegisteredOpen w.conn.channel w.conn.output_buffer b opened
                      some_output)),
              Changed-stream laws g c refl,
            ))
    ]
      where
        g : Channel → Channel
        g c = or_events c write_event

        opened : RegisteredOpen w.conn.channel w.conn.output_buffer
        opened = Registered-open w.conn.state w.conn.channel w.conn.output_buffer o v.registered

  -- What a step of sending leaves: the invariant, the same open state, and these bytes on their way.
  abbrev pub Sends : World K → List ℕ → World K → Type 0
  Sends w bytes w' = Inv laws w' × (stream laws w' ≡ stream laws w ++ bytes)

  buffer-Sends :
      (w w₁ : World K) (rest : List ℕ)
      → Inv laws w
      → IsOpen w.conn.state
      → Kept laws w w₁
      → 0 < length rest
      → length w.conn.output_buffer.storage + length rest < max_size
      → let w₂ = set_output (append w₁.conn.output_buffer rest) w₁ in
        Ensures
          (Sends w rest)
          (if not (is_writing w₂.conn.channel) then on_channel (enable_writing sys) w₂ else done w₂)
  unfolding set_output
  buffer-Sends w w₁ rest v o k some_rest bound =
      let v₁ : Inv laws w₁ = Kept-Inv laws k v in
      let (valid, added) : IsValid (append w₁.conn.output_buffer rest)
          × (contents (append w₁.conn.output_buffer rest)
              ≡ contents w₁.conn.output_buffer ++ rest) =
        append-contents rest v₁.output (rw k.conn bound) in
      Ensures-mono _ (Sends w rest) _
        (enable_writing-Inv w₁ (append w₁.conn.output_buffer rest) v₁ (rw k.conn o) valid
          (ground (arith, ap length added, length-append (contents w₁.conn.output_buffer) rest)))
        λ w' (i, e). (
          i,
          e
              ∙ ap (◌++◌ (laws.sent w₁.kernel w₁.conn.channel.fd)) added
              ∙ sym (
                  append_assoc (laws.sent w₁.kernel w₁.conn.channel.fd)
                    (contents w₁.conn.output_buffer) rest)
              ∙ ap (λ xs. xs ++ rest) (Kept-stream laws k v),
        )

  -- The end of `sendInLoop`: without an error, all that `write` did not take is sent behind the rest.
  buffer_rest-Sends :
      (bytes : List ℕ) (nwrote remaining : ℕ) (w : World K)
      → Inv laws w
      → IsOpen w.conn.state
      → nwrote + remaining ≡ length bytes
      → length w.conn.output_buffer.storage + remaining < max_size
      → Ensures (Sends w (drop nwrote bytes)) (buffer_rest sys cb bytes nwrote remaining false w)
  unfolding buffer_rest
  buffer_rest-Sends bytes nwrote remaining w v o total bound = elim (Bool-cases (ltb 0 remaining)) [
    | inl some_rest ↦ rw some_rest (
        rw taken (
          buffer-Sends w _ (drop nwrote bytes) v o
            (queue_high_water_mark-Kept laws cb (readable_bytes w.conn.output_buffer) remaining w)
            (ground (arith, rest_length)) (omega (arith, rest_length))))
    | inr none_left ↦ rw none_left (v, rw (drop_all nwrote bytes (ground arith), append-nil))
  ]
    where
      rest_length : length (drop nwrote bytes) ≡ remaining
      rest_length = omega (arith, length-drop nwrote bytes)

      taken : take remaining (drop nwrote bytes) ≡ drop nwrote bytes
      taken = take_all remaining (drop nwrote bytes) (omega (arith, rest_length))

  -- The connection is found broken by the direct `write`.
  abbrev pub Broken : World K → List ℕ → Type 0
  Broken w bytes =
      (e : ℕ) × ((sys.write w.kernel w.conn.channel.fd bytes).0 ≡ failed e)
      × ((e ≡ epipe) ⊎ (e ≡ econnreset))

  abbrev pub Sent : World K → List ℕ → World K → Type 0
  Sent w bytes w' =
      Inv laws w'
      × ((stream laws w' ≡ stream laws w ++ bytes)
          ⊎ ((stream laws w' ≡ stream laws w) × Broken w bytes))

  maybe_queued-Kept :
      (test : Bool) (w : World K) → Kept laws w (if test then queue_write_complete sys cb w else w)
  maybe_queued-Kept true w = queue_write_complete-Kept laws cb w
  maybe_queued-Kept false w = Kept-refl laws w

  after_direct_write-Sent :
      (bytes : List ℕ) (w : World K) (r : IoResult)
      → Inv laws w
      → IsOpen w.conn.state
      → contents w.conn.output_buffer ≡ []
      → length bytes < max_size
      → length w.conn.output_buffer.storage + length bytes < max_size
      → (sys.write w.kernel w.conn.channel.fd bytes).0 ≡ r
      → Ensures (Sent w bytes) (
          after_direct_write sys cb bytes r
            (record w { kernel = (sys.write w.kernel w.conn.channel.fd bytes).1 }))
  unfolding after_direct_write buffer_rest
  after_direct_write-Sent bytes w (count n) v o empty small bound e =
      let remaining = sub_size (length bytes) n in
      let w₁ = record w { kernel = (sys.write w.kernel w.conn.channel.fd bytes).1 } in
      let w₂ = if remaining == 0 then queue_write_complete sys cb w₁ else w₁ in
      let k : Kept laws w₁ w₂ = maybe_queued-Kept (remaining == 0) w₁ in
      let v₁ = write-Inv laws w bytes v in
      let (fits, taken) = laws.write_count w.kernel w.conn.channel.fd n bytes e in
      Ensures-mono _ (Sent w bytes) _
        (buffer_rest-Sends bytes n remaining w₂ (Kept-Inv laws k v₁) (rw k.conn o) (omega arith)
          (rw k.conn (omega arith)))
        λ w' (i, s). (
          i,
          inl (
              s
              ∙ ap (λ xs. xs ++ drop n bytes) (Kept-stream laws k v₁)
              ∙ taken_rest _ _ (contents w.conn.output_buffer) bytes n empty taken),
        )
  after_direct_write-Sent bytes w (failed errno) v o empty small bound e =
      let fault = not (errno == ewouldblock) && (errno == epipe || errno == econnreset) in
      let w₁ = record w { kernel = (sys.write w.kernel w.conn.channel.fd bytes).1 } in
      let same : stream laws w₁ ≡ stream laws w =
        ap (λ xs. xs ++ contents w.conn.output_buffer)
          (laws.write_failed w.kernel w.conn.channel.fd errno bytes e) in
      elim (Bool-cases fault) [
        | inl broken ↦ rw broken (write-Inv laws w bytes v, inr (same, (errno, e, ground arith)))
        | inr alive ↦ rw alive (
            Ensures-mono _ (Sent w bytes) _
              (buffer_rest-Sends bytes 0 (length bytes) w₁ (write-Inv laws w bytes v) o
                (omega arith) bound)
              λ w' (i, s). (i, inl (s ∙ ap (λ xs. xs ++ bytes) same)))
      ]

  pub send_in_loop-Sent :
      (bytes : List ℕ) (w : World K)
      → Inv laws w
      → IsOpen w.conn.state
      → length bytes < max_size
      → length w.conn.output_buffer.storage + length bytes < max_size
      → Ensures (Sent w bytes) (send_in_loop sys cb bytes w)
  unfolding send_in_loop
  send_in_loop-Sent bytes w v o small bound =
      let direct = not (is_writing w.conn.channel) && readable_bytes w.conn.output_buffer == 0 in
      rw (IsOpen-state_eq w.conn.state o) (elim (Bool-cases direct) [
        | inl now ↦ rw now (
            after_direct_write-Sent bytes w _ v o
              (nil_of_length (contents w.conn.output_buffer)
                (ground (arith, readable_bytes-length v.output)))
              small bound refl)
        | inr later ↦ rw later (
            Ensures-mono _ (Sent w bytes) _
              (buffer_rest-Sends bytes 0 (length bytes) w v o (omega arith) bound)
              λ w' (i, s). (i, inl s))
      ])
