-- ===== src/Example/Echo.antt =====
-- example/testserver.cc: what arrives is sent back, and then the connection is shut down.
use moduo_write.Common.{
  ℕ, ◌+◌, ◌*◌, ◌^◌, ◌<◌, ◌≡◌, refl, sym, ap, subst, ap₂, ◌∙◌, ◌⊎◌, inl, inr, some, List, [], ◌++◌,
  arith, length, length-append, Outcome, done, Ensures, Ensures-bind, Ensures-mono,
  Ensures-WhenDone,
}
use moduo_write.System.{Sys, SysLaws, got, read_failed, failed, epipe, econnreset}
use moduo_write.Buffer.{Buffer, extra_size, retrieve_all_as_string}
use moduo_write.Buffer.Contents.{contents, max_size, retrieve_all_as_string-contents}
use moduo_write.Buffer.Descriptor.{length-contents-readv}
use moduo_write.Connection.{World, k_connected, k_disconnecting, send, shutdown, handle_read}
use moduo_write.Connection.Invariant.{Inv, stream}
use moduo_write.Connection.Sending.{Sent}
use moduo_write.Connection.Requests.{send-requests}
use moduo_write.Connection.Unmoved.{Unmoved, send-Unmoved}
use moduo_write.Connection.Lifecycle.{ShutsDown, shutdown-ShutsDown, Closed, KeepsClosed}
use moduo_write.Connection.Receiving.{Arrived, read_result, read_kernel, handle_read-Ensures}
use moduo_write.Example.{other_callbacks, reply, on_message, callbacks, on_connection}

module _ {K : Type 0} {sys : Sys K} (laws : SysLaws sys) (close : World K → Outcome (World K))
    (address : ℕ) where
  -- The `write` of these bytes to the socket, made in the kernel `k`, finds the connection broken.
  abbrev pub FoundBroken : World K → K → List ℕ → Type 0
  FoundBroken w k msg =
      (e : ℕ) × ((sys.write k w.conn.channel.fd msg).0 ≡ failed e)
      × ((e ≡ epipe) ⊎ (e ≡ econnreset))

  -- The reply to these bytes is on its way, unless the connection was found broken, nothing is left
  -- to read, and the shutdown that follows has begun. The reply begins in the kernel `k`.
  pub record Replied (w : World K) (k : K) (msg : List ℕ) (w' : World K) : Type 0 where
    pub inv : Inv laws w'
    pub state : w'.conn.state ≡ k_disconnecting
    pub input : contents w'.conn.input_buffer ≡ []
    pub reply :
        (stream laws w' ≡ stream laws w ++ msg)
        ⊎ ((stream laws w' ≡ stream laws w) × FoundBroken w k msg)

  reply-Replied :
      (msg : List ℕ) (w : World K)
      → Inv laws w
      → w.conn.state ≡ k_connected
      → w.loop.thread_id ≡ w.tid
      → contents w.conn.input_buffer ≡ []
      → length msg < 2 ^ 31
      → length w.conn.output_buffer.storage + length msg < max_size
      → Ensures (Replied w w.kernel msg) (reply sys close address msg w)
  unfolding reply
  reply-Replied msg w v connected here empty small bound =
      let cb = other_callbacks sys close in
      Ensures-bind (λ w₁. Sent laws cb w msg w₁ × Unmoved w w₁) (Replied w w.kernel msg) _
        (shutdown sys)
        (Ensures-WhenDone (Sent laws cb w msg) (Unmoved w) (send sys cb address msg w)
          ((send-requests laws cb address msg w v connected small bound).0 here)
          (send-Unmoved sys cb address msg w))
        λ w₁ (s, u).
          Ensures-mono (ShutsDown laws w₁) (Replied w w.kernel msg) (shutdown sys w₁)
            (shutdown-ShutsDown laws w₁ s.0 (u.state ∙ connected) (u.thread ∙ here ∙ sym u.tid))
            λ w' d. record {
              inv = d.inv;
              state = d.state;
              input = ap contents (d.input ∙ u.input) ∙ empty;
              reply = elim s.1 [
                | inl e ↦ inl (d.same_stream ∙ e)
                | inr (e, (errno, fails, which)) ↦ inr (d.same_stream ∙ e, (errno, fails, which))
              ];
            }

  on_message-reply :
      (msg : List ℕ) (b : Buffer) (w : World K)
      → retrieve_all_as_string w.conn.input_buffer ≡ some (msg, b)
      → on_message sys close address w
        ≡ reply sys close address msg (record w { conn = record w.conn { input_buffer = b } })
  unfolding on_message
  on_message-reply msg b w e = rw (on_message, e) refl

  on_message-Replied :
      (w w₁ : World K) (k : K) (bytes : List ℕ)
      → Arrived laws w bytes w₁
      → w₁.kernel ≡ k
      → w.conn.state ≡ k_connected
      → w.loop.thread_id ≡ w.tid
      → length (contents w.conn.input_buffer ++ bytes) < 2 ^ 31
      → length w.conn.output_buffer.storage + length (contents w.conn.input_buffer ++ bytes)
        < max_size
      → Ensures
          (Replied w k (contents w.conn.input_buffer ++ bytes))
          (on_message sys close address w₁)
  on_message-Replied w w₁ k bytes a at connected here small bound =
      let (b, taken, valid, empty) = retrieve_all_as_string-contents a.inv.input in
      let w₂ = record w₁ { conn = record w₁.conn { input_buffer = b } } in
      let v₂ : Inv laws w₂ = record {
        input = valid;
        output = a.inv.output;
        tracked = record { in_map = a.inv.tracked.in_map; in_epoll = a.inv.tracked.in_epoll };
        other_fd = a.inv.other_fd;
        registered = a.inv.registered;
      } in
      let msg = contents w₁.conn.input_buffer in
      let same_fd : w₁.conn.channel.fd ≡ w.conn.channel.fd = ap (λ c. c.channel.fd) a.conn in
      let same_output : w₁.conn.output_buffer ≡ w.conn.output_buffer =
        ap (λ c. c.output_buffer) a.conn in
      subst (Ensures _) (sym (on_message-reply msg b w₁ taken)) (
        Ensures-mono (Replied w₂ w₁.kernel msg) _ (reply sys close address msg w₂)
          (reply-Replied msg w₂ v₂ (ap (λ c. c.state) a.conn ∙ connected)
            (ap (λ l. l.thread_id) a.loop ∙ here ∙ sym a.tid) empty (rw a.input small)
            (rw (same_output, a.input) bound))
          λ w' r. record {
            inv = r.inv;
            state = r.state;
            input = r.input;
            reply = elim r.reply [
              | inl e ↦ inl (e ∙ ap₂ ◌++◌ a.same_stream a.input)
              | inr (e, (errno, fails, which)) ↦
                  inr
                    (e ∙ a.same_stream, (errno, rw (sym same_fd, sym a.input, sym at) fails, which))
            ];
          })

  -- What `handleRead` of an echo server's connection comes to: a reply, the end of the connection, or
  -- a failed read that changes nothing.
  abbrev pub Echoed : World K → World K → Type 0
  Echoed w w' =
      ((bytes : List ℕ) × (read_result laws w ≡ got bytes)
        × (0 < length bytes)
        × Replied w (read_kernel laws w) (contents w.conn.input_buffer ++ bytes) w')
      ⊎ (((read_result laws w ≡ got []) × Closed laws w')
          ⊎ ((e : ℕ) × (read_result laws w ≡ read_failed e) × Arrived laws w [] w'))

  -- The echo server echoes. `handleRead` of a connected connection, in its loop's thread, sends back
  -- exactly what arrives behind what was left unread, in order, leaves nothing to read and begins the
  -- shutdown, unless the reply's `write`, made after the `readv`, finds the connection broken; at the end of the stream it
  -- closes the connection, and where `readv` fails it changes nothing. This holds where the input
  -- vector stays below 2^31 bytes and the output vector below 2^63, and where `close` keeps a closed
  -- connection closed.
  pub handle_read-Echoed :
      (w : World K)
      → KeepsClosed laws close
      → Inv laws w
      → w.conn.state ≡ k_connected
      → w.loop.thread_id ≡ w.tid
      → length w.conn.input_buffer.storage + 2 * extra_size < 2 ^ 31
      → length w.conn.output_buffer.storage + 2 ^ 31 < max_size
      → Ensures (Echoed w) (handle_read sys (callbacks sys close address) w)
  unfolding callbacks other_callbacks on_connection
  handle_read-Echoed w k v connected here small bound =
      handle_read-Ensures laws (callbacks sys close address) done (on_message sys close address)
        close (Echoed w) w refl refl refl (λ w₁ c. c) k v (rw connected tt) (omega arith)
        (λ bytes w₁ e some_bytes at a.
          let most : length (contents w.conn.input_buffer ++ bytes) < 2 ^ 31 = omega (
            arith,
            length-append (contents w.conn.input_buffer) bytes,
            length-contents-readv sys laws w.conn.channel.fd w.kernel bytes v.input e,
          ) in
          Ensures-mono (Replied w (read_kernel laws w) (contents w.conn.input_buffer ++ bytes))
            (Echoed w) _
            (on_message-Replied w w₁ (read_kernel laws w) bytes a at connected here most
              (omega arith))
            λ w' r. inl (bytes, e, some_bytes, r))
        (λ w₁ e c. inr (inl (e, c))) (λ errno w₁ e a. inr (inr (errno, e, a)))
