-- ===== src/Connection/Receiving.antt =====
-- TcpConnection.cc, `handleRead`: what arrives reaches the user, behind what he has left unread.
use moduo_write.Common.{
  ℕ, ◌+◌, ◌*◌, ◌<◌, ◌≡◌, refl, ap, ◌∙◌, true, some, List, [], ◌∷◌, ◌++◌, append-nil, arith, ltb,
  length, Outcome, Ensures, Ensures-mono,
}
use moduo_write.System.{Sys, SysLaws, ReadResult, got, read_failed}
use moduo_write.Buffer.{extra_size, read_room, read_fd}
use moduo_write.Buffer.Contents.{IsValid, contents, max_size}
use moduo_write.Buffer.Descriptor.{Received, read_fd-Received}
use moduo_write.Connection.{
  World, Callbacks, call, after_read, handle_error, handle_read, handle_close,
}
use moduo_write.Connection.Invariant.{Inv, stream, IsOpen}
use moduo_write.Connection.Lifecycle.{Closed, KeepsClosed, handle_close-Closed}

module _ {K : Type 0} {sys : Sys K} (laws : SysLaws sys) where
  -- The bytes stand behind the input that was there; nothing else of the connection has changed.
  pub record Arrived (w : World K) (bytes : List ℕ) (w' : World K) : Type 0 where
    pub inv : Inv laws w'
    pub conn : w'.conn ≡ record w.conn { input_buffer = w'.conn.input_buffer }
    pub input : contents w'.conn.input_buffer ≡ contents w.conn.input_buffer ++ bytes
    pub same_stream : stream laws w' ≡ stream laws w
    pub loop : w'.loop ≡ w.loop
    pub tid : w'.tid ≡ w.tid

  -- The result of the `readv` that `handleRead` makes.
  abbrev pub read_result : World K → ReadResult
  read_result w = (sys.readv w.kernel w.conn.channel.fd (read_room sys w.conn.input_buffer)).0

  -- The kernel after that `readv`.
  abbrev pub read_kernel : World K → K
  read_kernel w = (sys.readv w.kernel w.conn.channel.fd (read_room sys w.conn.input_buffer)).1

  -- The connection when `readFd` has returned.
  abbrev pub after_fd : World K → World K
  after_fd w =
      let (n, b, k) = read_fd sys w.conn.input_buffer w.conn.channel.fd w.kernel in
      record w { conn = record w.conn { input_buffer = b }; kernel = k }

  -- After a successful read.
  pub read-Arrived :
      (bytes : List ℕ) (w : World K)
      → Inv laws w
      → IsValid (after_fd w).conn.input_buffer
      → contents (after_fd w).conn.input_buffer ≡ contents w.conn.input_buffer ++ bytes
      → (after_fd w).kernel
        ≡ (sys.readv w.kernel w.conn.channel.fd (read_room sys w.conn.input_buffer)).1
      → Arrived w bytes (after_fd w)
  read-Arrived bytes w v valid input kernel = record {
    inv = record {
      input = valid;
      output = v.output;
      tracked = record {
        in_map = v.tracked.in_map;
        in_epoll =
            ap (λ k. laws.interest k w.loop.poller.epollfd w.conn.channel.fd) kernel
            ∙ laws.readv_interest _ _ _ _ _
            ∙ v.tracked.in_epoll;
      };
      other_fd = v.other_fd;
      registered = v.registered;
    };
    conn = refl;
    input = input;
    same_stream =
        ap (λ k. laws.sent k w.conn.channel.fd ++ contents w.conn.output_buffer) kernel
        ∙ ap (λ xs. xs ++ contents w.conn.output_buffer) (laws.readv_sent _ _ _ _);
    loop = refl;
    tid = refl;
  }

  -- Clearing the pending error changes nothing else.
  handle_error-Arrived :
      (w w₁ : World K)
      → Arrived w [] w₁
      → Arrived w [] (record w₁ { kernel = (sys.so_error w₁.kernel w₁.conn.channel.fd).1 })
  handle_error-Arrived w w₁ a = record {
    inv = record {
      input = a.inv.input;
      output = a.inv.output;
      tracked = record {
        in_map = a.inv.tracked.in_map;
        in_epoll = laws.so_error_interest _ _ _ _ ∙ a.inv.tracked.in_epoll;
      };
      other_fd = a.inv.other_fd;
      registered = a.inv.registered;
    };
    conn = a.conn;
    input = a.input;
    same_stream =
        ap (λ xs. xs ++ contents w₁.conn.output_buffer) (laws.so_error_sent _ _ _) ∙ a.same_stream;
    loop = a.loop;
    tid = a.tid;
  }

  module _ (cb : Callbacks (World K))
      (on_connection on_message on_close : World K → Outcome (World K)) where
    -- `handleRead` of an open connection that satisfies its invariant, has room to read and has its
    -- message, connection and close callback set, of which the last two keep a closed connection
    -- closed. Where bytes have arrived, the message callback runs, and the bytes stand in the input
    -- buffer behind those left from before; at the end of the stream the connection is closed, and if
    -- `readv` fails it is left as it is. So whatever these three bring about, `handleRead` brings
    -- about, unless the process exits.
    pub handle_read-Ensures :
        (Q : World K → Type 0) (w : World K)
        → cb.message_callback ≡ some on_message
        → cb.connection_callback ≡ some on_connection
        → cb.close_callback ≡ some on_close
        → KeepsClosed laws on_connection
        → KeepsClosed laws on_close
        → Inv laws w
        → IsOpen w.conn.state
        → length w.conn.input_buffer.storage + 2 * extra_size < max_size
        → ((bytes : List ℕ) (w₁ : World K)
            → read_result w ≡ got bytes
            → 0 < length bytes
            → w₁.kernel ≡ read_kernel w
            → Arrived w bytes w₁
            → Ensures Q (on_message w₁))
        → ((w₁ : World K) → read_result w ≡ got [] → Closed laws w₁ → Q w₁)
        → ((e : ℕ) (w₁ : World K) → read_result w ≡ read_failed e → Arrived w [] w₁ → Q w₁)
        → Ensures Q (handle_read sys cb w)
    unfolding handle_read after_read handle_error call
    handle_read-Ensures Q w m c₁ c₂ k₁ k₂ v o bound arrives ends fails =
        let (received, kernel) =
          read_fd-Received sys laws w.conn.channel.fd w.kernel v.input bound in
        by_result (read_result w) refl received kernel
      where
        by_result :
            (r : ReadResult)
            → read_result w ≡ r
            → let (n, b, k) = read_fd sys w.conn.input_buffer w.conn.channel.fd w.kernel in
              Received w.conn.input_buffer r (n, b)
              → k ≡ (sys.readv w.kernel w.conn.channel.fd (read_room sys w.conn.input_buffer)).1
              → Ensures Q (after_read sys cb n (after_fd w))
        by_result (got []) e (returned, valid, input) kernel =
            let a = read-Arrived [] w v valid input kernel in
            rw (returned, after_read)
              (Ensures-mono (Closed laws) Q (handle_close sys cb (after_fd w))
                (handle_close-Closed laws cb on_connection on_close (after_fd w) c₁ c₂ k₁ k₂ a.inv
                  o)
                λ w₁. ends w₁ e)
        by_result (got (x ∷ bytes)) e (returned, valid, input) kernel =
            let a = read-Arrived (x ∷ bytes) w v valid input kernel in
            let some_bytes : ltb 0 (length (x ∷ bytes)) ≡ true = ground arith in
            rw (returned, after_read, some_bytes, m, call)
              (arrives (x ∷ bytes) (after_fd w) e (omega arith) kernel a)
        by_result (read_failed errno) e (returned, same) kernel =
            let a = read-Arrived [] w v (rw same v.input) (rw (same, append-nil) refl) kernel in
            rw (returned, after_read, handle_error)
              (fails errno _ e (handle_error-Arrived w (after_fd w) a))
