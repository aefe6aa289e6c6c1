-- ===== src/Connection/Events.antt =====
-- TcpConnection.cc with Channel.cc: what an event that epoll reports comes to.
use moduo_write.Common.{
  ℕ, ◌+◌, ◌*◌, ◌<◌, ◌≡◌, refl, sym, ◌∙◌, ◌⊎◌, inl, inr, Bool, false, not, ◌&&◌, ◌||◌, some, [], ◌∷◌,
  arith, length, Bool-cases, Outcome, done, Ensures, Ensures-bind, Ensures-mono, subst,
}
use moduo_write.System.{Sys, SysLaws, Mask}
use moduo_write.Buffer.{extra_size}
use moduo_write.Buffer.Contents.{max_size}
use moduo_write.Channel.{
  set_read_callback, set_write_callback, set_close_callback, set_error_callback, call_if_set,
  handle_event, is_writing,
}
use moduo_write.Channel.Dispatch.{close, error, read, write, run_due, handle_event-in_order}
use moduo_write.Connection.{
  World, Callbacks, handle_read, handle_write, handle_error, channel_callbacks,
}
use moduo_write.Connection.Invariant.{Inv, IsOpen}
use moduo_write.Connection.Lifecycle.{Closed, KeepsClosed, handle_close-Closed}
use moduo_write.Connection.Receiving.{handle_read-Ensures}
use moduo_write.Connection.Flushing.{Flushes, handle_write-Flushes}

module _ {K : Type 0} {sys : Sys K} (laws : SysLaws sys) where
  -- Open, or closed.
  abbrev pub Settled : World K → Type 0
  Settled w = (Inv laws w × IsOpen w.conn.state) ⊎ Closed laws w

  -- There is room to read.
  abbrev pub HasRoom : World K → Type 0
  HasRoom w = length w.conn.input_buffer.storage + 2 * extra_size < max_size

  module _ (cb : Callbacks (World K))
      (on_connection on_message on_close : World K → Outcome (World K)) where
    -- The user's and the server's callbacks: all are set, those on closing keep a closed connection
    -- closed, and the one on messages leaves an open connection open or closed.
    pub record WellBehaved : Type 0 where
      pub has_connection : cb.connection_callback ≡ some on_connection
      pub has_message : cb.message_callback ≡ some on_message
      pub has_close : cb.close_callback ≡ some on_close
      pub connection : KeepsClosed laws on_connection
      pub closing : KeepsClosed laws on_close
      pub message :
          (w : World K) → Inv laws w → IsOpen w.conn.state → Ensures Settled (on_message w)

    -- Reading the pending error.
    error-Inv :
        (w : World K)
        → Inv laws w
        → Inv laws (record w { kernel = (sys.so_error w.kernel w.conn.channel.fd).1 })
    error-Inv w v = record {
      input = v.input;
      output = v.output;
      tracked = record {
        in_map = v.tracked.in_map;
        in_epoll = laws.so_error_interest _ _ _ _ ∙ v.tracked.in_epoll;
      };
      other_fd = v.other_fd;
      registered = v.registered;
    }

    error-Closed :
        (w : World K)
        → Closed laws w
        → Closed laws (record w { kernel = (sys.so_error w.kernel w.conn.channel.fd).1 })
    error-Closed w c = record {
      inv = error-Inv w c.inv;
      state = c.state;
      index = c.index;
      events = c.events;
      silent = laws.so_error_interest _ _ _ _ ∙ c.silent;
    }

    write-Inv : (w : World K) → Settled w → Ensures (Inv laws) (handle_write sys cb w)
    unfolding handle_write
    write-Inv w (inl (v, o)) =
        Ensures-mono (Flushes laws cb w) (Inv laws) _ (handle_write-Flushes laws cb w v o)
          λ w' f. f.inv
    write-Inv w (inr c) =
        let silent : is_writing w.conn.channel ≡ false = rw c.events refl in rw silent c.inv

    read-Settled :
        (w : World K)
        → WellBehaved
        → Inv laws w
        → IsOpen w.conn.state
        → HasRoom w
        → Ensures Settled (handle_read sys cb w)
    read-Settled w b v o room =
        handle_read-Ensures laws cb on_connection on_message on_close Settled w b.has_message
          b.has_connection b.has_close b.connection b.closing v o room
          (λ bytes w₁ r pos k a. b.message w₁ a.inv (rw a.conn o)) (λ w₁ r c. inr c)
          (λ e w₁ r a. inl (a.inv, rw a.conn o))

    -- The last of the callbacks.
    written :
        (m : Mask) (w : World K)
        → Settled w
        → Ensures (Inv laws) (run_due (channel_callbacks sys cb) m (write ∷ []) w)
    unfolding run_due call_if_set channel_callbacks set_read_callback set_write_callback
        set_close_callback set_error_callback
    written m w s =
        Ensures-bind (Inv laws) (Inv laws) _ done
          (elim (Bool-cases m.epollout) [
            | inl e ↦ rw e (write-Inv w s)
            | inr e ↦ rw e (settled-Inv w s)
          ])
          λ w' v. v
      where
        settled-Inv : (w : World K) → Settled w → Inv laws w
        settled-Inv w (inl (v, o)) = v
        settled-Inv w (inr c) = c.inv

    -- Those after the error, on an open connection.
    open_rest :
        (m : Mask) (w : World K)
        → WellBehaved
        → Inv laws w
        → IsOpen w.conn.state
        → HasRoom w
        → Ensures (Inv laws) (run_due (channel_callbacks sys cb) m (read ∷ write ∷ []) w)
    unfolding run_due call_if_set channel_callbacks set_read_callback set_write_callback
        set_close_callback set_error_callback
    open_rest m w b v o room =
        Ensures-bind Settled (Inv laws) _ _
          (elim (Bool-cases (m.epollin || m.epollpri)) [
            | inl e ↦ rw e (read-Settled w b v o room)
            | inr e ↦ rw e (inl (v, o))
          ])
          (written m)

    open_error :
        (m : Mask) (w : World K)
        → WellBehaved
        → Inv laws w
        → IsOpen w.conn.state
        → HasRoom w
        → Ensures (Inv laws) (run_due (channel_callbacks sys cb) m (error ∷ read ∷ write ∷ []) w)
    unfolding run_due call_if_set channel_callbacks set_read_callback set_write_callback
        set_close_callback set_error_callback handle_error
    open_error m w b v o room = elim (Bool-cases m.epollerr) [
      | inl e ↦ rw e (open_rest m _ b (error-Inv w v) o room)
      | inr e ↦ rw e (open_rest m w b v o room)
    ]

    closed_error :
        (m : Mask) (w : World K)
        → m.epollin ≡ false
        → m.epollpri ≡ false
        → Closed laws w
        → Ensures (Inv laws) (run_due (channel_callbacks sys cb) m (error ∷ read ∷ write ∷ []) w)
    unfolding run_due call_if_set channel_callbacks set_read_callback set_write_callback
        set_close_callback set_error_callback handle_error
    closed_error m w no_in no_pri c = elim (Bool-cases m.epollerr) [
      | inl e ↦ rw (e, no_in, no_pri) (written m _ (inr (error-Closed w c)))
      | inr e ↦ rw (e, no_in, no_pri) (written m w (inr c))
    ]

    all_due :
        (m : Mask) (w : World K)
        → (m.epollhup && (not m.epollin && m.epollpri)) ≡ false
        → WellBehaved
        → Inv laws w
        → IsOpen w.conn.state
        → HasRoom w
        → Ensures
            (Inv laws)
            (run_due (channel_callbacks sys cb) m (close ∷ error ∷ read ∷ write ∷ []) w)
    unfolding run_due call_if_set channel_callbacks set_read_callback set_write_callback
        set_close_callback set_error_callback
    all_due m w usual b v o room = elim (Bool-cases (m.epollhup && not m.epollin)) [
      | inl e ↦ rw e (
          Ensures-bind (Closed laws) (Inv laws) _ _
            (handle_close-Closed laws cb on_connection on_close w b.has_connection b.has_close
              b.connection b.closing v o)
            λ w₁. closed_error m w₁ (ground arith) (ground arith))
      | inr e ↦ rw e (open_error m w b v o room)
    ]

    -- Whatever epoll reports for an open connection with room to read, its channel handles: no empty
    -- function is called, nothing undefined is done, and the invariant holds afterwards, unless the
    -- process exits, as it may when epoll refuses the channel and in a callback. The callbacks are
    -- well-behaved, the invariant holds before, and the kernel does not report a hang-up
    -- with urgent data and nothing to read.
    pub handle_event-Inv :
        (alive : ℕ → Bool) (w : World K)
        → let m = w.conn.channel.revents in
          (m.epollhup && (not m.epollin && m.epollpri)) ≡ false
          → WellBehaved
          → Inv laws w
          → IsOpen w.conn.state
          → HasRoom w
          → Ensures (Inv laws) (handle_event alive (channel_callbacks sys cb) w.conn.channel w)
    handle_event-Inv alive w usual b v o room =
        subst (Ensures (Inv laws))
          (sym (handle_event-in_order alive (channel_callbacks sys cb) w.conn.channel w))
          (elim (Bool-cases (not w.conn.channel.tied || alive w.conn.channel.tie)) [
            | inl e ↦ rw e (all_due w.conn.channel.revents w usual b v o room)
            | inr e ↦ rw e v
          ])
