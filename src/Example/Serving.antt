-- ===== src/Example/Serving.antt =====
-- example/testserver.cc with TcpServer.cc: the echo server's connections in the server's process.
use moduo_write.Common.{
  ◌≢◌, arith, ◌∙◌, ℕ, ◌+◌, ◌*◌, ◌^◌, ◌<◌, ◌≡◌, refl, sym, subst, ◌⊎◌, inl, inr, some, none, List,
  [], ◌∷◌, ◌++◌, length, Ensures, Ensures-mono,
}
use moduo_write.System.{Sys, SysLaws, ReadResult, got, read_failed}
use moduo_write.Buffer.{extra_size}
use moduo_write.Buffer.Contents.{contents, max_size}
use moduo_write.Connection.{World, k_connected, handle_read}
use moduo_write.Connection.Invariant.{Inv}
use moduo_write.Connection.Receiving.{Arrived, read_result, read_kernel}
use moduo_write.Server.Lifecycle
use moduo_write.Service.{Memory, UserCallbacks, memory_sys, close_callback, conn_callbacks}
use moduo_write.Service.Removal.{memory_laws, close_callback-KeepsClosed}
use moduo_write.Service.Closing.{IsDiscreet, Gone, handle_read-Gone}
use moduo_write.Example.{on_connection, on_message, callbacks, other_callbacks}
use moduo_write.Example.Echo.{Echoed, Replied, handle_read-Echoed}

distinct : {x : ℕ} {xs : List ℕ} → got [] ≢ got (x ∷ xs)
distinct e = cc e

failed_read : {errno : ℕ} → got [] ≢ read_failed errno
failed_read e = cc e

module _ {K : Type 0} (sys : Sys K) (number address : ℕ) where
  -- The two callbacks that the constructor gives to the server.
  abbrev pub user_callbacks : UserCallbacks K
  user_callbacks = record {
    connection_callback = some (on_connection (memory_sys sys) (close_callback sys number));
    message_callback = some (on_message (memory_sys sys) (close_callback sys number) address);
    write_complete_callback = none;
    thread_init_callback = none;
  }

  same_callbacks :
      callbacks (memory_sys sys) (close_callback sys number) address
      ≡ conn_callbacks sys user_callbacks number
  unfolding callbacks other_callbacks conn_callbacks
  same_callbacks = refl

module _ {K : Type 0} {sys : Sys K} (laws : SysLaws sys) (number address : ℕ) where
  logs-IsDiscreet : IsDiscreet laws (on_connection (memory_sys sys) (close_callback sys number))
  unfolding on_connection
  logs-IsDiscreet w c = (
    c,
    record { address = refl; fd = refl; rest = refl; queue = refl; thread = refl; tid = refl },
  )

  -- What `handleRead` comes to in the server's process: a reply, a connection that is gone, or a failed
  -- read that changes nothing.
  abbrev pub Served : World (Memory K) → World (Memory K) → Type 0
  Served w w' =
      ((bytes : List ℕ) × (read_result (memory_laws laws) w ≡ got bytes)
        × (0 < length bytes)
        × Replied (memory_laws laws) (close_callback sys number) address w
            (read_kernel (memory_laws laws) w) (contents w.conn.input_buffer ++ bytes) w')
      ⊎ (((read_result (memory_laws laws) w ≡ got [])
            × Gone laws (user_callbacks sys number address) number w w')
          ⊎ ((e : ℕ) × (read_result (memory_laws laws) w ≡ read_failed e)
              × Arrived (memory_laws laws) w [] w'))

  -- The echo server in its process, with the server's real `removeConnection` on closing.
  -- `handleRead` of a connected connection, in the base loop's thread, where the invariants of the
  -- connection and of the server hold, returns or the process exits. Where bytes arrive it sends them back behind what was left unread, in order, leaves
  -- nothing to read and begins the shutdown, unless the reply's first `write`, in the kernel that the
  -- `readv` has left, finds the connection broken; at the end of the stream the connection is closed and out of the server's map, its
  -- destruction is queued once, and that takes it out of the poller; where `readv` fails nothing
  -- changes. The input vector stays below 2^31 bytes and the output vector below 2^63.
  pub handle_read-Served :
      (w : World (Memory K))
      → Inv (memory_laws laws) w
      → w.conn.state ≡ k_connected
      → w.loop.thread_id ≡ w.tid
      → Lifecycle.Inv w.kernel.rest.server
      → length w.conn.input_buffer.storage + 2 * extra_size < 2 ^ 31
      → length w.conn.output_buffer.storage + 2 ^ 31 < max_size
      → Ensures (Served w) (
          handle_read
            (memory_sys sys)
            (conn_callbacks sys (user_callbacks sys number address) number)
            w)
  handle_read-Served w v connected home sv small bound = by_result (read_result L w) refl
    where
      L : SysLaws (memory_sys sys)
      L = memory_laws laws

      E : World (Memory K) → Type 0
      E = Echoed L (close_callback sys number) address w

      echoed :
          ((read_result L w ≡ got []) → ⊥)
          → Ensures (Served w) (
              handle_read
                (memory_sys sys)
                (conn_callbacks sys (user_callbacks sys number address) number)
                w)
      echoed more =
          Ensures-mono E (Served w) _
            (subst (λ cb. Ensures E (handle_read (memory_sys sys) cb w))
              (same_callbacks sys number address)
              (handle_read-Echoed L (close_callback sys number) address w
                (close_callback-KeepsClosed laws number) v connected home small bound))
            λ w' e. elim e [
              | inl r ↦ inl r
              | inr (inl (ends, c)) ↦ absurd (more ends)
              | inr (inr r) ↦ inr (inr r)
            ]

      by_result :
          (r : ReadResult)
          → read_result L w ≡ r
          → Ensures (Served w) (
              handle_read
                (memory_sys sys)
                (conn_callbacks sys (user_callbacks sys number address) number)
                w)
      by_result (got []) ends =
          Ensures-mono (Gone laws (user_callbacks sys number address) number w) (Served w) _
            (handle_read-Gone laws (user_callbacks sys number address) number _ w refl
              logs-IsDiscreet v (rw connected tt) home sv (omega arith) ends)
            λ w' g. inr (inl (ends, g))
      by_result (got (x ∷ xs)) e = echoed (λ ends. distinct (sym ends ∙ e))
      by_result (read_failed errno) e = echoed (λ ends. failed_read (sym ends ∙ e))
