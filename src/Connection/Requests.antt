-- ===== src/Connection/Requests.antt =====
-- TcpConnection.cc, `send`: the user's request, from the loop's thread and from another.
use moduo_write.Common.{
  ℕ, ◌+◌, ◌%◌, ◌^◌, ◌<◌, ◌≡◌, refl, ◌≢◌, true, false, List, ltb, ◌==◌, arith, length, take_all,
  done, Ensures,
}
use moduo_write.System.{Sys, SysLaws}
use moduo_write.Buffer.Contents.{max_size}
use moduo_write.EventLoop.{EventLoop, push_functor, wakeup, queue_in_loop, wakes}
use moduo_write.EventLoop
use moduo_write.Connection.{
  World, Callbacks, k_connected, state_eq, run_in_loop, queue, send_size, send, send_in_loop,
}
use moduo_write.Connection.Invariant.{Inv}
use moduo_write.Connection.Sending.{Sent, send_in_loop-Sent}

module _ {K : Type 0} {sys : Sys K} (laws : SysLaws sys) (cb : Callbacks (World K)) where
  send_size-eq :
      (bytes : List ℕ) (w : World K)
      → length bytes < 2 ^ 31
      → send_size sys cb bytes w ≡ send_in_loop sys cb bytes w
  unfolding send_size
  send_size-eq bytes w h =
      let len : length bytes % 2 ^ 32 ≡ length bytes = omega arith in
      let small : ltb (length bytes) (2 ^ 31) ≡ true = ground arith in
      rw (len, small, take_all (length bytes) bytes (omega arith)) refl

  pub send-requests :
      (address : ℕ) (bytes : List ℕ) (w : World K)
      → Inv laws w
      → w.conn.state ≡ k_connected
      → length bytes < 2 ^ 31
      → length w.conn.output_buffer.storage + length bytes < max_size
      → (w.loop.thread_id ≡ w.tid → Ensures (Sent laws cb w bytes) (send sys cb address bytes w))
        × (w.loop.thread_id ≢ w.tid
            → send sys cb address bytes w
              ≡ done (record w {
                loop =
                    push_functor
                      (EventLoop.send_in_loop w.conn.address address (length bytes))
                      w.loop;
                kernel = wakeup sys w.loop w.kernel;
              }))
  unfolding send run_in_loop queue queue_in_loop wakes
  send-requests address bytes w v connected small bound =
      let test : state_eq w.conn.state k_connected ≡ true = rw connected refl in
      let len : length bytes % 2 ^ 32 ≡ length bytes = omega arith in
      (
        λ here.
            let in_loop : (w.loop.thread_id == w.tid) ≡ true = ground arith in
            rw (test, in_loop, send_size-eq bytes w small)
              (send_in_loop-Sent laws cb bytes w v (rw connected tt) (omega arith) bound),
        λ away.
            let not_here : (w.loop.thread_id == w.tid) ≡ false = ground arith in
            rw (test, not_here, len) refl,
      )
