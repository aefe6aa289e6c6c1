-- ===== src/Connection/Unmoved.antt =====
-- TcpConnection.cc: what sending leaves alone, on every path that returns.
use moduo_write.Common.{
  true, false, ℕ, ◌≡◌, refl, ◌∙◌, Bool, not, ◌&&◌, List, ltb, if◌then◌else◌, Outcome, done,
  WhenDone, WhenDone-bind, done-WhenDone, undefined-WhenDone, WhenDone-if,
}
use moduo_write.System.{Sys, IoResult, count, failed}
use moduo_write.Buffer.{Buffer}
use moduo_write.Channel.{Channel}
use moduo_write.Poller.{Poller}
use moduo_write.EventLoop.{Functor, queue_in_loop, push_functor, is_in_loop_thread}
use moduo_write.Connection.{
  World, Callbacks, state_eq, k_disconnected, k_connected, on_channel, queue, set_output,
  queue_write_complete, queue_high_water_mark, buffer_rest, after_direct_write, send_in_loop,
  send_size, send, run_in_loop,
}

module _ {K : Type 0} where
  -- The same state, input and threads.
  pub record Unmoved (w w' : World K) : Type 0 where
    pub state : w'.conn.state ≡ w.conn.state
    pub address : w'.conn.address ≡ w.conn.address
    pub input : w'.conn.input_buffer ≡ w.conn.input_buffer
    pub thread : w'.loop.thread_id ≡ w.loop.thread_id
    pub tid : w'.tid ≡ w.tid

  Unmoved-refl : (w : World K) → Unmoved w w
  Unmoved-refl w = record { state = refl; address = refl; input = refl; thread = refl; tid = refl }

  Unmoved-trans : {u v w : World K} → Unmoved u v → Unmoved v w → Unmoved u w
  Unmoved-trans a b = record {
    state = b.state ∙ a.state;
    address = b.address ∙ a.address;
    input = b.input ∙ a.input;
    thread = b.thread ∙ a.thread;
    tid = b.tid ∙ a.tid;
  }

  set_output-Unmoved : (b : Buffer) (w : World K) → Unmoved w (set_output b w)
  unfolding set_output
  set_output-Unmoved b w = record {
    state = refl;
    address = refl;
    input = refl;
    thread = refl;
    tid = refl;
  }

  on_channel-Unmoved :
      (f : Poller → Channel → K → Outcome (Poller × Channel × K)) (w : World K)
      → WhenDone (Unmoved w) (on_channel f w)
  unfolding on_channel
  on_channel-Unmoved f w =
      WhenDone-bind (Unmoved w) (f w.loop.poller w.conn.channel w.kernel) _ λ r e.
        done-WhenDone (Unmoved w) _
          (record { state = refl; address = refl; input = refl; thread = refl; tid = refl })

  stays-Unmoved : (w : World K) → WhenDone (Unmoved w) (done w)
  stays-Unmoved w = done-WhenDone (Unmoved w) w (Unmoved-refl w)

module _ {K : Type 0} (sys : Sys K) (cb : Callbacks (World K)) where
  queue-Unmoved : (f : Functor) (w : World K) → Unmoved w (queue sys f w)
  unfolding queue queue_in_loop push_functor
  queue-Unmoved f w = record {
    state = refl;
    address = refl;
    input = refl;
    thread = refl;
    tid = refl;
  }

  if-Unmoved : (b : Bool) (w w' : World K) → Unmoved w w' → Unmoved w (if b then w' else w)
  if-Unmoved true w w' u = u
  if-Unmoved false w w' u = Unmoved-refl w

  queue_write_complete-Unmoved : (w : World K) → Unmoved w (queue_write_complete sys cb w)
  unfolding queue_write_complete
  queue_write_complete-Unmoved w = if-Unmoved _ w _ (queue-Unmoved _ w)

  queue_high_water_mark-Unmoved :
      (old_len remaining : ℕ) (w : World K)
      → Unmoved w (queue_high_water_mark sys cb old_len remaining w)
  unfolding queue_high_water_mark
  queue_high_water_mark-Unmoved old_len remaining w = if-Unmoved _ w _ (queue-Unmoved _ w)

  -- A step from a world that is no further.
  after-Unmoved :
      (w w₁ : World K) (m : Outcome (World K))
      → Unmoved w w₁
      → WhenDone (Unmoved w₁) m
      → WhenDone (Unmoved w) m
  after-Unmoved w w₁ m u h a e = Unmoved-trans u (h a e)

  buffer_rest-Unmoved :
      (bytes : List ℕ) (nwrote remaining : ℕ) (fault : Bool) (w : World K)
      → WhenDone (Unmoved w) (buffer_rest sys cb bytes nwrote remaining fault w)
  unfolding buffer_rest
  buffer_rest-Unmoved bytes nwrote remaining fault w =
      WhenDone-if (Unmoved w) (not fault && ltb 0 remaining)
        (after-Unmoved w _ _
          (Unmoved-trans (queue_high_water_mark-Unmoved _ remaining w) (set_output-Unmoved _ _))
          (WhenDone-if _ _ (on_channel-Unmoved _ _) (stays-Unmoved _)))
        (stays-Unmoved w)

  after_direct_write-Unmoved :
      (bytes : List ℕ) (r : IoResult) (w : World K)
      → WhenDone (Unmoved w) (after_direct_write sys cb bytes r w)
  unfolding after_direct_write
  after_direct_write-Unmoved bytes (count n) w =
      after-Unmoved w _ _ (if-Unmoved _ w _ (queue_write_complete-Unmoved w))
        (buffer_rest-Unmoved bytes n _ _ _)
  after_direct_write-Unmoved bytes (failed errno) w = buffer_rest-Unmoved bytes 0 _ _ w

  send_in_loop-Unmoved :
      (bytes : List ℕ) (w : World K) → WhenDone (Unmoved w) (send_in_loop sys cb bytes w)
  unfolding send_in_loop
  send_in_loop-Unmoved bytes w =
      WhenDone-if (Unmoved w) (state_eq w.conn.state k_disconnected) (stays-Unmoved w) (
        WhenDone-if (Unmoved w) _
          (after-Unmoved w _ _
            (record { state = refl; address = refl; input = refl; thread = refl; tid = refl })
            (after_direct_write-Unmoved bytes _ _))
          (buffer_rest-Unmoved bytes 0 _ _ w))

  -- `send` leaves the connection's state and input, and the threads, as they are.
  pub send-Unmoved :
      (address : ℕ) (bytes : List ℕ) (w : World K)
      → WhenDone (Unmoved w) (send sys cb address bytes w)
  unfolding send send_size run_in_loop
  send-Unmoved address bytes w =
      WhenDone-if (Unmoved w) (state_eq w.conn.state k_connected)
        (WhenDone-if (Unmoved w) (is_in_loop_thread w.loop w.tid) (sized w) (
          WhenDone-if (Unmoved w) (is_in_loop_thread w.loop w.tid) (sized w)
            (done-WhenDone _ _ (queue-Unmoved _ w))))
        (stays-Unmoved w)
    where
      sized : (w : World K) → WhenDone (Unmoved w) (send_size sys cb bytes w)
      sized w = WhenDone-if (Unmoved w) _ (send_in_loop-Unmoved _ w) (undefined-WhenDone _)
