-- ===== src/Connection/Conversation.antt =====
-- TcpConnection.cc: sends, write events and a shutdown of an open connection, in any order.
use moduo_write.Common.{
  ◌+◌, ◌<◌, ◌≡◌, inl, inr, sym, ap, ◌∙◌, subst, List, [], ◌++◌, append-nil, append_assoc, length, ℕ,
  done, Ensures,
}
use moduo_write.System.{Sys, SysLaws}
use moduo_write.Buffer.Contents.{contents, max_size}
use moduo_write.Connection.{World, Callbacks, k_connected, send_in_loop, handle_write, shutdown}
use moduo_write.Connection.Invariant.{Inv, stream, IsOpen}
use moduo_write.Connection.Sending.{Broken, send_in_loop-Sent}
use moduo_write.Connection.Flushing.{handle_write-Flushes}
use moduo_write.Connection.Lifecycle.{shutdown-ShutsDown}

module _ {K : Type 0} {sys : Sys K} (laws : SysLaws sys) (cb : Callbacks (World K)) where
  -- From `w₀`, while the connection was open, these bytes were sent, one call after another, and the
  -- output was flushed at any time. No direct `write` found the connection broken.
  pub data Conversation (w₀ : World K) : List ℕ → World K → Type 0 where
    quiet : Conversation w₀ [] w₀
    sends :
        (xs bytes : List ℕ) (w w' : World K)
        → Conversation w₀ xs w
        → IsOpen w.conn.state
        → length bytes < max_size
        → length w.conn.output_buffer.storage + length bytes < max_size
        → ¬ Broken laws cb w bytes
        → send_in_loop sys cb bytes w ≡ done w'
        → Conversation w₀ (xs ++ bytes) w'
    flushes :
        (xs : List ℕ) (w w' : World K)
        → Conversation w₀ xs w
        → IsOpen w.conn.state
        → handle_write sys cb w ≡ done w'
        → Conversation w₀ xs w'
    shuts_down :
        (xs : List ℕ) (w w' : World K)
        → Conversation w₀ xs w
        → w.conn.state ≡ k_connected
        → w.loop.thread_id ≡ w.tid
        → shutdown sys w ≡ done w'
        → Conversation w₀ xs w'

  kept :
      (w₀ : World K) (xs : List ℕ) (w : World K)
      → Inv laws w₀
      → Conversation w₀ xs w
      → Inv laws w × (stream laws w ≡ stream laws w₀ ++ xs)
  kept w₀ _ _ v quiet = (v, sym (append-nil (stream laws w₀)))
  kept w₀ _ w' v (sends xs bytes w _ h o small bound whole e) =
      let (i, s) = kept w₀ xs w v h in
      let (i', sent) = subst (Ensures _) e (send_in_loop-Sent laws cb bytes w i o small bound) in
      (
        i',
        elim sent [
          | inl all ↦ all ∙ ap (λ ys. ys ++ bytes) s ∙ append_assoc (stream laws w₀) xs bytes
          | inr (_, broken) ↦ absurd (whole broken)
        ],
      )
  kept w₀ xs w' v (flushes _ w _ h o e) =
      let (i, s) = kept w₀ xs w v h in
      let f = subst (Ensures _) e (handle_write-Flushes laws cb w i o) in (f.inv, f.same_stream ∙ s)
  kept w₀ xs w' v (shuts_down _ w _ h connected here e) =
      let (i, s) = kept w₀ xs w v h in
      let f = subst (Ensures _) e (shutdown-ShutsDown laws w i connected here) in
      (f.inv, f.same_stream ∙ s)

  -- However sends, write events and a shutdown follow each other on an open connection, the socket has
  -- got, and the output buffer holds, exactly the bytes that were sent, in order: none is
  -- lost, repeated or overtaken. The sends keep the vector below 2^63 bytes and none finds the
  -- connection broken.
  pub delivered_in_order :
      (w₀ w : World K) (xs : List ℕ)
      → Inv laws w₀
      → contents w₀.conn.output_buffer ≡ []
      → Conversation w₀ xs w
      → Inv laws w
        × (laws.sent w.kernel w.conn.channel.fd ++ contents w.conn.output_buffer
            ≡ laws.sent w₀.kernel w₀.conn.channel.fd ++ xs)
  delivered_in_order w₀ w xs v empty h =
      let (i, s) = kept w₀ xs w v h in
      let nothing_before : stream laws w₀ ≡ laws.sent w₀.kernel w₀.conn.channel.fd =
        ap (◌++◌ (laws.sent w₀.kernel w₀.conn.channel.fd)) empty ∙ append-nil _ in
      (i, s ∙ ap (λ ys. ys ++ xs) nothing_before)
