-- ===== src/Connection/Flushing.antt =====
-- TcpConnection.cc, `handleWrite`: flushing the output buffer, and the shutdown that waits for it.
use moduo_write.Common.{
  ℕ, ◌≡◌, refl, ap, ◌∙◌, ◌≢◌, ◌⊎◌, inl, inr, true, false, [], ◌++◌, append-nil, drop, sym,
  append_assoc, arith, length, ltb, ◌==◌, if◌then◌else◌, nil_of_length, take-append-drop,
  Bool-cases, done, Ensures, Ensures-mono,
}
use moduo_write.System.{Sys, SysLaws, IoResult, count, failed}
use moduo_write.Buffer.{readable_bytes, retrieve}
use moduo_write.Buffer.Contents.{contents, readable_bytes-length, retrieve-contents}
use moduo_write.Buffer.Descriptor.{write_fd-contents}
use moduo_write.Channel.{is_writing}
use moduo_write.Connection.{
  World, Callbacks, k_disconnecting, set_output, output_done, after_write, handle_write,
}
use moduo_write.Connection.Invariant.{
  Inv, stream, write-Inv, IsOpen, Registered-open, open-Registered, has_output,
}
use moduo_write.Connection.Emptying.{Finished, output_done-Finished}

count-injective : {m n : ℕ} → count m ≡ count n → m ≡ n
count-injective h = cc h

count-ne-failed : {n e : ℕ} → count n ≢ failed e
count-ne-failed h = cc h

module _ {K : Type 0} {sys : Sys K} (laws : SysLaws sys) (cb : Callbacks (World K)) where
  -- A flush moves the bytes that `write` takes from the output buffer to the socket. It shuts the writing side down exactly
  -- if it empties the buffer of a connection that is being shut down.
  pub record Flushes (w w' : World K) : Type 0 where
    pub inv : Inv laws w'
    pub same_stream : stream laws w' ≡ stream laws w
    pub taken :
        (n : ℕ)
        → is_writing w.conn.channel ≡ true
        → (sys.write w.kernel w.conn.channel.fd (contents w.conn.output_buffer)).0 ≡ count n
        → contents w'.conn.output_buffer ≡ drop n (contents w.conn.output_buffer)
    pub shuts :
        is_writing w.conn.channel ≡ true
        → w.conn.state ≡ k_disconnecting
        → contents w'.conn.output_buffer ≡ []
        → (k : K) × (w'.kernel ≡ (sys.shutdown k w.conn.channel.fd).1)
    pub keeps :
        (w.conn.state ≢ k_disconnecting) ⊎ (contents w'.conn.output_buffer ≢ [])
        → laws.shut w'.kernel w.conn.channel.fd ≡ laws.shut w.kernel w.conn.channel.fd

  -- The world when `write` has been handed the output.
  written : World K → K → World K
  written w k = record w { kernel = k }

  -- A channel that waits for writing has output.
  writing_some :
      {w : World K}
      → is_writing w.conn.channel ≡ true
      → Inv laws w
      → IsOpen w.conn.state
      → contents w.conn.output_buffer ≢ []
  writing_some {w} writing v o empty =
      let r = Registered-open w.conn.state w.conn.channel w.conn.output_buffer o v.registered in
      let none_left : has_output w.conn.output_buffer ≡ false = rw empty refl in
      cc (writing, r.2, none_left)

  took :
      (w : World K) (n : ℕ)
      → Inv laws w
      → IsOpen w.conn.state
      → is_writing w.conn.channel ≡ true
      → (sys.write w.kernel w.conn.channel.fd (contents w.conn.output_buffer)).0 ≡ count n
      → let w₁ =
          set_output
            (retrieve w.conn.output_buffer n)
            (written w (sys.write w.kernel w.conn.channel.fd (contents w.conn.output_buffer)).1) in
        Ensures
          (Flushes w)
          (if readable_bytes w₁.conn.output_buffer == 0 then output_done sys cb w₁ else done w₁)
  unfolding set_output written
  took w n v o writing e =
      let c = contents w.conn.output_buffer in
      let w₁ =
        set_output (retrieve w.conn.output_buffer n)
          (written w (sys.write w.kernel w.conn.channel.fd c).1) in
      let r = Registered-open w.conn.state w.conn.channel w.conn.output_buffer o v.registered in
      let i = write-Inv laws w c v in
      let (valid, rest) = retrieve-contents n v.output in
      let same : stream laws w₁ ≡ stream laws w =
        rw ((laws.write_count _ _ n _ e).1, rest, append_assoc, take-append-drop n c) in
      let emptied : (readable_bytes (retrieve w.conn.output_buffer n) == 0) ≡ true
          → contents (retrieve w.conn.output_buffer n) ≡ [] =
        λ all. nil_of_length _ (ground (arith, readable_bytes-length valid)) in
      elim (Bool-cases (readable_bytes w₁.conn.output_buffer == 0)) [
        | inl all ↦ rw all (
            Ensures-mono (Finished laws cb w₁) (Flushes w) _
              (output_done-Finished laws cb w₁ (record {
                input = v.input;
                output = valid;
                tracked = i.tracked;
                other_fd = v.other_fd;
                open_state = o;
                added = r.0;
                reads = r.1;
                empty = emptied all;
              }))
              λ w' f. record {
                inv = f.inv;
                same_stream = f.same_stream ∙ same;
                taken = λ m _ e'.
                    ap contents f.same_output
                    ∙ rest
                    ∙ ap (λ j. drop j c) (count-injective (sym e ∙ e'));
                shuts = λ _ s _. f.shuts s;
                keeps = elim [
                  | inl other ↦ f.keeps other ∙ laws.write_shut _ _ _ _
                  | inr some_left ↦ absurd (some_left (ap contents f.same_output ∙ emptied all))
                ];
              })
        | inr some_left ↦ rw some_left (record {
          inv = record {
            input = v.input;
            output = valid;
            tracked = i.tracked;
            other_fd = v.other_fd;
            registered =
                open-Registered w.conn.state w.conn.channel _ o
                  (r.0, r.1, writing ∙ ground (arith, readable_bytes-length valid));
          };
          same_stream = same;
          taken = λ m _ e'. rest ∙ ap (λ j. drop j c) (count-injective (sym e ∙ e'));
          shuts =
              λ _ _ empty. absurd (ground (arith, readable_bytes-length valid, ap length empty));
          keeps = λ _. laws.write_shut _ _ _ _;
        })
      ]

  after_write-Flushes :
      (w : World K) (r : IoResult)
      → Inv laws w
      → IsOpen w.conn.state
      → is_writing w.conn.channel ≡ true
      → (sys.write w.kernel w.conn.channel.fd (contents w.conn.output_buffer)).0 ≡ r
      → Ensures (Flushes w) (
          after_write sys cb r
            (written w (sys.write w.kernel w.conn.channel.fd (contents w.conn.output_buffer)).1))
  unfolding after_write written set_output
  after_write-Flushes w (failed errno) v o writing e = record {
    inv = write-Inv laws w _ v;
    same_stream = ap (λ xs. xs ++ contents w.conn.output_buffer) (laws.write_failed _ _ errno _ e);
    taken = λ n _ e'. absurd (count-ne-failed (sym e' ∙ e));
    shuts = λ _ _ empty. absurd (writing_some writing v o empty);
    keeps = λ _. laws.write_shut _ _ _ _;
  }
  after_write-Flushes w (count n) v o writing e = elim (Bool-cases (ltb 0 n)) [
    | inl some_taken ↦ rw some_taken (took w n v o writing e)
    | inr none_taken ↦ rw none_taken (record {
      inv = write-Inv laws w _ v;
      same_stream =
          let z : n ≡ 0 = ground arith in
          ap (λ xs. xs ++ contents w.conn.output_buffer)
            ((laws.write_count _ _ n _ e).1 ∙ rw z (append-nil _));
      taken = λ m _ e'.
          let z : m ≡ 0 = ground (arith, count-injective (sym e ∙ e')) in
          ap (λ j. drop j (contents w.conn.output_buffer)) (sym z);
      shuts = λ _ _ empty. absurd (writing_some writing v o empty);
      keeps = λ _. laws.write_shut _ _ _ _;
    })
  ]

  pub handle_write-Flushes :
      (w : World K) → Inv laws w → IsOpen w.conn.state → Ensures (Flushes w) (handle_write sys cb w)
  unfolding handle_write written
  handle_write-Flushes w v o = elim (Bool-cases (is_writing w.conn.channel)) [
    | inl e ↦
        rw (e, write_fd-contents sys laws w.conn.channel.fd w.kernel v.output)
          (after_write-Flushes w _ v o e refl)
    | inr e ↦ rw e (record {
      inv = v;
      same_stream = refl;
      taken = λ n writing. cc (writing, e);
      shuts = λ writing. cc (writing, e);
      keeps = λ _. refl;
    })
  ]
