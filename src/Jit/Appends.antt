-- ===== src/Jit/Appends.antt =====
-- What the emitters of vm/ubpf_jit_x86_64.c add to a buffer that has room.
use ubpf.Prelude.{
  ℕ, ◌+◌, ◌%◌, ◌^◌, ◌≤◌, ◌<◌, ◌≡◌, ◌∙◌, refl, ap, arith, false, List, ◌++◌, length, take, drop,
  length-append, ltb,
}
use ubpf.Loader.Copy.{copied, put_bytes_lem, take-copied, drop-copied, length-copied, append_assoc}
use ubpf.Jit.State.{JitState, no_error, emit_bytes, copy_bytes}

-- No error, and room for `n` bytes more in a buffer that a `uint32_t` measures.
pub record Ready (n : ℕ) (s : JitState) : Type 0 where
  pub running : s.jit_status ≡ no_error
  pub whole : length s.buf ≡ s.size
  pub room : s.offset + n ≤ s.size
  pub small : s.size < 2 ^ 32

-- The bytes overwrite those at the offset, which moves behind them.
abbrev pub appended : List ℕ → JitState → JitState
appended bytes s = record s {
  buf = take s.offset s.buf ++ (bytes ++ drop (s.offset + length bytes) s.buf);
  offset = s.offset + length bytes;
}

abbrev pub Emits : (JitState → JitState) → List ℕ → Type 0
Emits f bytes = (s : JitState) → Ready (length bytes) s → f s ≡ appended bytes s

pub emit_bytes-Emits : (bytes : List ℕ) → Emits (emit_bytes bytes) bytes
unfolding emit_bytes copy_bytes
emit_bytes-Emits bytes s ready =
    let fits : ltb s.size ((s.offset + length bytes) % 2 ^ 32) ≡ false =
      ground (arith, ready.room, ready.small) in
    let stays =
      put_bytes_lem s.offset (length bytes) s.buf bytes refl
        (omega (arith, ready.room, ready.whole)) in
    simp (emit_bytes, ready.running, fits, copy_bytes, stays)

appended-Ready :
    (xs ys : List ℕ) (s : JitState)
    → Ready (length (xs ++ ys)) s
    → Ready (length ys) (appended xs s)
appended-Ready xs ys s ready =
    let grown = length-append xs ys in
    let inside : s.offset + length xs ≤ length s.buf =
      omega (arith, grown, ready.room, ready.whole) in
    record {
      running = ready.running;
      whole = length-copied s.offset (length xs) s.buf xs refl inside ∙ ready.whole;
      room = omega (arith, grown, ready.room);
      small = ready.small;
    }

appended_append :
    (xs ys : List ℕ) (s : JitState)
    → s.offset + length xs ≤ length s.buf
    → appended ys (appended xs s) ≡ appended (xs ++ ys) s
appended_append xs ys s inside =
    let o = s.offset in
    let x = length xs in
    let both : o + x + length ys ≡ o + length (xs ++ ys) = omega (arith, length-append xs ys) in
    let same : take (o + x) (copied o x s.buf xs refl inside)
          ++ (ys ++ drop (o + x + length ys) (copied o x s.buf xs refl inside))
        ≡ take o s.buf ++ ((xs ++ ys) ++ drop (o + length (xs ++ ys)) s.buf) =
      rw
        (
          take-copied o x s.buf xs refl inside,
          drop-copied o x s.buf xs refl inside (length ys),
          both,
          append_assoc,
          append_assoc,
        )
        refl in
    λ k. record s { buf = same k; offset = both k }

pub Emits-then :
    (f g : JitState → JitState) (xs ys : List ℕ)
    → Emits f xs
    → Emits g ys
    → Emits (λ s. g (f s)) (xs ++ ys)
Emits-then f g xs ys first second s ready =
    let grown = length-append xs ys in
    let ready' : Ready (length xs) s = record {
      running = ready.running;
      whole = ready.whole;
      room = omega (arith, grown, ready.room);
      small = ready.small;
    } in
    ap g (first s ready')
    ∙ second (appended xs s) (appended-Ready xs ys s ready)
    ∙ appended_append xs ys s (omega (arith, grown, ready.room, ready.whole))
