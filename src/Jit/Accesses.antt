-- ===== src/Jit/Accesses.antt =====
-- A load and a store of vm/ubpf_jit_x86_64.c in a buffer with room for the longest.
use ubpf.Prelude.{
  ℕ, ◌^◌, ◌≤◌, ◌<◌, ◌≡◌, ◌≢◌, arith, false, some, List, [], ◌∷◌, ◌++◌, length, length-append,
}
use ubpf.Prelude.Int.{ℤ, pos_part, neg_part}
use ubpf.Inst.{Size, byte, half, word, double}
use ubpf.Jit.State.{JitState}
use ubpf.Jit.Emit.{emit_load, emit_store, rsp, rex_w, top_bit, store_opcode}
use ubpf.Jit.Decode.{decode_instruction}
use ubpf.Jit.Appends.{Ready, appended}
use ubpf.Jit.Encoding.{operand_of, length-operand_of}
use ubpf.Jit.Loads.{emit_load-Emits, is_wide, load-Decoded, load_bytes, load_code, load_of, rex_of}
use ubpf.Jit.Stores.{emit_store-Emits, is_half, override_of, store-Decoded, store_of, store_rex_of}

-- No access is longer than nine bytes.
length-rex_of : (w r b : ℕ) → length (rex_of w r b) ≤ 1
length-rex_of w r b = ground arith

length-load_bytes : (size : Size) → length (load_bytes size) ≤ 2
length-load_bytes byte = omega arith
length-load_bytes half = omega arith
length-load_bytes word = omega arith
length-load_bytes double = omega arith

length-override_of : (size : Size) → length (override_of size) ≤ 1
length-override_of byte = omega arith
length-override_of half = omega arith
length-override_of word = omega arith
length-override_of double = omega arith

length-store_rex_of : (size : Size) (r b : ℕ) → length (store_rex_of size r b) ≤ 1
length-store_rex_of byte r b = omega arith
length-store_rex_of half r b = length-rex_of 0 r b
length-store_rex_of word r b = length-rex_of 0 r b
length-store_rex_of double r b = length-rex_of 1 r b

length-load_of : (size : Size) (reg base : ℕ) (d : ℤ) → length (load_of size reg base d) ≤ 9
length-load_of size reg base d = omega (
  arith,
  length-append (rex_of (rex_w size) (top_bit reg) (top_bit base))
      (load_bytes size ++ operand_of reg base d),
  length-rex_of (rex_w size) (top_bit reg) (top_bit base),
  length-append (load_bytes size) (operand_of reg base d),
  length-load_bytes size,
  length-operand_of reg base d,
)

length-store_of : (size : Size) (reg base : ℕ) (d : ℤ) → length (store_of size reg base d) ≤ 9
length-store_of size reg base d = omega (
  arith,
  length-append (override_of size) (
      store_rex_of size (top_bit reg) (top_bit base)
      ++ ((store_opcode size ∷ []) ++ operand_of reg base d)),
  length-override_of size,
  length-append (store_rex_of size (top_bit reg) (top_bit base))
      ((store_opcode size ∷ []) ++ operand_of reg base d),
  length-store_rex_of size (top_bit reg) (top_bit base),
  length-operand_of reg base d,
)

less-Ready : (n k : ℕ) (s : JitState) → k ≤ n → Ready n s → Ready k s
less-Ready n k s h ready = record {
  running = ready.running;
  whole = ready.whole;
  room = omega (arith, ready.room);
  small = ready.small;
}

-- Where the buffer has room for nine bytes and nothing has failed, the bytes that a load and a store
-- of any size append are read by the processor as that access: its width, its register, its base
-- and its displacement are those asked for, and no byte is left over. The base is not RSP.
pub accesses-Decoded :
    (size : Size) (reg base : ℕ) (d : ℤ) (s : JitState)
    → reg < 16
    → base < 16
    → base ≢ rsp
    → pos_part d < 2 ^ 31
    → neg_part d ≤ 2 ^ 31
    → Ready 9 s
    → (loaded stored : List ℕ) × (emit_load size base reg d s ≡ appended loaded s)
      × (decode_instruction loaded
          ≡ some (record {
            override = false;
            wide = is_wide size;
            opcode = load_code size;
            memory_operand = (reg, base, d, []);
          }))
      × (emit_store size reg base d s ≡ appended stored s)
      × (decode_instruction stored
          ≡ some (record {
            override = is_half size;
            wide = is_wide size;
            opcode = store_opcode size;
            memory_operand = (reg, base, d, []);
          }))
accesses-Decoded size reg base d s reg_fits base_fits no_rsp h k ready = (
  load_of size reg base d,
  store_of size reg base d,
  emit_load-Emits size reg base d reg_fits base_fits s
      (less-Ready 9 _ s (length-load_of size reg base d) ready),
  load-Decoded size reg base d reg_fits base_fits no_rsp h k,
  emit_store-Emits size reg base d reg_fits base_fits s
      (less-Ready 9 _ s (length-store_of size reg base d) ready),
  store-Decoded size reg base d reg_fits base_fits no_rsp h k,
)
