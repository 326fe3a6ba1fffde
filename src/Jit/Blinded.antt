-- ===== src/Jit/Blinded.antt =====
-- vm/ubpf_jit_x86_64.c: the emitters with constant blinding. The random constant of
-- `ubpf_generate_blinding_constant` is an argument.
use Prim.Native.Nat.{bit_xor}
use ubpf.Prelude.{ℕ, ◌+◌, ◌%◌, ◌==◌, if◌then◌else◌}
use ubpf.Prelude.Int.{ℤ}
use ubpf.Word.{u32, i32, i64, to_u32, to_u64}
use ubpf.Inst.{Size, double}
use ubpf.Jit.State.{JitState, emit1, emit8}
use ubpf.Jit.Emit.{
  emit_alu32, emit_alu64, emit_alu32_imm32, emit_alu64_imm32, emit_basic_rex, emit_store, fits_32,
}

abbrev pub r10 : ℕ
r10 = 10

abbrev pub r11 : ℕ
r11 = 11

-- A register that is not `dst`.
abbrev pub temporary : ℕ → ℕ
temporary dst = if dst == r11 then r10 else r11

-- `(int32_t)((uint32_t)imm ^ random)`.
abbrev pub blind_32 : ℤ → ℕ → ℤ
blind_32 imm random = i32 (bit_xor (to_u32 imm) (u32 random))

-- movabs.
unfoldable pub emit_movabs : ℕ → ℕ → JitState → JitState
unfolding emit_basic_rex emit1 emit8
emit_movabs dst v s = emit8 v (emit1 (0xb8 + dst % 8) (emit_basic_rex 1 0 dst s))

unfoldable pub emit_load_imm_blinded : ℕ → ℕ → ℤ → JitState → JitState
unfolding emit_movabs emit_alu64 emit_alu64_imm32
emit_load_imm_blinded random dst imm s =
    let blinded = bit_xor (to_u64 imm) random in
    let s₁ =
      if fits_32 (i64 blinded)
      then emit_alu64_imm32 0xc7 0 dst (i32 blinded) s
      else emit_movabs dst blinded s in
    if fits_32 (i64 random)
    then emit_alu64_imm32 0x81 6 dst (i32 random) s₁
    else emit_alu64 0x31 (temporary dst) dst (emit_movabs (temporary dst) random s₁)

-- The blinded constant in the temporary register, and its recovery.
unfoldable pub recover_64 : ℕ → ℕ → ℤ → JitState → JitState
unfolding emit_alu64_imm32
recover_64 random temp imm s =
    emit_alu64_imm32 0x81 6 temp (i32 random) (emit_alu64_imm32 0xc7 0 temp (blind_32 imm random) s)

unfoldable pub recover_32 : ℕ → ℕ → ℤ → JitState → JitState
unfolding emit_alu32_imm32
recover_32 random temp imm s =
    emit_alu32_imm32 0x81 6 temp (i32 random) (emit_alu32_imm32 0xc7 0 temp (blind_32 imm random) s)

-- The opcode between registers for the extension of an immediate one.
abbrev pub register_opcode : ℕ → ℕ
register_opcode src =
    if src == 0
    then 0x01
    else if src == 1
    then 0x09
    else if src == 4
    then 0x21
    else if src == 5
    then 0x29
    else if src == 6
    then 0x31
    else if src == 7
    then 0x39
    else 0x01

abbrev pub recovered_opcode : ℕ → ℕ → ℕ
recovered_opcode op src =
    if op == 0x81 then register_opcode src else if op == 0xc7 then 0x89 else op

unfoldable pub emit_alu64_imm32_blinded : ℕ → ℕ → ℕ → ℕ → ℤ → JitState → JitState
unfolding recover_64 emit_alu64
emit_alu64_imm32_blinded random op src dst imm s =
    emit_alu64 (recovered_opcode op src) (temporary dst) dst
      (recover_64 random (temporary dst) imm s)

unfoldable pub emit_alu32_imm32_blinded : ℕ → ℕ → ℕ → ℕ → ℤ → JitState → JitState
unfolding recover_32 emit_alu32
emit_alu32_imm32_blinded random op src dst imm s =
    emit_alu32 (recovered_opcode op src) (temporary dst) dst
      (recover_32 random (temporary dst) imm s)

unfoldable pub emit_cmp_imm32_blinded : ℕ → ℕ → ℤ → JitState → JitState
unfolding recover_64 emit_alu64
emit_cmp_imm32_blinded random dst imm s =
    emit_alu64 0x39 (temporary dst) dst (recover_64 random (temporary dst) imm s)

unfoldable pub emit_cmp32_imm32_blinded : ℕ → ℕ → ℤ → JitState → JitState
unfolding recover_32 emit_alu32
emit_cmp32_imm32_blinded random dst imm s =
    emit_alu32 0x39 (temporary dst) dst (recover_32 random (temporary dst) imm s)

unfoldable pub emit_test_imm32_blinded : ℕ → ℕ → ℤ → JitState → JitState
unfolding recover_64 emit_alu64
emit_test_imm32_blinded random dst imm s =
    emit_alu64 0x85 (temporary dst) dst (recover_64 random (temporary dst) imm s)

unfoldable pub emit_test32_imm32_blinded : ℕ → ℕ → ℤ → JitState → JitState
unfolding recover_32 emit_alu32
emit_test32_imm32_blinded random dst imm s =
    emit_alu32 0x85 (temporary dst) dst (recover_32 random (temporary dst) imm s)

unfoldable pub emit_store_imm32_blinded : ℕ → Size → ℕ → ℤ → ℤ → JitState → JitState
unfolding recover_64 recover_32 emit_store
emit_store_imm32_blinded random double dst offset imm s =
    emit_store double r11 dst offset (recover_64 random r11 imm s)
emit_store_imm32_blinded random size dst offset imm s =
    emit_store size r11 dst offset (recover_32 random r11 imm s)
