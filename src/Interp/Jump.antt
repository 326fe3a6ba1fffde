-- ===== src/Interp/Jump.antt =====
-- vm/ubpf_vm.c, `ubpf_exec_ex`: the jumps. `pc` is a uint16_t, so an addition to it wraps.
use Prim.Native.Nat.{bit_and}
use mathlib.Core.Bool.{not}
use ubpf.Prelude.{ℕ, Bool, ltb, leb, ◌==◌}
use ubpf.Prelude.Int.{ℤ, pos, ltb_ℤ, ◌+ℤ◌}
use ubpf.Word.{pattern_of, u32, i32, i64}
use ubpf.Inst.{Width, w32, w64, JumpOp, jeq, jgt, jge, jset, jne, jsgt, jsge, jlt, jle, jslt, jsle}
use ubpf.Interp.{State}

-- The conditions on two words of one width, and on the integers that they stand for.
unfoldable pub compares : JumpOp → ℕ → ℕ → ℤ → ℤ → Bool
compares jeq d v sd sv = d == v
compares jgt d v sd sv = ltb v d
compares jge d v sd sv = leb v d
compares jlt d v sd sv = ltb d v
compares jle d v sd sv = leb d v
compares jset d v sd sv = not (bit_and d v == 0)
compares jne d v sd sv = not (d == v)
compares jsgt d v sd sv = ltb_ℤ sv sd
compares jsge d v sd sv = not (ltb_ℤ sd sv)
compares jslt d v sd sv = ltb_ℤ sd sv
compares jsle d v sd sv = not (ltb_ℤ sv sd)

-- EBPF_OP_J…_IMM and _REG; EBPF_OP_J…32_IMM and _REG. An immediate comes sign-extended.
unfoldable pub jump_taken : Width → JumpOp → ℕ → ℕ → Bool
unfolding compares
jump_taken w64 op d v = compares op d v (i64 d) (i64 v)
jump_taken w32 op d v = compares op (u32 d) (u32 v) (i32 d) (i32 v)

unfoldable pub add_pc : ℕ → ℤ → ℕ
unfolding ◌+ℤ◌
add_pc pc offset = pattern_of 16 (pos pc +ℤ offset)

unfoldable pub jump_by : ℤ → State → State
unfolding add_pc
jump_by offset s = record s { pc = add_pc s.pc offset }
