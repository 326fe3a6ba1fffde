-- ===== src/Inst/Decode.antt =====
-- The opcodes of vm/ebpf.h are distinct bytes.
use ubpf.Prelude.{◌<◌, ◌≡◌, refl, arith, some}
use ubpf.Inst.{
  Opcode, code, decode, w32, w64, from_imm, from_reg, add, jeq, byte, alu, neg, le, ldx, st, stx,
  jump, atomic,
}

-- The byte of every opcode is decoded to that opcode: no two opcodes share a byte.
pub decode-code : (op : Opcode) → decode (code op) ≡ some op
unfolding decode code
decode-code le = refl
decode-code (alu w32 add from_imm) = refl
decode-code (alu w64 add from_imm) = refl
decode-code (alu w32 op from_reg) = refl
decode-code (alu w64 op from_reg) = refl
decode-code (jump w32 jeq from_imm) = refl
decode-code (jump w64 jeq from_imm) = refl
decode-code (jump w32 op from_reg) = refl
decode-code (jump w64 op from_reg) = refl
decode-code (ldx byte) = refl
decode-code (st byte) = refl
decode-code (stx byte) = refl
decode-code (neg w32) = refl
decode-code (atomic w32) = refl
decode-code _ = refl

pub code-lt : (op : Opcode) → code op < 256
unfolding code
code-lt le = omega arith
code-lt (alu w32 add from_imm) = omega arith
code-lt (alu w64 add from_imm) = omega arith
code-lt (alu w32 op from_reg) = omega arith
code-lt (alu w64 op from_reg) = omega arith
code-lt (jump w32 jeq from_imm) = omega arith
code-lt (jump w64 jeq from_imm) = omega arith
code-lt (jump w32 op from_reg) = omega arith
code-lt (jump w64 op from_reg) = omega arith
code-lt (ldx byte) = omega arith
code-lt (st byte) = omega arith
code-lt (stx byte) = omega arith
code-lt (neg w32) = omega arith
code-lt (atomic w32) = omega arith
code-lt _ = omega arith
