-- ===== src/Inst.antt =====
-- vm/ebpf.h: instructions, the opcodes, and their numbers.
-- An opcode is its class, operation and operand kind; `code` gives the byte of the macro
-- `EBPF_OP_…`, and `decode` finds the case of a `switch (inst.opcode)` for a byte.
pub mod Decode
use Prim.Native.Nat.{bit_or}
use ubpf.Prelude.{
  ℕ, ◌+◌, Bool, true, false, List, [], ◌∷◌, ◌++◌, map, Option, none, some, ◌==◌, if◌then◌else◌,
}
use ubpf.Prelude.Int.{ℤ}

-- `struct ebpf_inst`. The union with a 64-bit word is in `Program`.
pub record Inst : Type 0 where
  pub opcode : ℕ
  pub dst : ℕ
  pub src : ℕ
  pub offset : ℤ
  pub imm : ℤ

-- EBPF_CLS_ALU or EBPF_CLS_ALU64; EBPF_CLS_JMP32 or EBPF_CLS_JMP.
pub data Width : Type 0 where
  w32 w64 : Width

-- EBPF_SRC_IMM, EBPF_SRC_REG.
pub data Operand : Type 0 where
  from_imm from_reg : Operand

-- EBPF_SIZE_B, _H, _W, _DW.
pub data Size : Type 0 where
  byte half word double : Size

-- EBPF_ALU_OP_…, the operations with two operands.
pub data AluOp : Type 0 where
  add sub mul div or and lsh rsh modulo xor mov arsh : AluOp

-- EBPF_MODE_J…, the conditional jumps.
pub data JumpOp : Type 0 where
  jeq jgt jge jset jne jsgt jsge jlt jle jslt jsle : JumpOp

pub data Opcode : Type 0 where
  alu : Width → AluOp → Operand → Opcode
  neg : Width → Opcode
  le be bswap : Opcode
  ldx : Size → Opcode
  ldxbsx ldxhsx ldxwsx : Opcode
  st stx : Size → Opcode
  lddw : Opcode
  jump : Width → JumpOp → Operand → Opcode
  ja ja32 call exit : Opcode
  atomic : Width → Opcode

alu_class : Width → ℕ
alu_class w32 = 0x04
alu_class w64 = 0x07

jump_class : Width → ℕ
jump_class w32 = 0x06
jump_class w64 = 0x05

operand_bit : Operand → ℕ
operand_bit from_imm = 0x00
operand_bit from_reg = 0x08

size_bits : Size → ℕ
size_bits word = 0x00
size_bits half = 0x08
size_bits byte = 0x10
size_bits double = 0x18

alu_code : AluOp → ℕ
alu_code add = 0x00
alu_code sub = 0x10
alu_code mul = 0x20
alu_code div = 0x30
alu_code or = 0x40
alu_code and = 0x50
alu_code lsh = 0x60
alu_code rsh = 0x70
alu_code modulo = 0x90
alu_code xor = 0xa0
alu_code mov = 0xb0
alu_code arsh = 0xc0

jump_code : JumpOp → ℕ
jump_code jeq = 0x10
jump_code jgt = 0x20
jump_code jge = 0x30
jump_code jset = 0x40
jump_code jne = 0x50
jump_code jsgt = 0x60
jump_code jsge = 0x70
jump_code jlt = 0xa0
jump_code jle = 0xb0
jump_code jslt = 0xc0
jump_code jsle = 0xd0

atomic_size : Width → Size
atomic_size w32 = word
atomic_size w64 = double

-- The byte of each opcode: class | operand kind | operation, or class | mode | size.
unfoldable pub code : Opcode → ℕ
unfolding alu_class jump_class operand_bit size_bits alu_code jump_code atomic_size
code (alu w op s) = bit_or (bit_or (alu_class w) (operand_bit s)) (alu_code op)
code (neg w) = bit_or (alu_class w) 0x80
code le = bit_or (bit_or 0x04 0x00) 0xd0
code be = bit_or (bit_or 0x04 0x08) 0xd0
code bswap = bit_or (bit_or 0x07 0x00) 0xd0
code (ldx z) = bit_or (bit_or 0x01 0x60) (size_bits z)
code ldxwsx = bit_or (bit_or 0x01 0x80) 0x00
code ldxhsx = bit_or (bit_or 0x01 0x80) 0x08
code ldxbsx = bit_or (bit_or 0x01 0x80) 0x10
code (st z) = bit_or (bit_or 0x02 0x60) (size_bits z)
code (stx z) = bit_or (bit_or 0x03 0x60) (size_bits z)
code lddw = bit_or (bit_or 0x00 0x00) 0x18
code (jump w op s) = bit_or (bit_or (jump_class w) (operand_bit s)) (jump_code op)
code ja = bit_or 0x05 0x00
code ja32 = bit_or 0x06 0x00
code call = bit_or 0x05 0x80
code exit = bit_or 0x05 0x90
code (atomic w) = bit_or (bit_or 0x03 0xc0) (size_bits (atomic_size w))

alu_opcodes : Width → List AluOp → List Opcode
alu_opcodes w [] = []
alu_opcodes w (op ∷ ops) = alu w op from_imm ∷ alu w op from_reg ∷ alu_opcodes w ops

jump_opcodes : Width → List JumpOp → List Opcode
jump_opcodes w [] = []
jump_opcodes w (op ∷ ops) = jump w op from_imm ∷ jump w op from_reg ∷ jump_opcodes w ops

abbrev alu_ops : List AluOp
alu_ops = add ∷ sub ∷ mul ∷ div ∷ or ∷ and ∷ lsh ∷ rsh ∷ modulo ∷ xor ∷ mov ∷ arsh ∷ []

abbrev jump_ops : List JumpOp
jump_ops = jeq ∷ jgt ∷ jge ∷ jset ∷ jne ∷ jsgt ∷ jsge ∷ jlt ∷ jle ∷ jslt ∷ jsle ∷ []

abbrev sizes : List Size
sizes = word ∷ half ∷ byte ∷ double ∷ []

-- Every case label of the interpreter's `switch`.
unfoldable pub opcodes : List Opcode
unfolding alu_opcodes jump_opcodes
opcodes =
    alu_opcodes w32 alu_ops
    ++ (neg w32 ∷ le ∷ be ∷ bswap ∷ [])
    ++ alu_opcodes w64 alu_ops
    ++ (neg w64 ∷ [])
    ++ map ldx sizes
    ++ (ldxwsx ∷ ldxhsx ∷ ldxbsx ∷ [])
    ++ map st sizes
    ++ map stx sizes
    ++ (lddw ∷ ja ∷ ja32 ∷ [])
    ++ jump_opcodes w64 jump_ops
    ++ jump_opcodes w32 jump_ops
    ++ (exit ∷ call ∷ atomic w64 ∷ atomic w32 ∷ [])

unfoldable pub find_code : List Opcode → ℕ → Option Opcode
find_code [] n = none
find_code (op ∷ ops) n = elim (code op == n) [ true ↦ some op | false ↦ find_code ops n ]

-- `switch (inst.opcode)`: the case for a byte, `none` for `default`.
unfoldable pub decode : ℕ → Option Opcode
unfolding find_code code opcodes
decode n = find_code opcodes n
