-- ===== src/Jit/Decode.antt =====
-- How a processor of x86-64 reads the instructions with one memory operand that the back end of
-- vm/ubpf_jit_x86_64.c writes: prefixes, opcode, ModRM, SIB and displacement. This is the manual's
-- description, and no code of the repository.
use ubpf.Prelude.{
  ℕ, ◌+◌, ◌*◌, ◌/◌, ◌%◌, Bool, true, false, ◌&&◌, Option, none, some, List, [], ◌∷◌, ltb, leb, ◌==◌,
  if◌then◌else◌,
}
use mathlib.Core.Bool.{not}
use ubpf.Prelude.Int.{ℤ, pos}
use ubpf.Word.{i8, i32}

-- The register, the base, the displacement of the operand, and the bytes behind it.
abbrev pub MemoryOperand : Type 0
MemoryOperand = ℕ × ℕ × ℤ × List ℕ

-- An instruction: the operand-size prefix, REX.W, the opcode (0x0f00 and up with two bytes), the
-- register and the memory operand.
pub record Decoded : Type 0 where
  pub override : Bool
  pub wide : Bool
  pub opcode : ℕ
  pub memory_operand : MemoryOperand

unfoldable pub with_displacement : ℕ → ℕ → ℕ → List ℕ → Option MemoryOperand
with_displacement mode reg base bytes =
    if mode == 0
    then some (reg, base, pos 0, bytes)
    else if mode == 1
    then elim bytes [ [] ↦ none | b ∷ rest ↦ some (reg, base, i8 b, rest) ]
    else elim bytes [
      | b0 ∷ b1 ∷ b2 ∷ b3 ∷ rest ↦
          some (reg, base, i32 (b0 + 256 * (b1 + 256 * (b2 + 256 * b3))), rest)
      | _ ↦ none
    ]

-- A SIB byte without an index; base 5 with mode 0 has no base.
unfoldable pub with_sib : ℕ → ℕ → ℕ → List ℕ → Option MemoryOperand
unfolding with_displacement
with_sib mode reg b [] = none
with_sib mode reg b (sib ∷ bytes) =
    if sib / 8 % 8 == 4 && not (mode == 0 && sib % 8 == 5)
    then with_displacement mode reg (sib % 8 + 8 * b) bytes
    else none

-- With the bits REX.R and REX.B. Mode 3 is no memory operand; mode 0 with 5 is relative to RIP.
unfoldable pub decode_operand : ℕ → ℕ → List ℕ → Option MemoryOperand
unfolding with_sib with_displacement
decode_operand r b [] = none
decode_operand r b (modrm ∷ bytes) =
    let mode = modrm / 64 in
    let reg = modrm / 8 % 8 + 8 * r in
    let rm = modrm % 8 in
    if mode == 3
    then none
    else if rm == 4
    then with_sib mode reg b bytes
    else if mode == 0 && rm == 5
    then none
    else with_displacement mode reg (rm + 8 * b) bytes

-- A byte store without REX has AH to BH for the registers 4 to 7.
unfoldable pub decode_with : Bool → Bool → Bool → ℕ → ℕ → ℕ → List ℕ → Option Decoded
unfolding decode_operand
decode_with override rex wide opcode r b bytes = elim (decode_operand r b bytes) [
  | none ↦ none
  | some operand ↦
      if opcode == 0x88 && not rex && leb 4 (operand.0)
      then none
      else some
          (record { override = override; wide = wide; opcode = opcode; memory_operand = operand })
]

unfoldable pub decode_opcode : Bool → Bool → Bool → ℕ → ℕ → List ℕ → Option Decoded
unfolding decode_with
decode_opcode override rex wide r b [] = none
decode_opcode override rex wide r b (op ∷ bytes) =
    if op == 0x0f
    then elim bytes [
      | [] ↦ none
      | second ∷ rest ↦ decode_with override rex wide (0x0f00 + second) r b rest
    ]
    else decode_with override rex wide op r b bytes

-- REX is 0x40 to 0x4f; REX.X belongs to an index.
unfoldable pub decode_rex : Bool → List ℕ → Option Decoded
unfolding decode_opcode
decode_rex override [] = none
decode_rex override (x ∷ bytes) =
    if leb 0x40 x && ltb x 0x50
    then decode_opcode override true (x / 8 % 2 == 1) (x / 4 % 2) (x % 2) bytes
    else decode_opcode override false false 0 0 (x ∷ bytes)

unfoldable pub decode_instruction : List ℕ → Option Decoded
unfolding decode_rex
decode_instruction [] = none
decode_instruction (x ∷ bytes) =
    if x == 0x66 then decode_rex true bytes else decode_rex false (x ∷ bytes)
