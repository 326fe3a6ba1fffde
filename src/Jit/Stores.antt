-- ===== src/Jit/Stores.antt =====
-- The stores that vm/ubpf_jit_x86_64.c writes, whole: prefixes, opcode and operand.
use ubpf.Prelude.{
  ℕ, ◌+◌, ◌*◌, ◌%◌, ◌^◌, ◌≤◌, ◌<◌, ◌≡◌, ◌≢◌, ◌∙◌, refl, sym, Bool, true, false, ◌&&◌, some, List,
  [], ◌∷◌, ◌++◌, leb, ◌==◌,
}
use mathlib.Core.Bool.{not}
use ubpf.Prelude.Int.{ℤ, pos_part, neg_part}
use ubpf.Inst.{Size, byte, half, word, double}
use ubpf.Jit.State.{emit1}
use ubpf.Jit.Emit.{
  emit_rex, emit_store, emit_modrm_and_displacement, rsp, rex_w, top_bit, store_opcode, store_rex,
  size_override,
}
use ubpf.Jit.Decode.{decode_operand, decode_with, decode_instruction}
use ubpf.Jit.Appends.{Emits, Emits-then}
use ubpf.Jit.Encoding.{
  operand_of, decode-operand_of, emit1-Emits, skip-Emits, emit_modrm_and_displacement-Emits,
}
use ubpf.Jit.Loads.{
  bit, bit_of, decode_with-operand, emit_basic_rex-Emits, has_rex, is_wide, rex_of,
}

-- A store: the size prefix, REX (always for a byte), the opcode and the operand.
abbrev pub override_of : Size → List ℕ
override_of half = 0x66 ∷ []
override_of _ = []

abbrev pub store_rex_of : Size → ℕ → ℕ → List ℕ
store_rex_of byte r b = (0x40 + 0 * 8 + r * 4 + 0 * 2 + b) % 256 ∷ []
store_rex_of size r b = rex_of (rex_w size) r b

abbrev pub store_of : Size → ℕ → ℕ → ℤ → List ℕ
store_of size reg base d =
    override_of size
    ++ (store_rex_of size (top_bit reg) (top_bit base)
        ++ ((store_opcode size ∷ []) ++ operand_of reg base d))

size_override-Emits : (size : Size) → Emits (size_override size) (override_of size)
unfolding size_override
size_override-Emits byte = skip-Emits
size_override-Emits half = emit1-Emits 0x66
size_override-Emits word = skip-Emits
size_override-Emits double = skip-Emits

store_rex-Emits :
    (size : Size) (src dst : ℕ)
    → Emits (store_rex size src dst) (store_rex_of size (top_bit src) (top_bit dst))
unfolding store_rex emit_rex
store_rex-Emits byte src dst = emit1-Emits (0x40 + 0 * 8 + top_bit src * 4 + 0 * 2 + top_bit dst)
store_rex-Emits half src dst = emit_basic_rex-Emits 0 src dst
store_rex-Emits word src dst = emit_basic_rex-Emits 0 src dst
store_rex-Emits double src dst = emit_basic_rex-Emits 1 src dst

store_opcode-Emits : (size : Size) → Emits (emit1 (store_opcode size)) (store_opcode size ∷ [])
store_opcode-Emits byte = emit1-Emits 0x88
store_opcode-Emits half = emit1-Emits 0x89
store_opcode-Emits word = emit1-Emits 0x89
store_opcode-Emits double = emit1-Emits 0x89

pub emit_store-Emits :
    (size : Size) (reg base : ℕ) (d : ℤ)
    → reg < 16
    → base < 16
    → Emits (emit_store size reg base d) (store_of size reg base d)
unfolding emit_store
emit_store-Emits size reg base d reg_fits base_fits =
    let rex = store_rex_of size (top_bit reg) (top_bit base) in
    let rest = (store_opcode size ∷ []) ++ operand_of reg base d in
    Emits-then (size_override size) _ (override_of size) (rex ++ rest) (size_override-Emits size) (
      Emits-then (store_rex size reg base) _ rex rest (store_rex-Emits size reg base) (
        Emits-then (emit1 (store_opcode size)) (emit_modrm_and_displacement reg base d)
          (store_opcode size ∷ []) (operand_of reg base d) (store_opcode-Emits size)
          (emit_modrm_and_displacement-Emits reg base d reg_fits base_fits)))

abbrev pub is_half : Size → Bool
is_half half = true
is_half _ = false

abbrev store_has_rex : Size → Bool → Bool → Bool
store_has_rex byte r b = true
store_has_rex size r b = has_rex (is_wide size) r b

store-read :
    (size : Size) (r b : Bool) (bytes : List ℕ)
    → decode_instruction (
        override_of size
        ++ (store_rex_of size (bit r) (bit b) ++ ((store_opcode size ∷ []) ++ bytes)))
      ≡ decode_with
          (is_half size)
          (store_has_rex size r b)
          (is_wide size)
          (store_opcode size)
          (bit r)
          (bit b)
          bytes
unfolding decode_instruction
store-read byte false false bytes = refl
store-read byte false true bytes = refl
store-read byte true false bytes = refl
store-read byte true true bytes = refl
store-read half false false bytes = refl
store-read half false true bytes = refl
store-read half true false bytes = refl
store-read half true true bytes = refl
store-read word false false bytes = refl
store-read word false true bytes = refl
store-read word true false bytes = refl
store-read word true true bytes = refl
store-read double false false bytes = refl
store-read double false true bytes = refl
store-read double true false bytes = refl
store-read double true true bytes = refl

-- A byte store has REX, so no register is read as AH to BH.
store-plain :
    (size : Size) (r b : Bool) (reg : ℕ)
    → store_opcode size == 0x88 && not (store_has_rex size r b) && leb 4 reg ≡ false
store-plain byte r b reg = refl
store-plain half r b reg = refl
store-plain word r b reg = refl
store-plain double r b reg = refl

pub store-Decoded :
    (size : Size) (reg base : ℕ) (d : ℤ)
    → reg < 16
    → base < 16
    → base ≢ rsp
    → pos_part d < 2 ^ 31
    → neg_part d ≤ 2 ^ 31
    → decode_instruction (store_of size reg base d)
      ≡ some (record {
        override = is_half size;
        wide = is_wide size;
        opcode = store_opcode size;
        memory_operand = (reg, base, d, []);
      })
store-Decoded size reg base d reg_fits base_fits no_rsp h k =
    let (r, at_r) = bit_of reg in
    let (b, at_b) = bit_of base in
    let operand = decode-operand_of reg base d reg_fits base_fits no_rsp h k in
    (λ i. decode_instruction (
      override_of size
      ++ (store_rex_of size (at_r i) (at_b i)
          ++ ((store_opcode size ∷ []) ++ operand_of reg base d))))
    ∙ store-read size r b (operand_of reg base d)
    ∙ decode_with-operand (is_half size) _ _ (store_opcode size) (bit r) (bit b) reg base d _
        ((λ i. decode_operand (sym at_r i) (sym at_b i) (operand_of reg base d)) ∙ operand)
        (store-plain size r b reg)
