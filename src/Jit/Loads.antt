-- ===== src/Jit/Loads.antt =====
-- The loads that vm/ubpf_jit_x86_64.c writes, whole: prefix, opcode and operand.
use ubpf.Prelude.{
  ℕ, ◌+◌, ◌*◌, ◌%◌, ◌^◌, ◌≤◌, ◌<◌, ◌≡◌, ◌≢◌, ◌⊎◌, inl, inr, ◌∙◌, refl, sym, ap, arith, Bool, true,
  false, ◌&&◌, some, List, [], ◌∷◌, ◌++◌, leb, ◌==◌, if◌then◌else◌,
}
use mathlib.Core.Bool.{not}
use ubpf.Prelude.Int.{ℤ, pos_part, neg_part}
use ubpf.Inst.{Size, byte, half, word, double}
use ubpf.Jit.State.{emit1}
use ubpf.Jit.Emit.{
  emit_basic_rex, emit_rex, emit_load, emit_modrm_and_displacement, rsp, rex_w, top_bit,
  load_opcode,
}
use ubpf.Jit.Decode.{decode_operand, decode_with, decode_instruction}
use ubpf.Jit.Appends.{Emits, Emits-then}
use ubpf.Jit.Encoding.{
  operand_of, decode-operand_of, emit1-Emits, skip-Emits, if-Emits,
  emit_modrm_and_displacement-Emits,
}

-- The bytes in front of the operand.
abbrev pub rex_of : ℕ → ℕ → ℕ → List ℕ
rex_of w r b = if not (w + r + b == 0) then (0x40 + w * 8 + r * 4 + 0 * 2 + b) % 256 ∷ [] else []

abbrev pub load_bytes : Size → List ℕ
load_bytes byte = 0x0f ∷ 0xb6 ∷ []
load_bytes half = 0x0f ∷ 0xb7 ∷ []
load_bytes word = 0x8b ∷ []
load_bytes double = 0x8b ∷ []

pub emit_basic_rex-Emits :
    (w src dst : ℕ) → Emits (emit_basic_rex w src dst) (rex_of w (top_bit src) (top_bit dst))
unfolding emit_basic_rex emit_rex
emit_basic_rex-Emits w src dst =
    if-Emits (not (w + top_bit src + top_bit dst == 0)) (emit_rex w (top_bit src) 0 (top_bit dst))
      (λ s. s) _ [] (emit1-Emits (0x40 + w * 8 + top_bit src * 4 + 0 * 2 + top_bit dst)) skip-Emits

load_opcode-Emits : (size : Size) → Emits (load_opcode size) (load_bytes size)
unfolding load_opcode
load_opcode-Emits byte =
    Emits-then (emit1 0x0f) (emit1 0xb6) (0x0f ∷ []) (0xb6 ∷ []) (emit1-Emits 0x0f)
      (emit1-Emits 0xb6)
load_opcode-Emits half =
    Emits-then (emit1 0x0f) (emit1 0xb7) (0x0f ∷ []) (0xb7 ∷ []) (emit1-Emits 0x0f)
      (emit1-Emits 0xb7)
load_opcode-Emits word = emit1-Emits 0x8b
load_opcode-Emits double = emit1-Emits 0x8b

abbrev pub load_of : Size → ℕ → ℕ → ℤ → List ℕ
load_of size reg base d =
    rex_of (rex_w size) (top_bit reg) (top_bit base) ++ (load_bytes size ++ operand_of reg base d)

pub emit_load-Emits :
    (size : Size) (reg base : ℕ) (d : ℤ)
    → reg < 16
    → base < 16
    → Emits (emit_load size base reg d) (load_of size reg base d)
unfolding emit_load
emit_load-Emits size reg base d reg_fits base_fits =
    Emits-then (emit_basic_rex (rex_w size) reg base) _ _ (load_bytes size ++ operand_of reg base d)
      (emit_basic_rex-Emits (rex_w size) reg base)
      (Emits-then (load_opcode size) (emit_modrm_and_displacement reg base d) (load_bytes size)
        (operand_of reg base d) (load_opcode-Emits size)
        (emit_modrm_and_displacement-Emits reg base d reg_fits base_fits))

-- A bit of a register's number, as a Boolean.
abbrev pub bit : Bool → ℕ
bit false = 0
bit true = 1

pub bit_of : (n : ℕ) → (t : Bool) × (top_bit n ≡ bit t)
bit_of n = elim (zero_or_one n) [ inl e ↦ (false, e) | inr e ↦ (true, e) ]
  where
    zero_or_one : (n : ℕ) → (top_bit n ≡ 0) ⊎ (top_bit n ≡ 1)
    zero_or_one n = omega arith

abbrev pub load_code : Size → ℕ
load_code byte = 0x0fb6
load_code half = 0x0fb7
load_code _ = 0x8b

abbrev pub is_wide : Size → Bool
is_wide double = true
is_wide _ = false

abbrev pub has_rex : Bool → Bool → Bool → Bool
has_rex false false false = false
has_rex _ _ _ = true

load-read :
    (size : Size) (r b : Bool) (bytes : List ℕ)
    → decode_instruction (rex_of (rex_w size) (bit r) (bit b) ++ (load_bytes size ++ bytes))
      ≡ decode_with false
          (has_rex (is_wide size) r b)
          (is_wide size)
          (load_code size)
          (bit r)
          (bit b)
          bytes
unfolding decode_instruction
load-read byte false false bytes = refl
load-read byte false true bytes = refl
load-read byte true false bytes = refl
load-read byte true true bytes = refl
load-read half false false bytes = refl
load-read half false true bytes = refl
load-read half true false bytes = refl
load-read half true true bytes = refl
load-read word false false bytes = refl
load-read word false true bytes = refl
load-read word true false bytes = refl
load-read word true true bytes = refl
load-read double false false bytes = refl
load-read double false true bytes = refl
load-read double true false bytes = refl
load-read double true true bytes = refl

pub decode_with-operand :
    (override rex wide : Bool) (opcode r b reg base : ℕ) (d : ℤ) (bytes : List ℕ)
    → decode_operand r b bytes ≡ some (reg, base, d, [])
    → opcode == 0x88 && not rex && leb 4 reg ≡ false
    → decode_with override rex wide opcode r b bytes
      ≡ some (record {
        override = override;
        wide = wide;
        opcode = opcode;
        memory_operand = (reg, base, d, []);
      })
unfolding decode_with
decode_with-operand override rex wide opcode r b reg base d bytes h plain =
    simp (decode_with, h, plain)

load_code-other : (size : Size) → (load_code size == 0x88) ≡ false
load_code-other byte = refl
load_code-other half = refl
load_code-other word = refl
load_code-other double = refl

pub load-Decoded :
    (size : Size) (reg base : ℕ) (d : ℤ)
    → reg < 16
    → base < 16
    → base ≢ rsp
    → pos_part d < 2 ^ 31
    → neg_part d ≤ 2 ^ 31
    → decode_instruction (load_of size reg base d)
      ≡ some (record {
        override = false;
        wide = is_wide size;
        opcode = load_code size;
        memory_operand = (reg, base, d, []);
      })
load-Decoded size reg base d reg_fits base_fits no_rsp h k =
    let (r, at_r) = bit_of reg in
    let (b, at_b) = bit_of base in
    let operand = decode-operand_of reg base d reg_fits base_fits no_rsp h k in
    (λ i.
      decode_instruction
        (rex_of (rex_w size) (at_r i) (at_b i) ++ (load_bytes size ++ operand_of reg base d)))
    ∙ load-read size r b (operand_of reg base d)
    ∙ decode_with-operand false _ _ (load_code size) (bit r) (bit b) reg base d _
        ((λ i. decode_operand (sym at_r i) (sym at_b i) (operand_of reg base d)) ∙ operand)
        (ap (λ t. t && not (has_rex (is_wide size) r b) && leb 4 reg) (load_code-other size))
