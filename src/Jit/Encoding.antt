-- ===== src/Jit/Encoding.antt =====
-- The loads and stores that vm/ubpf_jit_x86_64.c writes are read by the processor as they are meant.
use ubpf.Prelude.{
  ℕ, ◌+◌, ◌*◌, ◌/◌, ◌%◌, ◌^◌, ◌≤◌, ◌<◌, ◌≡◌, ◌≢◌, ◌⊎◌, inl, inr, ◌∙◌, refl, sym, ap, arith, Bool,
  true, false, ◌&&◌, some, List, [], ◌∷◌, ◌++◌, length, ◌==◌, if◌then◌else◌, Bool-cases, if_cases,
  take, drop, take-append-drop,
}
use ubpf.Prelude.Int.{ℤ, pos, pos_part, neg_part}
use ubpf.Word.{to_u32, i8, i32}
use ubpf.Loader.Relocate.{bytes_of}
use ubpf.Jit.State.{JitState, emit1, emit4}
use ubpf.Jit.Emit.{
  emit_modrm, emit_modrm_and_displacement, is_near, is_zero, without_displacement, rsp, r12,
}
use ubpf.Jit.Decode.{decode_operand, with_displacement, with_sib}
use ubpf.Jit.Appends.{Emits, emit_bytes-Emits, Emits-then}

-- The bytes of a memory operand.
abbrev modrm : ℕ → ℕ → ℕ → ℕ
modrm mode reg rm = (mode + reg % 8 * 8 + rm % 8) % 256

abbrev sib_of : ℕ → List ℕ
sib_of rm = if rm == r12 then 0x24 ∷ [] else []

abbrev displacement_of : ℤ → List ℕ
displacement_of d = if is_near d then bytes_of 1 (to_u32 d) else bytes_of 4 (to_u32 d)

abbrev pub operand_of : ℕ → ℕ → ℤ → List ℕ
operand_of reg rm d =
    if is_zero d && without_displacement rm
    then modrm 0 reg rm ∷ []
    else modrm (if is_near d then 0x40 else 0x80) reg rm ∷ (sib_of rm ++ displacement_of d)

near_back : (d : ℤ) → is_near d ≡ true → i8 (to_u32 d % 256) ≡ d
near_back d h = ground arith

far_back :
    (d : ℤ)
    → pos_part d < 2 ^ 31
    → neg_part d ≤ 2 ^ 31
    → i32 (
        to_u32 d % 256
        + 256
          * (to_u32 d / 256 % 256
              + 256 * (to_u32 d / 256 / 256 % 256 + 256 * (to_u32 d / 256 / 256 / 256 % 256))))
      ≡ d
far_back d h k = ground arith

with_displacement-reads :
    (reg base : ℕ) (d : ℤ)
    → pos_part d < 2 ^ 31
    → neg_part d ≤ 2 ^ 31
    → with_displacement (if is_near d then 1 else 2) reg base (displacement_of d)
      ≡ some (reg, base, d, [])
unfolding with_displacement bytes_of
with_displacement-reads reg base d h k = elim (Bool-cases (is_near d)) [
  | inl e ↦ simp (e, near_back d e)
  | inr e ↦ simp (e, far_back d h k)
]

-- The three fields of a ModRM byte.
modrm_fields :
    (mode reg rm : ℕ)
    → mode < 4
    → (modrm (mode * 64) reg rm / 64 ≡ mode)
      × (modrm (mode * 64) reg rm / 8 % 8 ≡ reg % 8)
      × (modrm (mode * 64) reg rm % 8 ≡ rm % 8)
modrm_fields mode reg rm h = (omega arith, omega arith, omega arith)

whole_register : (r : ℕ) → r < 16 → r % 8 + 8 * (r / 8 % 2) ≡ r
whole_register r h = omega arith

with_sib-base :
    (mode reg b : ℕ) (bytes : List ℕ)
    → (mode == 0) ≡ false
    → with_sib mode reg b (0x24 ∷ bytes) ≡ with_displacement mode reg (4 + 8 * b) bytes
unfolding with_sib
with_sib-base mode reg b bytes h = simp (with_sib, h)

decode_operand-sib :
    (m r b : ℕ) (bytes : List ℕ)
    → (m / 64 == 3) ≡ false
    → (m % 8 == 4) ≡ true
    → decode_operand r b (m ∷ bytes) ≡ with_sib (m / 64) (m / 8 % 8 + 8 * r) b bytes
unfolding decode_operand
decode_operand-sib m r b bytes not_3 is_4 = simp (not_3, is_4)

decode_operand-base :
    (m r b : ℕ) (bytes : List ℕ)
    → (m / 64 == 3) ≡ false
    → (m / 64 == 0) ≡ false
    → (m % 8 == 4) ≡ false
    → decode_operand r b (m ∷ bytes)
      ≡ with_displacement (m / 64) (m / 8 % 8 + 8 * r) (m % 8 + 8 * b) bytes
unfolding decode_operand
decode_operand-base m r b bytes not_3 not_0 not_4 = simp (not_3, not_4, not_0)

-- With a displacement: the base 12 has a SIB byte, every other but RSP has none.
decode-displaced :
    (mode reg rm : ℕ) (bytes : List ℕ)
    → (mode ≡ 1) ⊎ (mode ≡ 2)
    → reg < 16
    → rm < 16
    → rm ≢ rsp
    → decode_operand (reg / 8 % 2) (rm / 8 % 2) (modrm (mode * 64) reg rm ∷ (sib_of rm ++ bytes))
      ≡ with_displacement mode reg rm bytes
decode-displaced mode reg rm bytes modes reg_fits rm_fits no_rsp =
    let m = modrm (mode * 64) reg rm in
    let r = reg / 8 % 2 in
    let b = rm / 8 % 2 in
    let (at_mode, at_reg, at_rm) = modrm_fields mode reg rm (omega arith) in
    let reg_back : m / 8 % 8 + 8 * r ≡ reg = omega (arith, at_reg) in
    let not_3 : (m / 64 == 3) ≡ false = ground (arith, at_mode) in
    let not_0 : (m / 64 == 0) ≡ false = ground (arith, at_mode) in
    elim (Bool-cases (rm == r12)) [
      | inl e ↦
          let is_4 : (m % 8 == 4) ≡ true = ground (arith, at_rm) in
          let base : 4 + 8 * b ≡ rm = ground arith in
          ap (λ t. decode_operand r b (m ∷ ((if t then 0x24 ∷ [] else []) ++ bytes))) e
          ∙ decode_operand-sib m r b (0x24 ∷ bytes) not_3 is_4
          ∙ with_sib-base (m / 64) (m / 8 % 8 + 8 * r) b bytes not_0
          ∙ (λ k. with_displacement (at_mode k) (reg_back k) (base k) bytes)
      | inr e ↦
          let not_4 : (m % 8 == 4) ≡ false = ground (arith, at_rm) in
          let base : m % 8 + 8 * b ≡ rm = omega (arith, at_rm) in
          ap (λ t. decode_operand r b (m ∷ ((if t then 0x24 ∷ [] else []) ++ bytes))) e
          ∙ decode_operand-base m r b bytes not_3 not_0 not_4
          ∙ (λ k. with_displacement (at_mode k) (reg_back k) (base k) bytes)
    ]

decode-plain :
    (reg rm : ℕ) (d : ℤ)
    → is_zero d && without_displacement rm ≡ true
    → reg < 16
    → rm < 16
    → decode_operand (reg / 8 % 2) (rm / 8 % 2) (modrm 0 reg rm ∷ []) ≡ some (reg, rm, d, [])
unfolding decode_operand with_displacement
decode-plain reg rm d h reg_fits rm_fits =
    let (at_mode, at_reg, at_rm) = modrm_fields 0 reg rm (omega arith) in
    let reg_back = whole_register reg reg_fits in
    let rm_back = whole_register rm rm_fits in
    let zero_d : d ≡ pos 0 = ground arith in
    let not_4 : (rm % 8 == 4) ≡ false = ground arith in
    let not_5 : (rm % 8 == 5) ≡ false = ground arith in
    simp (decode_operand, at_mode, at_reg, at_rm, reg_back, not_4, not_5, rm_back, zero_d)

pub decode-operand_of :
    (reg rm : ℕ) (d : ℤ)
    → reg < 16
    → rm < 16
    → rm ≢ rsp
    → pos_part d < 2 ^ 31
    → neg_part d ≤ 2 ^ 31
    → decode_operand (reg / 8 % 2) (rm / 8 % 2) (operand_of reg rm d) ≡ some (reg, rm, d, [])
decode-operand_of reg rm d reg_fits rm_fits no_rsp h k =
    if_cases (λ bytes. decode_operand (reg / 8 % 2) (rm / 8 % 2) bytes ≡ some (reg, rm, d, []))
      (is_zero d && without_displacement rm) (λ e. decode-plain reg rm d e reg_fits rm_fits)
      (λ e.
        if_cases
          (λ mode.
            decode_operand (reg / 8 % 2) (rm / 8 % 2)
              (modrm mode reg rm ∷ (sib_of rm ++ displacement_of d))
            ≡ some (reg, rm, d, []))
          (is_near d)
          (λ near.
            decode-displaced 1 reg rm (displacement_of d) (inl refl) reg_fits rm_fits no_rsp
            ∙ ap (λ t. with_displacement (if t then 1 else 2) reg rm (displacement_of d)) (sym near)
            ∙ with_displacement-reads reg rm d h k)
          (λ far.
            decode-displaced 2 reg rm (displacement_of d) (inr refl) reg_fits rm_fits no_rsp
            ∙ ap (λ t. with_displacement (if t then 1 else 2) reg rm (displacement_of d)) (sym far)
            ∙ with_displacement-reads reg rm d h k))

-- The emitters write those bytes.
pub emit1-Emits : (x : ℕ) → Emits (emit1 x) (x % 256 ∷ [])
unfolding emit1 bytes_of
emit1-Emits x = emit_bytes-Emits (x % 256 ∷ [])

emit_modrm-Emits : (mode reg rm : ℕ) → Emits (emit_modrm mode reg rm) (modrm mode reg rm ∷ [])
unfolding emit_modrm
emit_modrm-Emits mode reg rm = emit1-Emits (mode + reg % 8 * 8 + rm % 8)

-- Nothing is written.
pub skip-Emits : Emits (λ s. s) []
skip-Emits s ready =
    let e : s.offset ≡ s.offset + 0 = omega arith in
    let same : s.buf ≡ take s.offset s.buf ++ drop (s.offset + 0) s.buf =
      sym (take-append-drop s.offset s.buf) ∙ ap (λ k. take s.offset s.buf ++ drop k s.buf) e in
    λ k. record s { buf = same k; offset = e k }

pub if-Emits :
    (t : Bool) (f g : JitState → JitState) (xs ys : List ℕ)
    → Emits f xs
    → Emits g ys
    → Emits (λ s. if t then f s else g s) (if t then xs else ys)
if-Emits true f g xs ys hf hg = hf
if-Emits false f g xs ys hf hg = hg

pub emit_modrm_and_displacement-Emits :
    (reg rm : ℕ) (d : ℤ)
    → reg < 16
    → rm < 16
    → Emits (emit_modrm_and_displacement reg rm d) (operand_of reg rm d)
unfolding emit_modrm_and_displacement emit4 bytes_of
emit_modrm_and_displacement-Emits reg rm d reg_fits rm_fits =
    let e : reg % 16 ≡ reg = omega arith in
    let e' : rm % 16 ≡ rm = omega arith in
    let near = is_near d in
    let mode = if near then 0x40 else 0x80 in
    rw (emit_modrm_and_displacement, e, e')
      (if-Emits (is_zero d && without_displacement rm) (emit_modrm 0 reg rm) _ (modrm 0 reg rm ∷ [])
        (modrm mode reg rm ∷ (sib_of rm ++ displacement_of d)) (emit_modrm-Emits 0 reg rm)
        (Emits-then (emit_modrm mode reg rm) _ (modrm mode reg rm ∷ [])
          (sib_of rm ++ displacement_of d) (emit_modrm-Emits mode reg rm)
          (Emits-then (λ s. if rm == r12 then emit1 0x24 s else s) _ (sib_of rm) (displacement_of d)
            (if-Emits (rm == r12) (emit1 0x24) (λ s. s) (0x24 ∷ []) [] (emit1-Emits 0x24)
              skip-Emits)
            (if-Emits near (emit1 (to_u32 d)) (emit4 (to_u32 d)) (bytes_of 1 (to_u32 d))
              (bytes_of 4 (to_u32 d)) (emit1-Emits (to_u32 d))
              (emit_bytes-Emits (bytes_of 4 (to_u32 d)))))))

pub length-operand_of : (reg rm : ℕ) (d : ℤ) → length (operand_of reg rm d) ≤ 6
unfolding bytes_of
length-operand_of reg rm d = ground arith
