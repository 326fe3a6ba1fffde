-- ===== src/Alu/Division.antt =====
-- vm/ubpf_vm.c: the signed division and remainder (offset 1 of EBPF_OP_DIV and EBPF_OP_MOD).
use ubpf.Prelude.{
  ℕ, suc, ◌-◌, ◌^◌, ◌≤◌, ◌<◌, ◌≡◌, ◌≢◌, ◌∙◌, refl, arith, ap, Bool, true, false, ◌&&◌,
  if◌then◌else◌, Bool-cases, inl, inr,
}
use ubpf.Prelude.Int.{ℤ, pos, negsuc, pos_part, neg_part, ◌+ℤ◌, ◌*ℤ◌}
use ubpf.Word.{i32, i64, to_u32, to_u64, quot, rem}
use ubpf.Word.Casts.{
  signed_pattern32, signed_pattern64, quot-rem, quot-le, quot-lt, rem-le, signed32-range,
  signed64-range, pattern32-lt, pattern64-lt,
}
use ubpf.Filter.{eq_ℤ}
use ubpf.Alu.{signed_div32, signed_mod32, signed_div64, signed_mod64}

-- The one quotient that does not fit: the lowest integer by -1.
abbrev Overflows : ℕ → ℤ → ℤ → Type 0
Overflows w a b = (neg_part a ≡ w) × (b ≡ negsuc 0)

same_parts : (a b : ℤ) → eq_ℤ a b ≡ true → a ≡ b
same_parts (pos a) (pos b) h = ground arith
same_parts (pos a) (negsuc b) h = ground arith
same_parts (negsuc a) (pos b) h = ground arith
same_parts (negsuc a) (negsuc b) h = ground arith

both : (x y : Bool) → (x && y) ≡ true → (x ≡ true) × (y ≡ true)
both true y h = (refl, h)
both false y h = absurd (ground arith)

-- Past the two guards of the source.
guarded :
    (a b : ℤ) (n x y z : ℕ)
    → b ≢ pos 0
    → ¬ (Overflows (suc n) a b)
    → (if eq_ℤ b (pos 0) then x else if eq_ℤ a (negsuc n) && eq_ℤ b (negsuc 0) then y else z) ≡ z
guarded a b n x y z nonzero fits = elim (Bool-cases (eq_ℤ b (pos 0))) [
  | inl e ↦ absurd (nonzero (same_parts b (pos 0) e))
  | inr e ↦ elim (Bool-cases (eq_ℤ a (negsuc n) && eq_ℤ b (negsuc 0))) [
    | inl f ↦
        let (fa, fb) = both (eq_ℤ a (negsuc n)) (eq_ℤ b (negsuc 0)) f in
        absurd (fits (ap neg_part (same_parts a (negsuc n) fa), same_parts b (negsuc 0) fb))
    | inr f ↦ rw (e, f) refl
  ]
]

quot-low : (a b : ℤ) (w : ℕ) → pos_part a < w → neg_part a ≤ w → neg_part (quot a b) ≤ w
quot-low (pos a) b w high low = omega (arith, quot-le (pos a) b)
quot-low (negsuc a) b w high low = omega (arith, quot-le (negsuc a) b)

≤-<-trans : {a b c : ℕ} → a ≤ b → b < c → a < c
≤-<-trans p q = omega arith

≤-trans : {a b c : ℕ} → a ≤ b → b ≤ c → a ≤ c
≤-trans p q = omega arith

back32 : (z : ℤ) → pos_part z < 2 ^ 31 → neg_part z ≤ 2 ^ 31 → i32 (to_u32 z) ≡ z
back32 z p q = signed_pattern32 z (to_u32 z) p q (omega (arith, pattern32-lt z))

back64 : (z : ℤ) → pos_part z < 2 ^ 63 → neg_part z ≤ 2 ^ 63 → i64 (to_u64 z) ≡ z
back64 z p q = signed_pattern64 z (to_u64 z) p q (omega (arith, pattern64-lt z))

div32-quot :
    (d v : ℕ)
    → i32 v ≢ pos 0
    → ¬ (Overflows (2 ^ 31) (i32 d) (i32 v))
    → i32 (signed_div32 d v) ≡ quot (i32 d) (i32 v)
unfolding signed_div32
div32-quot d v nonzero fits =
    let value : signed_div32 d v ≡ to_u32 (quot (i32 d) (i32 v)) =
      guarded (i32 d) (i32 v) (2 ^ 31 - 1) _ _ _ nonzero fits in
    let (high, low) = signed32-range d in
    let size = quot-le (i32 d) (i32 v) in
    ap i32 value
    ∙ back32 (quot (i32 d) (i32 v)) (quot-lt (i32 d) (i32 v) (2 ^ 31) low high fits)
        (quot-low (i32 d) (i32 v) (2 ^ 31) high low)

mod32-rem :
    (d v : ℕ)
    → i32 v ≢ pos 0
    → ¬ (Overflows (2 ^ 31) (i32 d) (i32 v))
    → i32 (signed_mod32 d v) ≡ rem (i32 d) (i32 v)
unfolding signed_mod32
mod32-rem d v nonzero fits =
    let value : signed_mod32 d v ≡ to_u32 (rem (i32 d) (i32 v)) =
      guarded (i32 d) (i32 v) (2 ^ 31 - 1) _ _ _ nonzero fits in
    let (high, low) = signed32-range d in
    let (rem_high, rem_low) = rem-le (i32 d) (i32 v) in
    ap i32 value ∙ back32 (rem (i32 d) (i32 v)) (≤-<-trans rem_high high) (≤-trans rem_low low)

div64-quot :
    (d v : ℕ)
    → i64 v ≢ pos 0
    → ¬ (Overflows (2 ^ 63) (i64 d) (i64 v))
    → i64 (signed_div64 d v) ≡ quot (i64 d) (i64 v)
unfolding signed_div64
div64-quot d v nonzero fits =
    let value : signed_div64 d v ≡ to_u64 (quot (i64 d) (i64 v)) =
      guarded (i64 d) (i64 v) (2 ^ 63 - 1) _ _ _ nonzero fits in
    let (high, low) = signed64-range d in
    let size = quot-le (i64 d) (i64 v) in
    ap i64 value
    ∙ back64 (quot (i64 d) (i64 v)) (quot-lt (i64 d) (i64 v) (2 ^ 63) low high fits)
        (quot-low (i64 d) (i64 v) (2 ^ 63) high low)

mod64-rem :
    (d v : ℕ)
    → i64 v ≢ pos 0
    → ¬ (Overflows (2 ^ 63) (i64 d) (i64 v))
    → i64 (signed_mod64 d v) ≡ rem (i64 d) (i64 v)
unfolding signed_mod64
mod64-rem d v nonzero fits =
    let value : signed_mod64 d v ≡ to_u64 (rem (i64 d) (i64 v)) =
      guarded (i64 d) (i64 v) (2 ^ 63 - 1) _ _ _ nonzero fits in
    let (high, low) = signed64-range d in
    let (rem_high, rem_low) = rem-le (i64 d) (i64 v) in
    ap i64 value ∙ back64 (rem (i64 d) (i64 v)) (≤-<-trans rem_high high) (≤-trans rem_low low)

-- The 32-bit signed quotient and remainder make up the dividend, unless the divisor is 0 or the
-- quotient does not fit.
pub signed_div32-mod32 :
    (d v : ℕ)
    → i32 v ≢ pos 0
    → ¬ ((neg_part (i32 d) ≡ 2 ^ 31) × (i32 v ≡ negsuc 0))
    → i32 v *ℤ i32 (signed_div32 d v) +ℤ i32 (signed_mod32 d v) ≡ i32 d
signed_div32-mod32 d v nonzero fits =
    ap (λ q. i32 v *ℤ q +ℤ i32 (signed_mod32 d v)) (div32-quot d v nonzero fits)
    ∙ ap (λ m. i32 v *ℤ quot (i32 d) (i32 v) +ℤ m) (mod32-rem d v nonzero fits)
    ∙ quot-rem (i32 d) (i32 v) nonzero

-- The 64-bit signed quotient and remainder make up the dividend, unless the divisor is 0 or the
-- quotient does not fit.
pub signed_div64-mod64 :
    (d v : ℕ)
    → i64 v ≢ pos 0
    → ¬ ((neg_part (i64 d) ≡ 2 ^ 63) × (i64 v ≡ negsuc 0))
    → i64 v *ℤ i64 (signed_div64 d v) +ℤ i64 (signed_mod64 d v) ≡ i64 d
signed_div64-mod64 d v nonzero fits =
    ap (λ q. i64 v *ℤ q +ℤ i64 (signed_mod64 d v)) (div64-quot d v nonzero fits)
    ∙ ap (λ m. i64 v *ℤ quot (i64 d) (i64 v) +ℤ m) (mod64-rem d v nonzero fits)
    ∙ quot-rem (i64 d) (i64 v) nonzero
