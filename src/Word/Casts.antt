-- ===== src/Word/Casts.antt =====
-- The casts of vm/ubpf_vm.c between the signed and the unsigned types of one width undo each other
-- in range; truncated division.
use ubpf.Prelude.{
  ℕ, zero, suc, ◌+◌, ◌/◌, ◌%◌, ◌^◌, ◌≤◌, ◌<◌, ◌≡◌, ◌≢◌, refl, arith, Bool-cases, inl, inr, ==_iff,
  ◌==◌,
}
use native.Mathlib.Nat.{div-add-mod, div-le_self, mod-le, div-one, div-lt_self}
use ubpf.Prelude.Int.{ℤ, pos, negsuc, pos_part, neg_part, ◌+ℤ◌, ◌*ℤ◌}
use ubpf.Word.{pattern_of, signed, quot, rem, negate}

pub signed_pattern16 :
    (z : ℤ) (x : ℕ)
    → pos_part z < 2 ^ 15
    → neg_part z ≤ 2 ^ 15
    → x % 2 ^ 16 ≡ pattern_of 16 z
    → signed 15 x ≡ z
signed_pattern16 (pos n) x p q e = ground arith
signed_pattern16 (negsuc n) x p q e = ground arith

pub signed_pattern32 :
    (z : ℤ) (x : ℕ)
    → pos_part z < 2 ^ 31
    → neg_part z ≤ 2 ^ 31
    → x % 2 ^ 32 ≡ pattern_of 32 z
    → signed 31 x ≡ z
signed_pattern32 (pos n) x p q e = ground arith
signed_pattern32 (negsuc n) x p q e = ground arith

pub pattern16-lt : (z : ℤ) → pattern_of 16 z < 2 ^ 16
pattern16-lt (pos n) = omega arith
pattern16-lt (negsuc n) = omega arith

pub pattern32-lt : (z : ℤ) → pattern_of 32 z < 2 ^ 32
pattern32-lt (pos n) = omega arith
pattern32-lt (negsuc n) = omega arith

negate_parts : (n : ℕ) → (pos_part (negate n) ≡ 0) × (neg_part (negate n) ≡ n)
negate_parts zero = (refl, refl)
negate_parts (suc n) = (refl, refl)

-- The quotient and the remainder make up the dividend.
pub quot-rem : (a b : ℤ) → b ≢ pos 0 → b *ℤ quot a b +ℤ rem a b ≡ a
unfolding ◌*ℤ◌ ◌+ℤ◌ quot rem
quot-rem (pos a) (pos b) h = ground (arith, div-add-mod a b)
quot-rem (pos a) (negsuc b) h = ground (arith, div-add-mod a (suc b), negate_parts (a / suc b))
quot-rem (negsuc a) (pos b) h =
    ground (arith, div-add-mod (suc a) b, negate_parts (suc a / b), negate_parts (suc a % b))
quot-rem (negsuc a) (negsuc b) h =
    ground (arith, div-add-mod (suc a) (suc b), negate_parts (suc a % suc b))

pub signed_pattern64 :
    (z : ℤ) (x : ℕ)
    → pos_part z < 2 ^ 63
    → neg_part z ≤ 2 ^ 63
    → x % 2 ^ 64 ≡ pattern_of 64 z
    → signed 63 x ≡ z
signed_pattern64 (pos n) x p q e = ground arith
signed_pattern64 (negsuc n) x p q e = ground arith

-- The quotient is no larger than the dividend, and its sign is known.
pub quot-le : (a b : ℤ) → pos_part (quot a b) + neg_part (quot a b) ≤ pos_part a + neg_part a
unfolding quot
quot-le (pos a) (pos b) = omega (arith, div-le_self a b)
quot-le (pos a) (negsuc b) = omega (arith, div-le_self a (suc b), negate_parts (a / suc b))
quot-le (negsuc a) (pos b) = omega (arith, div-le_self (suc a) b, negate_parts (suc a / b))
quot-le (negsuc a) (negsuc b) = omega (arith, div-le_self (suc a) (suc b))

-- Only the lowest integer divided by -1 leaves the range.
pub quot-lt :
    (a b : ℤ) (w : ℕ)
    → neg_part a ≤ w
    → pos_part a < w
    → ¬ ((neg_part a ≡ w) × (b ≡ negsuc 0))
    → pos_part (quot a b) < w
unfolding quot
quot-lt (pos a) (pos b) w low high h = omega (arith, div-le_self a b)
quot-lt (pos a) (negsuc b) w low high h = omega (arith, negate_parts (a / suc b))
quot-lt (negsuc a) (pos b) w low high h = omega (arith, negate_parts (suc a / b))
quot-lt (negsuc a) (negsuc zero) w low high h = elim (Bool-cases (suc a == w)) [
  | inl e ↦ absurd (h ((==_iff _ _).0 e, refl))
  | inr e ↦
      let other : ¬ (suc a ≡ w) = λ p. absurd (ground (arith, (==_iff (suc a) w).1 p)) in
      omega (arith, div-one (suc a), other)
]
quot-lt (negsuc a) (negsuc (suc b)) w low high h =
    omega (arith, div-lt_self {n = suc a} {k = suc (suc b)} (omega arith) (omega arith))

pub rem-le : (a b : ℤ) → (pos_part (rem a b) ≤ pos_part a) × (neg_part (rem a b) ≤ neg_part a)
unfolding rem
rem-le (pos a) (pos b) = (mod-le a b, omega arith)
rem-le (pos a) (negsuc b) = (mod-le a (suc b), omega arith)
rem-le (negsuc a) (pos b) = (
  omega (arith, negate_parts (suc a % b)),
  omega (arith, negate_parts (suc a % b), mod-le (suc a) b),
)
rem-le (negsuc a) (negsuc b) = (
  omega (arith, negate_parts (suc a % suc b)),
  omega (arith, negate_parts (suc a % suc b), mod-le (suc a) (suc b)),
)

pub signed32-range : (x : ℕ) → (pos_part (signed 31 x) < 2 ^ 31) × (neg_part (signed 31 x) ≤ 2 ^ 31)
signed32-range x = (ground arith, ground arith)

pub signed64-range : (x : ℕ) → (pos_part (signed 63 x) < 2 ^ 63) × (neg_part (signed 63 x) ≤ 2 ^ 63)
signed64-range x = (ground arith, ground arith)

pub pattern64-lt : (z : ℤ) → pattern_of 64 z < 2 ^ 64
pattern64-lt (pos n) = omega arith
pattern64-lt (negsuc n) = omega arith
