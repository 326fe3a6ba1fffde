-- ===== src/Word/Bits.antt =====
-- Laws of `^`, `&` and `|` on native numbers, from the recursion on binary digits.
use Prim.Native.Nat.{
  bit_and, bit_or, bit_xor, differ, digits, bit_xor-bitwise, bit_and-bitwise, bit_or-bitwise, min,
  max,
}
use native.Mathlib.Nat.{pow-suc, le_refl}
use ubpf.Prelude.{ℕ, zero, suc, ◌+◌, ◌*◌, ◌/◌, ◌%◌, ◌^◌, ◌≤◌, ◌<◌, ◌≡◌, refl, arith}

module _ (z : ℕ → ℕ) (f : ℕ → ℕ → ℕ) where
  -- Fuel past the first operand changes nothing.
  digits_enough : (k l x y : ℕ) → x ≤ k → x ≤ l → digits z f k x y ≡ digits z f l x y
  digits_enough zero zero a b p q = refl
  digits_enough zero (suc m) zero b p q = refl
  digits_enough zero (suc m) (suc a) b p q = absurd (omega arith)
  digits_enough (suc n) zero zero b p q = refl
  digits_enough (suc n) zero (suc a) b p q = absurd (omega arith)
  digits_enough (suc n) (suc m) zero b p q = refl
  digits_enough (suc n) (suc m) (suc a) b p q =
      rw (digits_enough n m (suc a / 2) (b / 2) (omega arith) (omega arith))

  digits_next :
      (a b : ℕ)
      → digits z f (suc a) (suc a) b
        ≡ digits z f (suc a / 2) (suc a / 2) (b / 2) * 2 + f (suc a % 2) (b % 2)
  digits_next a b = rw (digits_enough a (suc a / 2) (suc a / 2) (b / 2) (omega arith) (le_refl _))

pub bit_xor_step : (a b : ℕ) → bit_xor a b ≡ bit_xor (a / 2) (b / 2) * 2 + differ (a % 2) (b % 2)
bit_xor_step zero b = simp bit_xor-bitwise (omega arith)
bit_xor_step (suc a) b = simp bit_xor-bitwise (digits_next (λ y. y) differ a b)

-- The lowest digit of a disjunction and of a conjunction, and twice the rest.
pub bit_or_step : (x y : ℕ) → bit_or x y ≡ max (x % 2) (y % 2) + 2 * bit_or (x / 2) (y / 2)
bit_or_step (suc n) y = simp bit_or-bitwise (omega (arith, digits_next (λ t. t) max n y))
bit_or_step zero y = simp bit_or-bitwise (omega arith)

pub bit_and_step : (x y : ℕ) → bit_and x y ≡ min (x % 2) (y % 2) + 2 * bit_and (x / 2) (y / 2)
bit_and_step (suc n) y = simp bit_and-bitwise (omega (arith, digits_next (λ t. 0) min n y))
bit_and_step zero y = simp bit_and-bitwise (omega arith)

-- The two digits, one by one.
differ_digits : (x y : ℕ) → x < 2 → y < 2 → (differ x y < 2) × (differ (differ x y) y ≡ x)
differ_digits zero zero p q = (omega arith, refl)
differ_digits zero (suc zero) p q = (omega arith, refl)
differ_digits (suc zero) zero p q = (omega arith, refl)
differ_digits (suc zero) (suc zero) p q = (omega arith, refl)
differ_digits zero (suc (suc y)) p q = absurd (omega arith)
differ_digits (suc zero) (suc (suc y)) p q = absurd (omega arith)
differ_digits (suc (suc x)) y p q = absurd (omega arith)

differ_mod :
    (a b : ℕ) → (differ (a % 2) (b % 2) < 2) × (differ (differ (a % 2) (b % 2)) (b % 2) ≡ a % 2)
differ_mod a b = differ_digits (a % 2) (b % 2) (omega arith) (omega arith)

-- The two results of a step, as quotient and remainder.
halves : (q r : ℕ) → r < 2 → ((q * 2 + r) / 2 ≡ q) × ((q * 2 + r) % 2 ≡ r)
halves q r h = (omega arith, omega arith)

-- Exclusive or with one key twice gives the word back.
pub bit_xor_twice : (k a b : ℕ) → a < 2 ^ k → b < 2 ^ k → bit_xor (bit_xor a b) b ≡ a
bit_xor_twice zero zero zero h p = refl
bit_xor_twice zero (suc a) b h p = absurd (omega arith)
bit_xor_twice zero zero (suc b) h p = absurd (omega arith)
bit_xor_twice (suc k) a b h p =
    let x = bit_xor (a / 2) (b / 2) in
    let d = differ (a % 2) (b % 2) in
    let small = differ_mod a b in
    let ih =
      bit_xor_twice k (a / 2) (b / 2) (omega (arith, pow-suc 2 k)) (omega (arith, pow-suc 2 k)) in
    rw
      (
        bit_xor_step a b,
        bit_xor_step (x * 2 + d) b,
        (halves x d small.0).0,
        (halves x d small.0).1,
        ih,
        small.1,
      )
      (omega arith)

pub bit_xor-lt : (k a b : ℕ) → a < 2 ^ k → b < 2 ^ k → bit_xor a b < 2 ^ k
bit_xor-lt zero zero zero p q = omega arith
bit_xor-lt zero (suc a) b p q = absurd (omega arith)
bit_xor-lt zero zero (suc b) p q = absurd (omega arith)
bit_xor-lt (suc k) a b p q =
    ground (arith, bit_xor_step a b, pow-suc 2 k, bit_xor-lt k (a / 2) (b / 2), differ_mod a b)

pub bit_or-lt : (k a b : ℕ) → a < 2 ^ k → b < 2 ^ k → bit_or a b < 2 ^ k
bit_or-lt zero zero zero p q = omega arith
bit_or-lt zero (suc a) b p q = absurd (omega arith)
bit_or-lt zero zero (suc b) p q = absurd (omega arith)
bit_or-lt (suc k) a b p q =
    ground (arith, bit_or_step a b, pow-suc 2 k, bit_or-lt k (a / 2) (b / 2))

pub bit_and-lt : (k a b : ℕ) → a < 2 ^ k → b < 2 ^ k → bit_and a b < 2 ^ k
bit_and-lt zero zero zero p q = omega arith
bit_and-lt zero (suc a) b p q = absurd (omega arith)
bit_and-lt zero zero (suc b) p q = absurd (omega arith)
bit_and-lt (suc k) a b p q =
    ground (arith, bit_and_step a b, pow-suc 2 k, bit_and-lt k (a / 2) (b / 2))

-- Three digits, whose order does not matter.
differ_right_comm :
    (x y z : ℕ) → x < 2 → y < 2 → z < 2 → differ (differ x y) z ≡ differ (differ x z) y
differ_right_comm zero zero zero p q r = refl
differ_right_comm zero zero (suc zero) p q r = refl
differ_right_comm zero (suc zero) zero p q r = refl
differ_right_comm zero (suc zero) (suc zero) p q r = refl
differ_right_comm (suc zero) zero zero p q r = refl
differ_right_comm (suc zero) zero (suc zero) p q r = refl
differ_right_comm (suc zero) (suc zero) zero p q r = refl
differ_right_comm (suc zero) (suc zero) (suc zero) p q r = refl
differ_right_comm (suc (suc x)) y z p q r = absurd (omega arith)
differ_right_comm x (suc (suc y)) z p q r = absurd (omega arith)
differ_right_comm x y (suc (suc z)) p q r = absurd (omega arith)

-- Two keys may be applied in either order.
pub bit_xor_right_comm :
    (k a b c : ℕ)
    → a < 2 ^ k
    → b < 2 ^ k
    → c < 2 ^ k
    → bit_xor (bit_xor a b) c ≡ bit_xor (bit_xor a c) b
bit_xor_right_comm zero zero zero zero h p q = refl
bit_xor_right_comm zero (suc a) b c h p q = absurd (omega arith)
bit_xor_right_comm zero zero (suc b) c h p q = absurd (omega arith)
bit_xor_right_comm zero zero zero (suc c) h p q = absurd (omega arith)
bit_xor_right_comm (suc k) a b c h p q =
    let x = bit_xor (a / 2) (b / 2) in
    let y = bit_xor (a / 2) (c / 2) in
    let d = differ (a % 2) (b % 2) in
    let e = differ (a % 2) (c % 2) in
    let ih =
      bit_xor_right_comm k (a / 2) (b / 2) (c / 2) (omega (arith, pow-suc 2 k))
        (omega (arith, pow-suc 2 k)) (omega (arith, pow-suc 2 k)) in
    rw
      (
        bit_xor_step a b,
        bit_xor_step a c,
        bit_xor_step (x * 2 + d) c,
        bit_xor_step (y * 2 + e) b,
        (halves x d (differ_mod a b).0).0,
        (halves x d (differ_mod a b).0).1,
        (halves y e (differ_mod a c).0).0,
        (halves y e (differ_mod a c).0).1,
        ih,
        differ_right_comm (a % 2) (b % 2) (c % 2) (omega arith) (omega arith) (omega arith),
      )
      refl
