-- ===== src/Memory/Frame.antt =====
-- vm/ubpf_vm.c: `ubpf_mem_store` against `ubpf_mem_load`.
use ubpf.Prelude.{
  ℕ, zero, suc, ◌+◌, ◌*◌, ◌/◌, ◌%◌, ◌^◌, ◌≤◌, ◌<◌, ◌≡◌, ◌∙◌, ◌⊎◌, arith, some, Option-cases, inl,
  inr, ap,
}
use native.Mathlib.Nat.{pow-suc, mod_def, div-div-eq-div-mul, mul_assoc, mul-div-le, div-add-mod}
use ubpf.Memory.{Memory, write, mem_load, mem_store}

-- A store leaves the bytes outside its range alone.
pub mem_store-outside :
    (n : ℕ) (m m' : Memory) (a v x : ℕ)
    → mem_store n m a v ≡ some m'
    → (x < a) ⊎ (a + n ≤ x)
    → m' x ≡ m x
unfolding mem_store write
mem_store-outside zero m m' a v x h out = cc
mem_store-outside (suc n) m m' a v x h out = elim (Option-cases (m a)) [
  | inl e ↦ absurd (ground arith)
  | inr (b, e) ↦
      let stored : mem_store n (write m a (v % 256)) (a + 1) (v / 256) ≡ some m' = ground arith in
      mem_store-outside n (write m a (v % 256)) m' (a + 1) (v / 256) x stored (ground arith)
      ∙ ground arith
]

-- The remainder by a product, digit by digit.
mod_digit : (v p : ℕ) → v % 256 + 256 * (v / 256 % p) ≡ v % (256 * p)
mod_digit v p = omega (
  arith,
  mod_def (v / 256) p,
  mod_def v (256 * p),
  div-div-eq-div-mul v 256 p,
  ap (λ d. 256 * p * d) (div-div-eq-div-mul v 256 p),
  mul_assoc 256 p (v / 256 / p),
  mul-div-le (v / 256) p,
  div-add-mod v 256,
)

-- A store, where it is possible, leaves the low bytes of its value in its range, as a load of the
-- same width finds them.
pub mem_load-mem_store :
    (n : ℕ) (m m' : Memory) (a v : ℕ)
    → mem_store n m a v ≡ some m'
    → mem_load n m' a ≡ some (v % 256 ^ n)
unfolding mem_store mem_load write
mem_load-mem_store zero m m' a v h = ap some (omega arith)
mem_load-mem_store (suc n) m m' a v h = elim (Option-cases (m a)) [
  | inl e ↦ absurd (ground arith)
  | inr (b, e) ↦
      let m₁ = write m a (v % 256) in
      let stored : mem_store n m₁ (a + 1) (v / 256) ≡ some m' = ground arith in
      let first : m' a ≡ some (v % 256) =
        mem_store-outside n m₁ m' (a + 1) (v / 256) a stored (inl (omega arith)) ∙ ground arith in
      rw (mem_load, first, mem_load-mem_store n m₁ m' (a + 1) (v / 256) stored)
        (ap some (mod_digit v (256 ^ n) ∙ ap (λ p. v % p) (omega (arith, pow-suc 256 n))))
]
