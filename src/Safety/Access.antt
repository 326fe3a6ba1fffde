-- ===== src/Safety/Access.antt =====
-- Loads, stores and atomic operations under the bounds check.
use ubpf.Prelude.{
  ℕ, zero, suc, ◌+◌, ◌*◌, ◌/◌, ◌%◌, ◌^◌, ◌≤◌, ◌<◌, ◌≡◌, refl, arith, true, none, some, inl, inr,
  Bool-cases, ==_iff, ◌==◌,
}
use native.Mathlib.Nat.{pow-suc}
use ubpf.Memory.{Memory, write, mem_load, mem_store}
use ubpf.Vm.{Vm}
use ubpf.Interp.{Regions}
use ubpf.Interp.Bounds.{bounds_check, within, caller_allows}
use ubpf.Safety.{InRegion, Kept}

-- Every byte of the access has the property.
abbrev pub AllIn : (ℕ → Type 0) → ℕ → ℕ → Type 0
AllIn P a size = (k : ℕ) → a ≤ k → k < a + size → P k

within_sound : (start len a e : ℕ) → within start len a e ≡ true → (start ≤ a) × (e ≤ start + len)
unfolding within
within_sound start len a e h = ground arith

-- With the check on and no function of the caller, an access that passes lies in one region.
pub bounds_check-AllIn :
    (vm : Vm) (r : Regions) (a size : ℕ)
    → vm.bounds_check_enabled ≡ true
    → vm.bounds_check_function ≡ none
    → bounds_check vm r a size ≡ true
    → AllIn (InRegion r) a size
unfolding bounds_check caller_allows
bounds_check-AllIn vm r a size on alone h k lo hi = ground (
  arith,
  within_sound r.mem r.mem_len a (a + size),
  within_sound r.stack_start r.stack_length a (a + size),
)

module _ {Known Writable : ℕ → Type 0} {start : Memory} where
  write-Kept :
      (m : Memory) (a b : ℕ)
      → Kept Known Writable start m
      → Writable a
      → b < 256
      → Kept Known Writable start (write m a b)
  unfolding write
  write-Kept m a b kept here small = record {
    mapped = λ x inside. elim (Bool-cases (x == a)) [
      | inl e ↦ (b, rw e, small)
      | inr e ↦ rw e (kept.mapped x inside)
    ];
    unchanged = λ x out. elim (Bool-cases (x == a)) [
      | inl e ↦ absurd (out (rw ((==_iff x a).0 e) here))
      | inr e ↦ rw e (kept.unchanged x out)
    ];
  }

  -- A load of mapped bytes gives a word of its size.
  pub mem_load-lt :
      (n : ℕ) (m : Memory) (a : ℕ)
      → Kept Known Writable start m
      → AllIn Known a n
      → (v : ℕ) × (mem_load n m a ≡ some v) × (v < 256 ^ n)
  unfolding mem_load
  mem_load-lt zero m a kept inside = (0, refl, omega arith)
  mem_load-lt (suc n) m a kept inside =
      let here = kept.mapped a (inside a (omega arith) (omega arith)) in
      let (rest, e, small) =
        mem_load-lt n m (a + 1) kept (λ k p q. inside k (omega arith) (omega arith)) in
      (here.0 + 256 * rest, rw (here.1, e, mem_load), omega (arith, here.2, small, pow-suc 256 n))

  -- A store of bytes in the regions succeeds, and changes nothing else.
  pub mem_store-Kept :
      (n : ℕ) (m : Memory) (a v : ℕ)
      → Kept Known Writable start m
      → AllIn Known a n
      → AllIn Writable a n
      → (m' : Memory) × (mem_store n m a v ≡ some m') × Kept Known Writable start m'
  unfolding mem_store
  mem_store-Kept zero m a v kept known inside = (m, refl, kept)
  mem_store-Kept (suc n) m a v kept known inside =
      let here = kept.mapped a (known a (omega arith) (omega arith)) in
      let rest =
        mem_store-Kept n (write m a (v % 256)) (a + 1) (v / 256)
          (write-Kept m a (v % 256) kept (inside a (omega arith) (omega arith)) (omega arith))
          (λ k p q. known k (omega arith) (omega arith))
          (λ k p q. inside k (omega arith) (omega arith)) in
      (rest.0, rw (here.1, mem_store) rest.1, rest.2)
