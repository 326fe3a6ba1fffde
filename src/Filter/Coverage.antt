-- ===== src/Filter/Coverage.antt =====
-- vm/ubpf_instruction_valid.c against vm/ebpf.h: the filter knows the opcodes of the instruction set.
use ubpf.Prelude.{
  ℕ, zero, suc, ◌<◌, ◌≡◌, ◌≢◌, refl, arith, ap, Bool, true, false, ◌&&◌, ◌||◌, ◌==◌, if◌then◌else◌,
  Option, none, some, Bool-cases, inl, inr, ==_iff, ◌∙◌,
}
use ubpf.Filter.Defs.{InstFilter}
use ubpf.Inst.{Opcode, decode, opcodes, find_code, code}
use ubpf.Filter.{lookup_table, instruction_filter, lookup_from}

abbrev known {ℓ} : {A : Type ℓ} → Option A → Bool
known none = false
known (some a) = true

abbrev all_below : ℕ → (ℕ → Bool) → Bool
all_below (suc n) p = p n && all_below n p
all_below zero p = true

abbrev agrees : ℕ → Bool
agrees n =
    if known (lookup_table n)
    then n == 0 || known (decode n)
    else (if known (decode n) then false else true)

every_opcode : all_below 256 agrees ≡ true
unfolding lookup_table decode find_code lookup_from instruction_filter opcodes code
every_opcode = refl

both : (x y : Bool) → (x && y) ≡ true → (x ≡ true) × (y ≡ true)
both true y h = (refl, h)
both false y h = absurd (ground arith)

all_below-at : (n k : ℕ) (p : ℕ → Bool) → all_below n p ≡ true → k < n → p k ≡ true
all_below-at zero k p h lt = absurd (omega arith)
all_below-at (suc n) k p h lt = elim (Bool-cases (k == n)) [
  | inl e ↦ ap p ((==_iff k n).0 e) ∙ (both (p n) (all_below n p) h).0
  | inr e ↦ all_below-at n k p (both (p n) (all_below n p) h).1 (ground (arith, (==_iff k n).1))
]

known-some {ℓ} : {A : Type ℓ} (o : Option A) → known o ≡ true → (a : A) × (o ≡ some a)
known-some none h = absurd (ground arith)
known-some (some a) h = (a, refl)

filtered :
    (n : ℕ) (f : InstFilter)
    → lookup_table n ≡ some f
    → n ≢ 0
    → agrees n ≡ true
    → known (decode n) ≡ true
filtered n f e nonzero h = ground (arith, ==_iff n 0)

decoded :
    (n : ℕ) (op : Opcode) → decode n ≡ some op → agrees n ≡ true → known (lookup_table n) ≡ true
decoded n op e h = ground arith

agrees_iff :
    (n : ℕ)
    → agrees n ≡ true
    → ((f : InstFilter) → lookup_table n ≡ some f → n ≢ 0 → (op : Opcode) × (decode n ≡ some op))
      × ((op : Opcode) → decode n ≡ some op → (f : InstFilter) × (lookup_table n ≡ some f))
agrees_iff n h = (
  λ f e nonzero. known-some (decode n) (filtered n f e nonzero h),
  λ op e. known-some (lookup_table n) (decoded n op e h),
)

-- The filter of `ubpf_is_valid_instruction` has an entry for every opcode that the interpreter
-- decodes, and for no other but 0, the second half of an LDDW.
pub lookup_table-decode :
    (n : ℕ)
    → n < 256
    → ((f : InstFilter) → lookup_table n ≡ some f → n ≢ 0 → (op : Opcode) × (decode n ≡ some op))
      × ((op : Opcode) → decode n ≡ some op → (f : InstFilter) × (lookup_table n ≡ some f))
lookup_table-decode n h = agrees_iff n (all_below-at 256 n agrees every_opcode h)
