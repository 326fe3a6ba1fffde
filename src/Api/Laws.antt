-- ===== src/Api/Laws.antt =====
-- vm/ubpf_vm.c: `ubpf_register` against `ubpf_lookup_registered_function`.
use ubpf.Prelude.{
  ℕ, zero, suc, ◌+◌, ◌≤◌, ◌<◌, ◌≡◌, ◌≢◌, ◌∙◌, refl, arith, ap, Bool, true, false, ◌==◌, Option,
  some, Bool-cases, inl, inr, ==_iff,
}
use ubpf.Vm.{Vm, Helper, max_ext_funcs}
use ubpf.Api.{register, has_name, lookup_from, lookup_registered_function}

-- The loop finds the first index of the name.
lookup_from-first :
    (vm : Vm) (name left i j : ℕ)
    → has_name vm name j ≡ true
    → i ≤ j
    → j < i + left
    → (k : ℕ) × (lookup_from vm name left i ≡ some k)
      × (has_name vm name k ≡ true)
      × (k ≤ j)
      × ((n : ℕ) → i ≤ n → n < k → has_name vm name n ≡ false)
unfolding lookup_from
lookup_from-first vm name zero i j h low high = absurd (omega arith)
lookup_from-first vm name (suc left) i j h low high = elim (Bool-cases (has_name vm name i)) [
  | inl e ↦ (i, rw (lookup_from, e) refl, e, low, λ n p q. absurd (omega arith))
  | inr e ↦
      let other : i ≢ j = λ p. absurd (ground (arith, ap (has_name vm name) p)) in
      let (k, found, named, first, before) =
        lookup_from-first vm name left (i + 1) j h (omega (arith, other)) (omega arith) in
      (
        k,
        rw (lookup_from, e) found,
        named,
        first,
        λ n p q. elim (Bool-cases (n == i)) [
          | inl same ↦ ap (has_name vm name) ((==_iff n i).0 same) ∙ e
          | inr differs ↦ before n (ground (arith, (==_iff n i).1)) q
        ],
      )
]

register-has_name :
    (vm : Vm) (patched : Bool) (idx name : ℕ) (fn : Option Helper)
    → idx < max_ext_funcs
    → has_name (register vm patched idx name fn).0 name idx ≡ true
unfolding register has_name
register-has_name vm patched idx name fn h = ground (arith, ==_iff name name)

-- A function that was registered at an index in range is found by its name, at that index or at
-- the first one before it that has the name as well.
pub lookup_registered_function-register :
    (vm : Vm) (patched : Bool) (idx name : ℕ) (fn : Option Helper)
    → idx < max_ext_funcs
    → let vm' = (register vm patched idx name fn).0 in
      (k : ℕ) × (lookup_registered_function vm' name ≡ some k)
      × (has_name vm' name k ≡ true)
      × (k ≤ idx)
      × ((n : ℕ) → 0 ≤ n → n < k → has_name vm' name n ≡ false)
unfolding lookup_registered_function
lookup_registered_function-register vm patched idx name fn h =
    lookup_from-first (register vm patched idx name fn).0 name max_ext_funcs 0 idx
      (register-has_name vm patched idx name fn h) (omega arith) (omega arith)
