-- ===== src/Api/Profile/Valid.antt =====
-- vm/ubpf_safe.c: registering a region keeps the table of regions valid.
use ubpf.Prelude.{
  ℕ, ◌^◌, ◌<◌, ◌≡◌, ◌∙◌, refl, sym, ap, arith, true, ◌==◌, Option, some, none, Bool-cases, inl, inr,
  ==_iff,
}
use mathlib.Core.Option.{some-injective}
use mathlib.Core.Path.{subst}
use ubpf.Vm.{Vm, SafeRegion, max_safe_regions}
use ubpf.Interp.{update}
use ubpf.Safe.Access.{has_id}
use ubpf.Api.Profile.{RegionDescriptor, region_of, register_safe_region}
use ubpf.Api.Profile.Table.{Table}
use ubpf.Api.Profile.Regions.{
  ValidRegion, ValidTable, Placed, register-Placed, update_same, update_other, Chosen, slot_in,
}
use ubpf.Api.Profile.Refused.{register_safe_region-Unchanged}

has_id-some :
    (o : Option SafeRegion) (id : ℕ)
    → has_id o id ≡ true
    → (x : SafeRegion) × (o ≡ some x) × (x.id ≡ id)
has_id-some none id h = absurd (ground arith)
has_id-some (some x) id h = (x, refl, (==_iff x.id id).0 h)

module _ (table : Table) (d : RegionDescriptor) (j : ℕ) (c : Chosen table d j)
    (valid : ValidTable table) (new : ValidRegion (region_of d)) where
  abbrev table' : Table
  table' = update table j (some (region_of d))

  entry_at : (k : ℕ) (x : SafeRegion) → table' k ≡ some x → k ≡ j → region_of d ≡ x
  entry_at k x h same =
      some-injective _ _ (sym (update_same table j (some (region_of d))) ∙ ap table' (sym same) ∙ h)

  entry_off : (k : ℕ) (x : SafeRegion) → table' k ≡ some x → ¬ (k ≡ j) → table k ≡ some x
  entry_off k x h other = sym (update_other table j k (some (region_of d)) other) ∙ h

  -- An entry of the id that is registered is the one that is replaced.
  own_entry :
      (k : ℕ) (y : SafeRegion) → k < max_safe_regions → table k ≡ some y → y.id ≡ d.id → k ≡ j
  own_entry k y small h e = elim c [
    | inl f ↦
        let (x, at_j, named) = has_id-some (table j) d.id f.named in
        valid.distinct k j y x small (slot_in table d j (inl f)) h at_j (e ∙ sym named)
    | inr f ↦
        let named : has_id (table k) d.id ≡ true =
          ap (λ o. has_id o d.id) h ∙ (==_iff y.id d.id).1 e in
        let missing = f.unnamed k (omega arith) (omega (arith, small)) in absurd (ground arith)
  ]

  id_of : (k : ℕ) (x : SafeRegion) → table' k ≡ some x → k ≡ j → x.id ≡ d.id
  unfolding region_of
  id_of k x h same = ap (λ (r : SafeRegion). r.id) (sym (entry_at k x h same))

  update-ValidTable : ValidTable table'
  update-ValidTable = record {
    entries = λ k x h. elim (Bool-cases (k == j)) [
      | inl e ↦ subst ValidRegion (entry_at k x h ((==_iff k j).0 e)) new
      | inr e ↦ valid.entries k x (entry_off k x h (λ same. ground (arith, ==_iff k j)))
    ];
    distinct = λ a b x y small_a small_b h g same. elim (Bool-cases (a == j)) [
      | inl e ↦
          let at_a : a ≡ j = (==_iff a j).0 e in
          elim (Bool-cases (b == j)) [
            | inl f ↦ at_a ∙ sym ((==_iff b j).0 f)
            | inr f ↦
                let off = entry_off b y g (λ at_b. ground (arith, ==_iff b j)) in
                at_a ∙ sym (own_entry b y small_b off (sym same ∙ id_of a x h at_a))
          ]
      | inr e ↦
          let off_a = entry_off a x h (λ at_a. ground (arith, ==_iff a j)) in
          elim (Bool-cases (b == j)) [
            | inl f ↦
                let at_b : b ≡ j = (==_iff b j).0 f in
                own_entry a x small_a off_a (same ∙ id_of b y g at_b) ∙ sym at_b
            | inr f ↦
                valid.distinct a b x y small_a small_b off_a
                  (entry_off b y g (λ at_b. ground (arith, ==_iff b j))) same
          ]
    ];
  }

Placed-ValidTable :
    (vm vm' : Vm) (d : RegionDescriptor)
    → Placed vm d vm'
    → d.base < 2 ^ 64
    → d.size < 2 ^ 64
    → ValidTable vm.safe_regions
    → ValidTable vm'.safe_regions
Placed-ValidTable vm vm' d p base size valid =
    subst ValidTable (sym (ap (λ (m : Vm). m.safe_regions) p.stored))
      (update-ValidTable vm.safe_regions d p.slot p.chosen valid (p.valid base size))

pub register_safe_region-ValidTable :
    (vm : Vm) (d : RegionDescriptor)
    → d.base < 2 ^ 64
    → d.size < 2 ^ 64
    → ValidTable vm.safe_regions
    → ValidTable (register_safe_region vm d).0.safe_regions
register_safe_region-ValidTable vm d base size valid = elim (register_safe_region-Unchanged vm d) [
  | inl done ↦ Placed-ValidTable vm _ d (register-Placed vm d done) base size valid
  | inr same ↦ subst (λ (m : Vm). ValidTable m.safe_regions) (sym same) valid
]
