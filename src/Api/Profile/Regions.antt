-- ===== src/Api/Profile/Regions.antt =====
-- vm/ubpf_safe.c: the table of regions after `ubpf_register_safe_region_impl`.
use ubpf.Prelude.{
  ℕ, ◌+◌, ◌^◌, ◌≤◌, ◌<◌, ◌≡◌, ◌≢◌, ◌⊎◌, ◌∙◌, refl, sym, ap, arith, true, false, ◌==◌, ◌||◌, Option,
  none, some, Bool-cases, inl, inr, ==_iff, if_cases, ltb, Bool,
}
use ubpf.Word.{u64}
use ubpf.Vm.{Vm, SafeRegion, max_safe_regions}
use ubpf.Interp.{update}
use ubpf.Safe.{all_permissions}
use ubpf.Safe.Access.{has_id, find_region_by_id}
use ubpf.Api.Profile.{
  is_reserved, RegionDescriptor, find_slot, region_of, place_region, register_safe_region,
}
use ubpf.Api.Profile.Table.{
  Table, First, Fresh, find_slot-chooses, find_region_from-First, find_region_from-same,
}

-- An entry that the checks let pass.
pub record ValidRegion (region : SafeRegion) : Type 0 where
  pub positive : 0 < region.base
  pub nonempty : region.base < region.end
  pub fits : region.end < 2 ^ 64
  pub permitted : region.permissions ≤ all_permissions
  pub unreserved : is_reserved region.id ≡ false

-- The entries are valid, and no two of the table have one id.
pub record ValidTable (table : Table) : Type 0 where
  pub entries : (k : ℕ) (region : SafeRegion) → table k ≡ some region → ValidRegion region
  pub distinct :
      (j k : ℕ) (x y : SafeRegion)
      → j < max_safe_regions
      → k < max_safe_regions
      → table j ≡ some x
      → table k ≡ some y
      → x.id ≡ y.id
      → j ≡ k

-- What a call that succeeds has checked, and where it puts the region.
pub record Placed (vm : Vm) (d : RegionDescriptor) (vm' : Vm) : Type 0 where
  pub slot : ℕ
  pub chosen :
      First vm.safe_regions d.id 0 max_safe_regions slot
      ⊎ Fresh vm.safe_regions d.id 0 max_safe_regions none slot
  pub stored : vm' ≡ record vm { safe_regions = update vm.safe_regions slot (some (region_of d)) }
  pub valid : d.base < 2 ^ 64 → d.size < 2 ^ 64 → ValidRegion (region_of d)

placed :
    (vm : Vm) (d : RegionDescriptor) (slot : Option ℕ)
    → find_slot vm.safe_regions d.id max_safe_regions 0 none ≡ slot
    → (d.base < 2 ^ 64 → d.size < 2 ^ 64 → ValidRegion (region_of d))
    → (place_region vm d slot).1 ≡ true
    → Placed vm d (place_region vm d slot).0
unfolding place_region
placed vm d none e valid h = absurd (ground arith)
placed vm d (some j) e valid h = record {
  slot = j;
  chosen = find_slot-chooses vm.safe_regions d.id max_safe_regions 0 none j e;
  stored = refl;
  valid = valid;
}

checked_region :
    (d : RegionDescriptor)
    → (is_reserved d.id || d.size == 0 || d.base == 0) ≡ false
    → (ltb all_permissions d.permissions || ltb (u64 (d.base + d.size)) d.base) ≡ false
    → d.base < 2 ^ 64
    → d.size < 2 ^ 64
    → ValidRegion (region_of d)
unfolding region_of
checked_region d named bounded base size = record {
  positive = ground arith;
  nonempty = ground arith;
  fits = omega arith;
  permitted = ground arith;
  unreserved = ground arith;
}

pub register-Placed :
    (vm : Vm) (d : RegionDescriptor)
    → (register_safe_region vm d).1 ≡ true
    → Placed vm d (register_safe_region vm d).0
unfolding register_safe_region
register-Placed vm d =
    let P = λ (p : Vm × Bool). p.1 ≡ true → Placed vm d p.0 in
    if_cases P (is_reserved d.id || d.size == 0 || d.base == 0) (λ e h. absurd (ground arith))
      (λ named.
        if_cases P (ltb all_permissions d.permissions || ltb (u64 (d.base + d.size)) d.base)
          (λ e h. absurd (ground arith))
          (λ bounded.
            placed vm d (find_slot vm.safe_regions d.id max_safe_regions 0 none) refl
              (checked_region d named bounded)))

pub update_same : (table : Table) (j : ℕ) (x : Option SafeRegion) → update table j x j ≡ x
update_same table j x = rw ((==_iff j j).1 refl) refl

pub update_other :
    (table : Table) (j k : ℕ) (x : Option SafeRegion) → k ≢ j → update table j x k ≡ table k
update_other table j k x other = elim (Bool-cases (k == j)) [
  | inl e ↦ absurd (other ((==_iff k j).0 e))
  | inr e ↦ rw e refl
]

has_own_id : (d : RegionDescriptor) → has_id (some (region_of d)) d.id ≡ true
unfolding region_of
has_own_id d = (==_iff d.id d.id).1 refl

has_other_id : (d : RegionDescriptor) (id : ℕ) → id ≢ d.id → has_id (some (region_of d)) id ≡ false
unfolding region_of
has_other_id d id other = ground (arith, ==_iff d.id id)

has_two : (o : Option SafeRegion) (a b : ℕ) → has_id o a ≡ true → a ≢ b → has_id o b ≡ false
has_two none a b h other = absurd (ground arith)
has_two (some x) a b h other = ground arith

module _ (table : Table) (d : RegionDescriptor) (j : ℕ) where
  abbrev pub Chosen : Type 0
  Chosen = First table d.id 0 max_safe_regions j ⊎ Fresh table d.id 0 max_safe_regions none j

  pub slot_in : Chosen → j < max_safe_regions
  slot_in (inl f) = omega (arith, f.high)
  slot_in (inr f) = elim f.free [ inl e ↦ absurd (ground arith) | inr (p, q, e) ↦ omega (arith, q) ]

  before_slot : Chosen → (k : ℕ) → k < j → has_id (table k) d.id ≡ false
  before_slot (inl f) k h = f.before k (omega arith) h
  before_slot (inr f) k h = f.unnamed k (omega arith) (omega (arith, h, slot_in (inr f)))

  -- What the slot held was of the same id, or nothing.
  slot_other : Chosen → (id : ℕ) → id ≢ d.id → has_id (table j) id ≡ false
  slot_other (inl f) id other = has_two (table j) d.id id f.named (λ e. other (sym e))
  slot_other (inr f) id other = elim f.free [
    | inl e ↦ absurd (ground arith)
    | inr (p, q, e) ↦ ap (λ o. has_id o id) e
  ]

  placed-First : Chosen → First (update table j (some (region_of d))) d.id 0 max_safe_regions j
  placed-First c = record {
    low = omega arith;
    high = omega (arith, slot_in c);
    named = ap (λ o. has_id o d.id) (update_same table j (some (region_of d))) ∙ has_own_id d;
    before = λ k p q.
        ap (λ o. has_id o d.id)
          (update_other table j k (some (region_of d)) (λ e. omega (arith, e, q)))
        ∙ before_slot c k q;
  }

  placed-same :
      Chosen
      → (id : ℕ) → id ≢ d.id
      → (k : ℕ)
      → (update table j (some (region_of d)) k ≡ table k)
        ⊎ ((has_id (update table j (some (region_of d)) k) id ≡ false)
            × (has_id (table k) id ≡ false))
  placed-same c id other k = elim (Bool-cases (k == j)) [
    | inl e ↦
        let same : k ≡ j = (==_iff k j).0 e in
        inr (
          rw e (has_other_id d id other),
          ap (λ x. has_id (table x) id) same ∙ slot_other c id other,
        )
    | inr e ↦ inl (rw e refl)
  ]

-- A region that is registered is found by its id, with the bounds, kind and permissions of the
-- call, and a region of another id is found as before.
pub find_region_by_id-register_safe_region :
    (vm : Vm) (d : RegionDescriptor) (id : ℕ)
    → (register_safe_region vm d).1 ≡ true
    → id ≢ d.id
    → let vm' = (register_safe_region vm d).0 in
      (find_region_by_id vm' d.id ≡ some (region_of d))
      × (find_region_by_id vm' id ≡ find_region_by_id vm id)
unfolding find_region_by_id
find_region_by_id-register_safe_region vm d id h other =
    let p = register-Placed vm d h in
    let table = vm.safe_regions in
    let stored = ap (λ (m : Vm). m.safe_regions) p.stored in
    (
      ap (λ t. find_region_by_id (record vm { safe_regions = t }) d.id) stored
          ∙ find_region_from-First _ d.id max_safe_regions 0 p.slot
              (placed-First table d p.slot p.chosen)
          ∙ update_same table p.slot (some (region_of d)),
      ap (λ t. find_region_by_id (record vm { safe_regions = t }) id) stored
          ∙ find_region_from-same table _ id max_safe_regions 0
              (placed-same table d p.slot p.chosen id other),
    )
