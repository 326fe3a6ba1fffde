-- ===== src/Api/Profile/Table.antt =====
-- vm/ubpf_safe.c: `ubpf_register_safe_region_impl` against `ubpf_safe_find_region_by_id`.
use ubpf.Prelude.{
  ℕ, zero, suc, ◌+◌, ◌≤◌, ◌<◌, ◌≡◌, ◌⊎◌, ◌∙◌, refl, sym, ap, arith, true, false, ◌==◌, ◌||◌, Option,
  none, some, Option-cases, Bool-cases, inl, inr, ==_iff, if◌then◌else◌,
}
use ubpf.Vm.{SafeRegion}
use ubpf.Safe.Access.{has_id, find_region_from}
use ubpf.Api.Profile.{is_some, find_slot}

abbrev pub Table : Type 0
Table = ℕ → Option SafeRegion

-- The first entry of that id from `i` on.
pub record First (table : Table) (id i left j : ℕ) : Type 0 where
  pub low : i ≤ j
  pub high : j < i + left
  pub named : has_id (table j) id ≡ true
  pub before : (k : ℕ) → i ≤ k → k < j → has_id (table k) id ≡ false

-- No entry has that id, and `j` is a free one, or the one found before.
pub record Fresh (table : Table) (id i left : ℕ) (slot : Option ℕ) (j : ℕ) : Type 0 where
  pub unnamed : (k : ℕ) → i ≤ k → k < i + left → has_id (table k) id ≡ false
  pub free : (slot ≡ some j) ⊎ ((i ≤ j) × (j < i + left) × (table j ≡ none))

next_slot :
    (table : Table) (i j : ℕ) (slot : Option ℕ)
    → (if is_some (table i) || is_some slot then slot else some i) ≡ some j
    → (slot ≡ some j) ⊎ ((i ≡ j) × (table i ≡ none))
next_slot table i j (some k) h = inl (ground arith)
next_slot table i j none h = elim (Option-cases (table i)) [
  | inl e ↦ inr (ground arith, e)
  | inr (x, e) ↦ absurd (ground arith)
]

pub find_slot-chooses :
    (table : Table) (id left i : ℕ) (slot : Option ℕ) (j : ℕ)
    → find_slot table id left i slot ≡ some j
    → First table id i left j ⊎ Fresh table id i left slot j
unfolding find_slot
find_slot-chooses table id zero i slot j h =
    inr (record { unnamed = λ k p q. absurd (omega arith); free = inl h })
find_slot-chooses table id (suc left) i slot j h = elim (Bool-cases (has_id (table i) id)) [
  | inl e ↦
      let here : i ≡ j = ground arith in
      inl (record {
        low = omega (arith, here);
        high = omega (arith, here);
        named = ap (λ k. has_id (table k) id) (sym here) ∙ e;
        before = λ k p q. absurd (omega (arith, here));
      })
  | inr e ↦
      let miss : (k : ℕ) → (k ≡ i) → has_id (table k) id ≡ false =
        λ k same. ap (λ x. has_id (table x) id) same ∙ e in
      elim (find_slot-chooses table id left (i + 1) _ j (rw (e, find_slot) at h)) [
        | inl f ↦ inl (record {
          low = omega (arith, f.low);
          high = omega (arith, f.high);
          named = f.named;
          before = λ k p q. elim (Bool-cases (k == i)) [
            | inl same ↦ miss k ((==_iff k i).0 same)
            | inr other ↦ f.before k (ground arith) q
          ];
        })
        | inr f ↦ inr (record {
          unnamed = λ k p q. elim (Bool-cases (k == i)) [
            | inl same ↦ miss k ((==_iff k i).0 same)
            | inr other ↦ f.unnamed k (ground arith) (omega (arith, q))
          ];
          free = elim f.free [
            | inl kept ↦ elim (next_slot table i j slot kept) [
              | inl old ↦ inl old
              | inr (same, empty) ↦
                  inr (omega (arith, same), omega (arith, same), ap table (sym same) ∙ empty)
            ]
            | inr (p, q, empty) ↦ inr (omega (arith, p), omega (arith, q), empty)
          ];
        })
      ]
]

-- The loop finds the first entry of the id.
pub find_region_from-First :
    (table : Table) (id left i j : ℕ)
    → First table id i left j
    → find_region_from table id left i ≡ table j
unfolding find_region_from
find_region_from-First table id zero i j f = absurd (omega (arith, f.low, f.high))
find_region_from-First table id (suc left) i j f = elim (Bool-cases (i == j)) [
  | inl e ↦
      let same : i ≡ j = (==_iff i j).0 e in
      let here : has_id (table i) id ≡ true = ap (λ k. has_id (table k) id) same ∙ f.named in
      rw (here, find_region_from) (ap table same)
  | inr e ↦
      let miss : has_id (table i) id ≡ false = f.before i (omega arith) (ground (arith, f.low)) in
      rw (miss, find_region_from)
        (find_region_from-First table id left (i + 1) j (record {
          low = ground (arith, f.low);
          high = omega (arith, f.high);
          named = f.named;
          before = λ k p q. f.before k (omega arith) q;
        }))
]

-- Tables that agree on the entries of an id give the same region.
pub find_region_from-same :
    (table table' : Table) (id left i : ℕ)
    → ((k : ℕ)
        → (table' k ≡ table k) ⊎ ((has_id (table' k) id ≡ false) × (has_id (table k) id ≡ false)))
    → find_region_from table' id left i ≡ find_region_from table id left i
unfolding find_region_from
find_region_from-same table table' id zero i h = refl
find_region_from-same table table' id (suc left) i h =
    let rest = find_region_from-same table table' id left (i + 1) h in
    elim (h i) [
      | inl e ↦ rw (e, find_region_from, rest) refl
      | inr (e, f) ↦ rw (e, f, find_region_from, rest) refl
    ]
