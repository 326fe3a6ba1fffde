-- ===== src/Validate/Subprograms/Targets.antt =====
-- vm/ubpf_vm.c: `deduplicate_array_of_uint32` sorts the call targets and drops repeats, and nothing
-- else.
use ubpf.Prelude.{
  ℕ, ◌≤◌, ◌<◌, ◌≡◌, ◌∙◌, refl, sym, arith, ap, Bool, false, ◌||◌, ◌==◌, leb, List, [], ◌∷◌,
  Bool-cases, inl, inr, ==_iff, if_cases, leb→le,
}
use mathlib.Core.Path.{subst}
use ubpf.Validate.Subprograms.{insert, sort, drop_repeats, deduplicate}

abbrev pub member : ℕ → List ℕ → Bool
member x [] = false
member x (y ∷ ys) = x == y || member x ys

-- Each value is at least the bound, or past it, and so on up the list.
abbrev pub Rising : ℕ → List ℕ → Type 0
Rising low [] = Unit
Rising low (x ∷ xs) = (low ≤ x) × Rising x xs

abbrev pub RisingPast : ℕ → List ℕ → Type 0
RisingPast low [] = Unit
RisingPast low (x ∷ xs) = (low < x) × RisingPast x xs

abbrev pub Increasing : List ℕ → Type 0
Increasing [] = Unit
Increasing (x ∷ xs) = RisingPast x xs

member-insert : (v x : ℕ) (xs : List ℕ) → member v (insert x xs) ≡ (v == x || member v xs)
unfolding insert
member-insert v x [] = refl
member-insert v x (y ∷ ys) = ground (arith, member-insert v x ys)

member-sort : (v : ℕ) (xs : List ℕ) → member v (sort xs) ≡ member v xs
unfolding sort
member-sort v [] = refl
member-sort v (x ∷ xs) = member-insert v x (sort xs) ∙ ap (λ b. v == x || b) (member-sort v xs)

insert-Rising : (low x : ℕ) (xs : List ℕ) → low ≤ x → Rising low xs → Rising low (insert x xs)
unfolding insert
insert-Rising low x [] h r = (h, tt)
insert-Rising low x (y ∷ ys) h (first, rest) =
    if_cases (Rising low) (leb x y) (λ e. (h, (leb→le x y e, rest)))
      (λ e. (first, insert-Rising y x ys (ground arith) rest))

sort-Rising : (xs : List ℕ) → Rising 0 (sort xs)
unfolding sort
sort-Rising [] = tt
sort-Rising (x ∷ xs) = insert-Rising 0 x (sort xs) (omega arith) (sort-Rising xs)

drop_repeats-RisingPast :
    (last : ℕ) (xs : List ℕ) → Rising last xs → RisingPast last (drop_repeats last xs)
unfolding drop_repeats
drop_repeats-RisingPast last [] r = tt
drop_repeats-RisingPast last (x ∷ xs) (first, rest) =
    if_cases (RisingPast last) (x == last)
      (λ e.
        subst (λ n. RisingPast n (drop_repeats x xs)) ((==_iff x last).0 e)
          (drop_repeats-RisingPast x xs rest))
      (λ e. (ground (arith, (==_iff x last).1), drop_repeats-RisingPast x xs rest))

member-drop_repeats :
    (v last : ℕ) (xs : List ℕ)
    → (v == last || member v (drop_repeats last xs)) ≡ (v == last || member v xs)
unfolding drop_repeats
member-drop_repeats v last [] = refl
member-drop_repeats v last (x ∷ xs) = elim (Bool-cases (x == last)) [
  | inl e ↦ ground (arith, member-drop_repeats v x xs, (==_iff x last).0 e)
  | inr e ↦ ground (arith, member-drop_repeats v x xs)
]

abbrev unique : List ℕ → List ℕ
unique [] = []
unique (y ∷ ys) = y ∷ drop_repeats y ys

deduplicate-unique :
    (x : ℕ) (xs sorted : List ℕ) → sort (x ∷ xs) ≡ sorted → deduplicate x xs ≡ unique sorted
unfolding deduplicate
deduplicate-unique x xs [] e = rw (deduplicate, e) refl
deduplicate-unique x xs (y ∷ ys) e = rw (deduplicate, e) refl

deduplicate-sorted :
    (sorted : List ℕ)
    → Rising 0 sorted
    → Increasing (unique sorted) × ((v : ℕ) → member v (unique sorted) ≡ member v sorted)
deduplicate-sorted [] r = (tt, λ v. refl)
deduplicate-sorted (y ∷ ys) (first, rest) =
    (drop_repeats-RisingPast y ys rest, λ v. member-drop_repeats v y ys)

-- The sub-programs are taken in increasing order, each call target once and nothing else.
pub deduplicate-Increasing :
    (x : ℕ) (xs : List ℕ)
    → Increasing (deduplicate x xs) × ((v : ℕ) → member v (deduplicate x xs) ≡ member v (x ∷ xs))
deduplicate-Increasing x xs =
    let all = x ∷ xs in
    let (rising, same) = deduplicate-sorted (sort all) (sort-Rising all) in
    let e = deduplicate-unique x xs (sort all) refl in
    (subst Increasing (sym e) rising, λ v. ap (member v) e ∙ same v ∙ member-sort v all)
