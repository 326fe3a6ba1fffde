-- ===== src/Safe/Access.antt =====
-- vm/ubpf_safe.c: `ubpf_safe_compute_access`, and the table of regions.
pub mod Exact
use Prim.Native.Nat.{bit_and}
use mathlib.Core.Bool.{not}
use ubpf.Prelude.{
  ℕ, zero, suc, ◌+◌, ◌-◌, ◌≡◌, ◌⊎◌, inl, inr, refl, Bool, true, false, ◌&&◌, ◌||◌, Option, none,
  some, ltb, ◌==◌, if◌then◌else◌,
}
use ubpf.Prelude.Int.{ℤ, pos, negsuc}
use ubpf.Vm.{Vm, SafeRegion, max_safe_regions}
use ubpf.Interp.{Regions}
use ubpf.Interp.Bounds.{uint64_max}
use ubpf.Safe.{
  ValueKind, scalar, pointer, Tag, Refusal, not_pointer, not_permitted, address_overflow,
  address_underflow, bad_region, out_of_bounds, overruns, region_id_stack,
}

pub data Access : Type 0 where
  granted : ℕ → Access
  denied : Refusal → Access

pub Access-cases : (x : Access) → ((a : ℕ) × (x ≡ granted a)) ⊎ ((e : Refusal) × (x ≡ denied e))
Access-cases (granted a) = inl (a, refl)
Access-cases (denied e) = inr (e, refl)

abbrev pub is_pointer : ValueKind → Bool
is_pointer pointer = true
is_pointer _ = false

abbrev pub is_scalar : ValueKind → Bool
is_scalar scalar = true
is_scalar _ = false

-- The address against the bounds of the tag.
unfoldable pub check_bounds : Tag → ℕ → ℕ → Access
check_bounds tag a size =
    if ltb (uint64_max - tag.size) tag.base
    then denied bad_region
    else let region_end = tag.base + tag.size in
      if ltb a tag.base || ltb region_end a
      then denied out_of_bounds
      else if ltb tag.size size || ltb (region_end - size) a
      then denied overruns
      else granted a

unfoldable pub with_offset : Tag → ℕ → ℤ → ℕ → Access
unfolding check_bounds
with_offset tag address (pos n) size =
    if ltb (uint64_max - n) address
    then denied address_overflow
    else check_bounds tag (address + n) size
with_offset tag address (negsuc n) size =
    if ltb address (suc n)
    then denied address_underflow
    else check_bounds tag (address - suc n) size

-- `ubpf_safe_compute_access`; `granted` has the effective address.
unfoldable pub compute_access : Tag → ℕ → ℤ → ℕ → ℕ → Access
unfolding with_offset
compute_access tag address offset size required =
    if not (is_pointer tag.kind)
    then denied not_pointer
    else if not (bit_and tag.permissions required == required)
    then denied not_permitted
    else with_offset tag address offset size

-- `ubpf_safe_is_stack_pointer`.
unfoldable pub is_stack_pointer : Regions → Tag → Bool
is_stack_pointer r tag =
    is_pointer tag.kind
    && tag.region_id == region_id_stack
    && tag.base == r.stack_start
    && tag.size == r.stack_length

abbrev pub has_id : Option SafeRegion → ℕ → Bool
has_id none id = false
has_id (some region) id = region.id == id

-- The loop of `ubpf_safe_find_region_by_id`: `left` entries from `i` on.
unfoldable pub find_region_from : (ℕ → Option SafeRegion) → ℕ → ℕ → ℕ → Option SafeRegion
find_region_from table id zero i = none
find_region_from table id (suc left) i =
    let rest = find_region_from table id left (i + 1) in
    if has_id (table i) id then table i else rest

unfoldable pub find_region_by_id : Vm → ℕ → Option SafeRegion
unfolding find_region_from
find_region_by_id vm id = find_region_from vm.safe_regions id max_safe_regions 0
