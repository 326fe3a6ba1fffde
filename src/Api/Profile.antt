-- ===== src/Api/Profile.antt =====
-- vm/ubpf_safe.c: the calls of the API that set up the safe execution profile, and the mark that
-- a run leaves. A result of -1 is `false`; the kinds of C's enumerations are data types here.
pub mod Table
pub mod Regions
pub mod Valid
pub mod Refused
use mathlib.Core.Bool.{not}
use ubpf.Prelude.{
  ℕ, zero, suc, ◌+◌, ◌%◌, ◌^◌, Bool, true, false, ◌&&◌, ◌||◌, Option, none, some, ltb, leb, ◌==◌,
  if◌then◌else◌,
}
use ubpf.Word.{u64}
use ubpf.Interp.{update}
use ubpf.Vm.{
  Vm, Helper, Profile, RegionKind, ResultKind, in_region, SafeRegion, SafeHelper, max_ext_funcs,
  max_safe_regions,
}
use ubpf.Safe.{region_id_input, region_id_stack, all_permissions}
use ubpf.Safe.Access.{has_id}
use ubpf.Api.{register}

abbrev pub is_some {ℓ} : {A : Type ℓ} → Option A → Bool
is_some none = false
is_some (some x) = true

-- `ubpf_set_execution_profile_impl`, of a machine without JIT code.
unfoldable pub set_execution_profile : Vm → Profile → Vm × Bool
set_execution_profile vm profile =
    if is_some vm.insts || vm.execution_started
    then (vm, false)
    else (record vm { execution_profile = profile }, true)

-- Both interpreters set `execution_started`, once there is a program.
unfoldable pub start_execution : Vm → Vm
start_execution vm = elim vm.insts [
  | none ↦ vm
  | some words ↦ record vm { execution_started = true }
]

-- `struct ubpf_safe_helper_descriptor`.
pub record HelperDescriptor : Type 0 where
  pub index : ℕ
  pub name : ℕ
  pub fn : Option Helper
  pub result_kind : ResultKind
  pub region_id : ℕ
  pub region_size : ℕ

abbrev pub is_reserved : ℕ → Bool
is_reserved id = id == region_id_input || id == region_id_stack

-- What a helper that promises part of a region has to say of it.
unfoldable pub is_described : ResultKind → ℕ → ℕ → Bool
is_described ResultKind.scalar id size = true
is_described (in_region kind) id size = not (size == 0) && not (is_reserved id)

unfoldable pub set_metadata : HelperDescriptor → Vm × Bool → Vm × Bool
set_metadata d (vm, false) = (vm, false)
set_metadata d (vm, true) = (
  record vm {
    safe_helpers = update vm.safe_helpers d.index (
        some (record {
          result_kind = d.result_kind;
          region_id = d.region_id;
          region_size = d.region_size;
        }));
  },
  true,
)

-- `ubpf_register_safe_helper_impl`.
unfoldable pub register_safe_helper : Vm → Bool → HelperDescriptor → Vm × Bool
unfolding is_described set_metadata register
register_safe_helper vm patched d =
    if leb max_ext_funcs d.index || not (is_some d.fn)
    then (vm, false)
    else if not (is_described d.result_kind d.region_id d.region_size)
    then (vm, false)
    else set_metadata d (register vm patched d.index d.name d.fn)

-- `struct ubpf_safe_region`.
pub record RegionDescriptor : Type 0 where
  pub id : ℕ
  pub kind : RegionKind
  pub base : ℕ
  pub size : ℕ
  pub permissions : ℕ

-- The loop over the table: the entry of that id, or the first free one, which `slot` holds.
unfoldable pub find_slot : (ℕ → Option SafeRegion) → ℕ → ℕ → ℕ → Option ℕ → Option ℕ
find_slot table id zero i slot = slot
find_slot table id (suc left) i slot =
    let next = if is_some (table i) || is_some slot then slot else some i in
    let rest = find_slot table id left (i + 1) next in if has_id (table i) id then some i else rest

unfoldable pub region_of : RegionDescriptor → SafeRegion
region_of d = record {
  id = d.id;
  base = d.base;
  end = u64 (d.base + d.size);
  kind = d.kind;
  permissions = d.permissions;
}

unfoldable pub place_region : Vm → RegionDescriptor → Option ℕ → Vm × Bool
unfolding region_of
place_region vm d none = (vm, false)
place_region vm d (some i) =
    (record vm { safe_regions = update vm.safe_regions i (some (region_of d)) }, true)

-- `ubpf_register_safe_region_impl`. The permissions that it allows are three bits.
unfoldable pub register_safe_region : Vm → RegionDescriptor → Vm × Bool
unfolding find_slot place_region
register_safe_region vm d =
    if is_reserved d.id || d.size == 0 || d.base == 0
    then (vm, false)
    else if ltb all_permissions d.permissions || ltb (u64 (d.base + d.size)) d.base
    then (vm, false)
    else place_region vm d (find_slot vm.safe_regions d.id max_safe_regions 0 none)
