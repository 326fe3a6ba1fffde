-- ===== src/Api/Profile/Refused.antt =====
-- vm/ubpf_safe.c: the calls that set up the safe profile, where they fail.
use mathlib.Core.Bool.{not}
use ubpf.Prelude.{
  ℕ, ◌+◌, ◌≡◌, ◌⊎◌, inl, inr, refl, Bool, true, false, ◌||◌, if_both, leb, ltb, ◌==◌, Option, none,
  some,
}
use ubpf.Word.{u64}
use ubpf.Vm.{Vm, Profile, max_ext_funcs, max_safe_regions}
use ubpf.Safe.{all_permissions}
use ubpf.Interp.{update}
use ubpf.Api.{register}
use ubpf.Api.Profile.{
  is_some, set_execution_profile, HelperDescriptor, is_described, set_metadata,
  register_safe_helper, RegionDescriptor, find_slot, is_reserved, place_region,
  register_safe_region,
}

-- The call succeeds, or leaves the machine as it was.
abbrev pub Unchanged : Vm → Vm × Bool → Type 0
Unchanged vm p = (p.1 ≡ true) ⊎ (p.0 ≡ vm)

changed : (vm t : Vm) → Unchanged vm (t, true)
changed vm t = inl refl

-- What `ubpf_register` has written when the compiled code cannot be patched.
abbrev entered : Vm → HelperDescriptor → Vm
entered vm d = record vm {
  ext_funcs = update vm.ext_funcs d.index d.fn;
  ext_func_names = update vm.ext_func_names d.index (some d.name);
}

-- The call succeeds, or leaves the machine as it was, or cannot patch the compiled code and has then
-- entered the function and its name, and nothing else.
abbrev pub UnchangedOrEntered : Vm → Bool → HelperDescriptor → Vm × Bool → Type 0
UnchangedOrEntered vm patched d p =
    Unchanged vm p ⊎ ((patched ≡ false) × (p ≡ (entered vm d, false)))

registered-Unchanged :
    (vm : Vm) (patched : Bool) (d : HelperDescriptor)
    → UnchangedOrEntered vm patched d (set_metadata d (register vm patched d.index d.name d.fn))
unfolding register set_metadata
registered-Unchanged vm patched d =
    if_both (λ (p : Vm × Bool). UnchangedOrEntered vm patched d (set_metadata d p))
      (leb max_ext_funcs d.index) (inl (inr refl)) (described patched)
  where
    described : (b : Bool) → UnchangedOrEntered vm b d (set_metadata d (entered vm d, b))
    described true = inl (inl refl)
    described false = inr (refl, refl)

place_region-Unchanged :
    (vm : Vm) (d : RegionDescriptor) (slot : Option ℕ) → Unchanged vm (place_region vm d slot)
unfolding place_region
place_region-Unchanged vm d none = inr refl
place_region-Unchanged vm d (some i) = changed vm _

pub register_safe_region-Unchanged :
    (vm : Vm) (d : RegionDescriptor) → Unchanged vm (register_safe_region vm d)
unfolding register_safe_region
register_safe_region-Unchanged vm region =
    if_both (Unchanged vm) (is_reserved region.id || region.size == 0 || region.base == 0)
      (inr refl)
      (if_both (Unchanged vm)
        (ltb all_permissions region.permissions
          || ltb (u64 (region.base + region.size)) region.base)
        (inr refl)
        (place_region-Unchanged vm region
          (find_slot vm.safe_regions region.id max_safe_regions 0 none)))

-- A call that sets the profile, or registers a region for it, either succeeds or leaves the machine
-- as it was, on each of its error paths. So does one that registers a helper, unless a program is
-- compiled and its code cannot be patched: then the function and its name are entered, the description
-- of its result is not, and the call fails.
pub refused-Unchanged :
    (vm : Vm) (profile : Profile) (patched : Bool) (helper : HelperDescriptor)
    (region : RegionDescriptor)
    → Unchanged vm (set_execution_profile vm profile)
      × UnchangedOrEntered vm patched helper (register_safe_helper vm patched helper)
      × Unchanged vm (register_safe_region vm region)
unfolding set_execution_profile register_safe_helper
refused-Unchanged vm profile patched helper region =
    let C = UnchangedOrEntered vm patched helper in
    (
      if_both (Unchanged vm) (is_some vm.insts || vm.execution_started) (inr refl) (changed vm _),
      if_both C (leb max_ext_funcs helper.index || not (is_some helper.fn)) (inl (inr refl)) (
          if_both C (not (is_described helper.result_kind helper.region_id helper.region_size))
            (inl (inr refl)) (registered-Unchanged vm patched helper)),
      register_safe_region-Unchanged vm region,
    )
