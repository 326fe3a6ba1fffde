-- ===== src/Api/Lifecycle/Tables.antt =====
-- vm/ubpf_safe.c: the table of regions in every machine that the API can lead to.
use mathlib.Core.Bool.{not}
use mathlib.Core.Path.{subst}
use ubpf.Prelude.{
  ℕ, ◌%◌, ◌≡◌, refl, sym, arith, Bool, true, false, Option, List, inl, inr, Option-cases, if_both,
  leb, ◌==◌, ◌||◌,
}
use ubpf.Prelude.Int.{negsuc}
use ubpf.Filter.{eq_ℤ}
use ubpf.Inst.{Inst}
use ubpf.Vm.{Vm, Helper, Profile, max_ext_funcs}
use ubpf.Api.{
  create, toggle_bounds_check, toggle_constant_blinding, toggle_undefined_behavior_check,
  toggle_readonly_bytecode, register, register_external_dispatcher, set_unwind_function_index,
  set_pointer_secret, register_data_bounds_check, register_data_relocation, set_instruction_limit,
  register_stack_usage_calculator,
}
use ubpf.Api.Profile.{
  is_some, set_execution_profile, start_execution, HelperDescriptor, is_described, set_metadata,
  register_safe_helper,
}
use ubpf.Api.Profile.Table.{Table}
use ubpf.Api.Profile.Regions.{ValidTable}
use ubpf.Api.Profile.Valid.{register_safe_region-ValidTable}
use ubpf.Api.Load.{Host, LoadResult, load, unload_code, install, after_validate, filled, is_loaded}
use ubpf.Validate.{UsageTable, Verdict, accepted, rejected}
use ubpf.Validate.Program.{validate}
use ubpf.Api.Lifecycle.{
  ApiStep, bounds_check_toggled, blinding_toggled, checks_toggled, readonly_toggled, registered,
  dispatched, unwind_set, secret_set, check_registered, relocation_registered, limited,
  calculator_registered, profile_set, helper_registered, region_registered, executed,
  program_loaded, program_unloaded, Reachable, created, called,
}

-- A call that is not about regions leaves their table alone.
abbrev Has : Table → Vm → Type 0
Has table vm = vm.safe_regions ≡ table

abbrev Loads : Table → Vm × LoadResult → Type 0
Loads table p = Has table p.0

abbrev Calls : Table → Vm × Bool → Type 0
Calls table p = Has table p.0

install-Has :
    (vm : Vm) (host : Host) (code : List Inst) (code_len : ℕ)
    → Loads vm.safe_regions (install vm host code code_len)
unfolding install filled
install-Has vm host code code_len =
    let L = Loads vm.safe_regions in
    elim (Option-cases host.array) [
      | inl e ↦
          rw (install, e) (if_both (Has vm.safe_regions) vm.readonly_bytecode_enabled refl refl)
      | inr (base, e) ↦
          rw (install, e)
            (if_both L (not host.flags_allocated) refl
              (if_both L vm.readonly_bytecode_enabled (if_both L host.protected refl refl) refl))
    ]

after_validate-Has :
    (vm : Vm) (host : Host) (code : List Inst) (code_len : ℕ) (v : UsageTable × Verdict)
    → Loads vm.safe_regions (after_validate vm host code code_len v)
unfolding after_validate
after_validate-Has vm host code code_len (t, accepted) =
    install-Has (record vm { local_func_stack_usage = t }) host code code_len
after_validate-Has vm host code code_len (t, rejected m) = refl

load-Has :
    (vm : Vm) (host : Host) (code : List Inst) (code_len : ℕ)
    → Loads vm.safe_regions (load vm host code code_len)
unfolding load
load-Has vm host code code_len =
    let L = Loads vm.safe_regions in
    if_both L (is_loaded vm.insts) refl (
      if_both L (not (code_len % 8 == 0)) refl
        (after_validate-Has vm host code code_len (validate vm code)))

metadata-Has :
    (table : Table) (d : HelperDescriptor) (p : Vm × Bool)
    → Has table p.0
    → Calls table (set_metadata d p)
unfolding set_metadata
metadata-Has table d (vm, false) h = h
metadata-Has table d (vm, true) h = h

helper-Has :
    (vm : Vm) (patched : Bool) (d : HelperDescriptor)
    → Calls vm.safe_regions (register_safe_helper vm patched d)
unfolding register_safe_helper register
helper-Has vm patched d =
    let C = Calls vm.safe_regions in
    if_both C (leb max_ext_funcs d.index || not (is_some d.fn)) refl (
      if_both C (not (is_described d.result_kind d.region_id d.region_size)) refl
        (metadata-Has vm.safe_regions d _ (if_both C (leb max_ext_funcs d.index) refl refl)))

register-Has :
    (vm : Vm) (patched : Bool) (idx name : ℕ) (fn : Option Helper)
    → Calls vm.safe_regions (register vm patched idx name fn)
unfolding register
register-Has vm patched idx name fn =
    if_both (Calls vm.safe_regions) (leb max_ext_funcs idx) refl refl

unwind-Has : (vm : Vm) (idx : ℕ) → Calls vm.safe_regions (set_unwind_function_index vm idx)
unfolding set_unwind_function_index
unwind-Has vm idx =
    if_both (Calls vm.safe_regions) (not (eq_ℤ vm.unwind_stack_extension_index (negsuc 0))) refl
      refl

profile-Has : (vm : Vm) (p : Profile) → Calls vm.safe_regions (set_execution_profile vm p)
unfolding set_execution_profile
profile-Has vm p =
    if_both (Calls vm.safe_regions) (is_some vm.insts || vm.execution_started) refl refl

along : {t t' : Table} → t' ≡ t → ValidTable t → ValidTable t'
along same valid = subst ValidTable (sym same) valid

step-ValidTable :
    {vm vm' : Vm} → ApiStep vm vm' → ValidTable vm.safe_regions → ValidTable vm'.safe_regions
unfolding toggle_bounds_check toggle_constant_blinding toggle_undefined_behavior_check
    toggle_readonly_bytecode register_external_dispatcher set_pointer_secret
    register_data_bounds_check register_data_relocation set_instruction_limit
    register_stack_usage_calculator unload_code start_execution
step-ValidTable (bounds_check_toggled on) valid = valid
step-ValidTable (blinding_toggled on) valid = valid
step-ValidTable (checks_toggled on) valid = valid
step-ValidTable (readonly_toggled on) valid = valid
step-ValidTable (registered {vm = vm} patched idx name fn) valid =
    along (register-Has vm patched idx name fn) valid
step-ValidTable (dispatched patched d v) valid = valid
step-ValidTable (unwind_set {vm = vm} idx) valid = along (unwind-Has vm idx) valid
step-ValidTable (secret_set {vm = vm} secret fits) valid = elim (Option-cases vm.insts) [
  | inl e ↦ rw (set_pointer_secret, e) valid
  | inr (words, e) ↦ rw (set_pointer_secret, e) valid
]
step-ValidTable (check_registered {vm = vm} f) valid =
    elim (Option-cases vm.bounds_check_function) [
      | inl e ↦ rw (register_data_bounds_check, e) valid
      | inr (g, e) ↦ rw (register_data_bounds_check, e) valid
    ]
step-ValidTable (relocation_registered {vm = vm} f) valid =
    elim (Option-cases vm.data_relocation_function) [
      | inl e ↦ rw (register_data_relocation, e) valid
      | inr (g, e) ↦ rw (register_data_relocation, e) valid
    ]
step-ValidTable (limited limit) valid = valid
step-ValidTable (calculator_registered f) valid = valid
step-ValidTable (program_loaded {vm = vm} host code code_len c) valid =
    along (load-Has vm host code code_len) valid
step-ValidTable (profile_set {vm = vm} p) valid = along (profile-Has vm p) valid
step-ValidTable (helper_registered {vm = vm} patched d) valid =
    along (helper-Has vm patched d) valid
step-ValidTable (region_registered {vm = vm} d base size) valid =
    register_safe_region-ValidTable vm d base size valid
step-ValidTable (executed {vm = vm}) valid = elim (Option-cases vm.insts) [
  | inl e ↦ rw (start_execution, e) valid
  | inr (words, e) ↦ rw (start_execution, e) valid
]
step-ValidTable (program_unloaded {vm = vm}) valid = valid

create-ValidTable : ValidTable create.safe_regions
unfolding create
create-ValidTable = record {
  entries = λ k x h. absurd (ground arith);
  distinct = λ j k x y p q h g e. absurd (ground arith);
}

-- In every machine that the API can lead to, each registered region is a valid one: it starts
-- above 0, is not empty, ends below 2^64, has known permissions only and no reserved id, and no
-- two have one id.
pub Reachable-ValidTable : {vm : Vm} → Reachable vm → ValidTable vm.safe_regions
Reachable-ValidTable created = create-ValidTable
Reachable-ValidTable (called before one) = step-ValidTable one (Reachable-ValidTable before)
