-- ===== src/Api/Lifecycle.antt =====
-- vm/ubpf_vm.c: what a program of the host can do to a virtual machine through the API, as a step
-- relation, and what holds in every state that it can reach from `ubpf_create`.
pub mod Invariant
pub mod Tables
use ubpf.Prelude.{
  ℕ, ◌+◌, ◌*◌, ◌^◌, ◌≤◌, ◌<◌, ◌≡◌, ◌⊎◌, inl, inr, refl, arith, ap, sym, Bool, Option, none, some,
  List, length, ◌∙◌, true, false,
}
use ubpf.Inst.{Inst}
use ubpf.Vm.{Vm, Helper, Profile, DataRelocation}
use ubpf.Api.{
  create, toggle_bounds_check, toggle_constant_blinding, toggle_undefined_behavior_check,
  toggle_readonly_bytecode, register, register_external_dispatcher, set_unwind_function_index,
  set_pointer_secret, register_data_bounds_check, register_data_relocation, set_instruction_limit,
  register_stack_usage_calculator,
}
use ubpf.Api.Profile.{
  set_execution_profile, start_execution, HelperDescriptor, register_safe_helper, RegionDescriptor,
  register_safe_region,
}
use ubpf.Api.Load.{Host, LoadResult, loaded, load_failed, load, unload_code}
use ubpf.Api.Load.Fetches.{AllInst}
use ubpf.Vm.Program.{fetch_instruction, fetch_word, scramble}
use ubpf.Safety.{Loaded}

-- The arguments that C's types allow: fields and addresses in range, and `code_len` bytes of code.
pub record Call (host : Host) (code : List Inst) (code_len : ℕ) : Type 0 where
  pub fields : AllInst code
  pub bytes : code_len ≡ 8 * length code
  pub addresses : (base : ℕ) → host.array ≡ some base → base < 2 ^ 64

-- One call of the API.
pub data ApiStep : Vm → Vm → Type 0 where
  bounds_check_toggled : {vm : Vm} (on : Bool) → ApiStep vm (toggle_bounds_check vm on).0
  blinding_toggled : {vm : Vm} (on : Bool) → ApiStep vm (toggle_constant_blinding vm on).0
  checks_toggled : {vm : Vm} (on : Bool) → ApiStep vm (toggle_undefined_behavior_check vm on).0
  readonly_toggled : {vm : Vm} (on : Bool) → ApiStep vm (toggle_readonly_bytecode vm on).0
  registered :
      {vm : Vm} (patched : Bool) (idx name : ℕ) (fn : Option Helper)
      → ApiStep vm (register vm patched idx name fn).0
  dispatched :
      {vm : Vm} (patched : Bool) (d : Option (ℕ → Helper)) (v : ℕ → Bool)
      → ApiStep vm (register_external_dispatcher vm patched d v).0
  unwind_set : {vm : Vm} (idx : ℕ) → ApiStep vm (set_unwind_function_index vm idx).0
  secret_set :
      {vm : Vm} (secret : ℕ) → secret < 2 ^ 64 → ApiStep vm (set_pointer_secret vm secret).0
  check_registered :
      {vm : Vm} (f : Option (ℕ → ℕ → Bool)) → ApiStep vm (register_data_bounds_check vm f).0
  relocation_registered :
      {vm : Vm} (f : Option DataRelocation) → ApiStep vm (register_data_relocation vm f).0
  limited : {vm : Vm} (limit : ℕ) → ApiStep vm (set_instruction_limit vm limit).0
  calculator_registered :
      {vm : Vm} (f : Option (ℕ → ℕ)) → ApiStep vm (register_stack_usage_calculator vm f).0
  program_loaded :
      {vm : Vm} (host : Host) (code : List Inst) (code_len : ℕ)
      → Call host code code_len
      → ApiStep vm (load vm host code code_len).0
  profile_set : {vm : Vm} (p : Profile) → ApiStep vm (set_execution_profile vm p).0
  helper_registered :
      {vm : Vm} (patched : Bool) (d : HelperDescriptor)
      → ApiStep vm (register_safe_helper vm patched d).0
  region_registered :
      {vm : Vm} (d : RegionDescriptor)
      → d.base < 2 ^ 64
      → d.size < 2 ^ 64
      → ApiStep vm (register_safe_region vm d).0
  executed : {vm : Vm} → ApiStep vm (start_execution vm)
  program_unloaded : {vm : Vm} → ApiStep vm (unload_code vm)

-- The machines that any sequence of calls leads to.
pub data Reachable : Vm → Type 0 where
  created : Reachable create
  called : {vm vm' : Vm} → Reachable vm → ApiStep vm vm' → Reachable vm'

-- Either nothing is loaded, or a whole program is, and can be fetched.
abbrev Holds : Vm → Type 0
Holds vm = ((vm.insts ≡ none) × (vm.num_insts ≡ 0)) ⊎ ((code : List Inst) × Loaded vm code)

pub record Sound (vm : Vm) : Type 0 where
  pub secret_fits : vm.pointer_secret < 2 ^ 64
  pub holds : Holds vm
