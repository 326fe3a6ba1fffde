-- ===== src/Api.antt =====
-- vm/ubpf_vm.c: the operations of the API that set up a virtual machine. A result of -1 is
-- `false`; a toggle returns the old setting. What becomes of compiled code that has to follow a
-- registration is an argument.
pub mod Load
pub mod Profile
pub mod Laws
pub mod Lifecycle
use mathlib.Core.Bool.{not}
use ubpf.Prelude.{
  ℕ, zero, suc, ◌+◌, ◌-◌, ◌%◌, ◌^◌, Bool, true, false, ◌&&◌, Option, none, some, ltb, leb, ◌==◌,
  if◌then◌else◌,
}
use ubpf.Prelude.Int.{ℤ, pos, negsuc}
use ubpf.Word.{i32}
use ubpf.Filter.{eq_ℤ}
use ubpf.Interp.{update}
use ubpf.Vm.{legacy, Vm, Helper, DataRelocation, max_ext_funcs, unknown}

-- `ubpf_create`, where the allocations succeed.
unfoldable pub create : Vm
create = record {
  insts = none;
  insts_base = 0;
  insts_alloc_size = 0;
  num_insts = 0;
  ext_funcs = λ n. none;
  int_funcs = λ n. false;
  ext_func_names = λ n. none;
  local_func_stack_usage = λ n. unknown;
  stack_usage_calculator = none;
  dispatcher = none;
  dispatcher_validate = λ n. false;
  bounds_check_enabled = true;
  undefined_behavior_check_enabled = false;
  constant_blinding_enabled = false;
  readonly_bytecode_enabled = true;
  execution_profile = legacy;
  execution_started = false;
  safe_regions = λ n. none;
  safe_helpers = λ n. none;
  unwind_stack_extension_index = negsuc 0;
  pointer_secret = 0;
  bounds_check_function = none;
  data_relocation_function = none;
  instruction_limit = pos 0;
}

unfoldable pub toggle_bounds_check : Vm → Bool → Vm × Bool
toggle_bounds_check vm enable =
    (record vm { bounds_check_enabled = enable }, vm.bounds_check_enabled)

unfoldable pub toggle_constant_blinding : Vm → Bool → Vm × Bool
toggle_constant_blinding vm enable =
    (record vm { constant_blinding_enabled = enable }, vm.constant_blinding_enabled)

unfoldable pub toggle_undefined_behavior_check : Vm → Bool → Vm × Bool
toggle_undefined_behavior_check vm enable =
    (record vm { undefined_behavior_check_enabled = enable }, vm.undefined_behavior_check_enabled)

unfoldable pub toggle_readonly_bytecode : Vm → Bool → Vm × Bool
toggle_readonly_bytecode vm enable =
    (record vm { readonly_bytecode_enabled = enable }, vm.readonly_bytecode_enabled)

-- `ubpf_register`. Two names are compared by `strcmp`; here a name is a number. Where a program is
-- compiled, its code is made writable, gets the new address and is made executable again; `patched` is
-- whether all of this succeeds, and true where nothing is compiled.
unfoldable pub register : Vm → Bool → ℕ → ℕ → Option Helper → Vm × Bool
register vm patched idx name fn = if leb max_ext_funcs idx then (vm, false) else (
  record vm {
    ext_funcs = update vm.ext_funcs idx fn;
    ext_func_names = update vm.ext_func_names idx (some name);
  },
  patched,
)

-- `patched` is as for `register`.
unfoldable pub register_external_dispatcher :
    Vm → Bool → Option (ℕ → Helper) → (ℕ → Bool) → Vm × Bool
register_external_dispatcher vm patched dispatcher validater =
    (record vm { dispatcher = dispatcher; dispatcher_validate = validater }, patched)

-- The index is set once.
unfoldable pub set_unwind_function_index : Vm → ℕ → Vm × Bool
set_unwind_function_index vm idx =
    if not (eq_ℤ vm.unwind_stack_extension_index (negsuc 0))
    then (vm, false)
    else (record vm { unwind_stack_extension_index = i32 idx }, true)

unfoldable pub has_name : Vm → ℕ → ℕ → Bool
has_name vm name i = elim (vm.ext_func_names i) [ none ↦ false | some other ↦ other == name ]

-- The loop of `ubpf_lookup_registered_function`: `left` entries from `i` on.
unfoldable pub lookup_from : Vm → ℕ → ℕ → ℕ → Option ℕ
unfolding has_name
lookup_from vm name zero i = none
lookup_from vm name (suc left) i =
    let rest = lookup_from vm name left (i + 1) in if has_name vm name i then some i else rest

-- The first entry of that name; `none` is the result -1.
unfoldable pub lookup_registered_function : Vm → ℕ → Option ℕ
unfolding lookup_from
lookup_registered_function vm name = lookup_from vm name max_ext_funcs 0

-- The secret cannot change while instructions are stored under it.
unfoldable pub set_pointer_secret : Vm → ℕ → Vm × Bool
set_pointer_secret vm secret = elim vm.insts [
  | none ↦ (record vm { pointer_secret = secret }, true)
  | some words ↦ (vm, false)
]

unfoldable pub register_data_relocation : Vm → Option DataRelocation → Vm × Bool
register_data_relocation vm f = elim vm.data_relocation_function [
  | none ↦ (record vm { data_relocation_function = f }, true)
  | some g ↦ (vm, false)
]

unfoldable pub register_data_bounds_check : Vm → Option (ℕ → ℕ → Bool) → Vm × Bool
register_data_bounds_check vm f = elim vm.bounds_check_function [
  | none ↦ (record vm { bounds_check_function = f }, true)
  | some g ↦ (vm, false)
]

-- `ubpf_set_instruction_limit`, with the limit that it replaces. The field is an int.
unfoldable pub set_instruction_limit : Vm → ℕ → Vm × ℤ
set_instruction_limit vm limit = (record vm { instruction_limit = i32 limit }, vm.instruction_limit)

unfoldable pub register_stack_usage_calculator : Vm → Option (ℕ → ℕ) → Vm × Bool
register_stack_usage_calculator vm f = (record vm { stack_usage_calculator = f }, true)
