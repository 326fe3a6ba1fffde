-- ===== src/Vm.antt =====
-- vm/ubpf_int.h and vm/inc/ubpf.h: `struct ubpf_vm` and the values the interpreter works on.
-- The fields of compiled code are in Jit/Compile; the message and debug callbacks are left out.
pub mod Program
use ubpf.Prelude.{ℕ, ◌+◌, ◌*◌, Bool, List, [], Option, none, true, false, ◌==◌, if◌then◌else◌}
use ubpf.Prelude.Int.{ℤ, pos, negsuc}
use ubpf.Memory.{Memory}

abbrev pub max_insts : ℕ
max_insts = 65536

abbrev pub max_call_depth : ℕ
max_call_depth = 8

abbrev pub ebpf_stack_size : ℕ
ebpf_stack_size = max_call_depth * 512

abbrev pub local_function_stack_size : ℕ
local_function_stack_size = 256

abbrev pub max_ext_funcs : ℕ
max_ext_funcs = 64

-- A function of the host: r1 to r5 and a cookie, to a result and the memory that it leaves.
abbrev pub Helper : Type 0
Helper = ℕ → ℕ → ℕ → ℕ → ℕ → ℕ → Memory → ℕ × Memory

-- `ubpf_stack_usage_calculation_status_t` with the usage that it is about.
pub data StackUsage : Type 0 where
  unknown : StackUsage
  custom : ℕ → StackUsage
  default : StackUsage

-- `enum ubpf_execution_profile`.
pub data Profile : Type 0 where
  legacy safe : Profile

-- `enum ubpf_safe_region_kind`, and that of a helper's result.
pub data RegionKind : Type 0 where
  pointer handle : RegionKind

pub data ResultKind : Type 0 where
  scalar : ResultKind
  in_region : RegionKind → ResultKind

-- `struct ubpf_safe_region_internal` in use; `end` is past the last byte.
pub record SafeRegion : Type 0 where
  pub id : ℕ
  pub base : ℕ
  pub end : ℕ
  pub kind : RegionKind
  pub permissions : ℕ

-- `struct ubpf_safe_helper_metadata` in use.
pub record SafeHelper : Type 0 where
  pub result_kind : ResultKind
  pub region_id : ℕ
  pub region_size : ℕ

abbrev pub max_safe_regions : ℕ
max_safe_regions = 64

-- The host's resolution of a reference to data of an ELF image: the image, the place and the size
-- of the section, the place of the symbol's name, the symbol's value and size.
abbrev pub DataRelocation : Type 0
DataRelocation = List ℕ → ℕ → ℕ → ℕ → ℕ → ℕ → ℕ

-- `insts` holds the encoded words (`none` for NULL) and `insts_base` their address.
pub record Vm : Type 0 where
  pub insts : Option (List ℕ)
  pub insts_base : ℕ
  pub insts_alloc_size : ℕ
  pub num_insts : ℕ
  pub ext_funcs : ℕ → Option Helper
  pub int_funcs : ℕ → Bool
  pub ext_func_names : ℕ → Option ℕ
  pub local_func_stack_usage : ℕ → StackUsage
  pub stack_usage_calculator : Option (ℕ → ℕ)
  pub dispatcher : Option (ℕ → Helper)
  pub dispatcher_validate : ℕ → Bool
  pub bounds_check_enabled : Bool
  pub undefined_behavior_check_enabled : Bool
  pub constant_blinding_enabled : Bool
  pub readonly_bytecode_enabled : Bool
  pub execution_profile : Profile
  pub execution_started : Bool
  pub safe_regions : ℕ → Option SafeRegion
  pub safe_helpers : ℕ → Option SafeHelper
  pub unwind_stack_extension_index : ℤ
  pub pointer_secret : ℕ
  pub bounds_check_function : Option (ℕ → ℕ → Bool)
  pub data_relocation_function : Option DataRelocation
  pub instruction_limit : ℤ
