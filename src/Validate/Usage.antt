-- ===== src/Validate/Usage.antt =====
-- vm/ubpf_vm.c: `ubpf_calculate_stack_usage_for_local_func`.
use mathlib.Core.Bool.{not}
use ubpf.Prelude.{ℕ, ◌%◌, none, some, ◌==◌}
use ubpf.Word.{u16}
use ubpf.Vm.{Vm, StackUsage, unknown, custom, default}
use ubpf.Interp.{update}
use ubpf.Interp.Call.{stack_usage_for_local_func}
use ubpf.Validate.{Verdict, accepted, bad_stack_size, reject_if, UsageTable}

-- The entry of an unknown usage: what the registered calculator says, or the default.
unfoldable pub first_usage : Vm → ℕ → StackUsage
first_usage vm pc = elim vm.stack_usage_calculator [ none ↦ default | some f ↦ custom (u16 (f pc)) ]

-- A usage that is known is not calculated again.
unfoldable pub fill_usage : Vm → ℕ → UsageTable → UsageTable
unfolding first_usage
fill_usage vm pc t = elim (t pc) [
  | unknown ↦ update t pc (first_usage vm pc)
  | custom n ↦ t
  | default ↦ t
]

-- The usage has to be a multiple of 16.
unfoldable pub calculate_stack_usage_for_local_func : Vm → ℕ → UsageTable → UsageTable × Verdict
unfolding fill_usage stack_usage_for_local_func
calculate_stack_usage_for_local_func vm pc t =
    let t' = fill_usage vm pc t in
    (t', reject_if (not (stack_usage_for_local_func t' pc % 16 == 0)) bad_stack_size accepted)
