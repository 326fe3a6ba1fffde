-- ===== src/Safe/Run.antt =====
-- vm/ubpf_safe.c: `ubpf_exec_ex_safe`, and vm/ubpf_vm.c: the choice of a profile in `ubpf_exec_ex`.
use ubpf.Prelude.{ℕ, zero, suc, ◌&&◌, Option, none, some, ltb, ◌==◌, if◌then◌else◌}
use mathlib.Core.Bool.{not}
use ubpf.Memory.{Memory}
use ubpf.Vm.{Vm, legacy, safe}
use ubpf.Interp.{Regions, update}
use ubpf.Interp.Run.{ExecResult, initial_state, exec_ex}
use ubpf.Safe.{
  Tag, scalar_tag, pointer_tag, region_id_input, region_id_stack, all_permissions, SafeState,
  SavedTags, SafeOutcome, running, returned, failed, fault,
}
use ubpf.Safe.Step.{safe_step}

-- `none` where the fuel runs out.
unfoldable pub safe_run : ℕ → Vm → Regions → SafeState → Option SafeOutcome
safe_run zero vm r s = none
safe_run (suc fuel) vm r s = elim (safe_step vm r s) [
  | running t ↦ safe_run fuel vm r t
  | returned v t ↦ some (returned v t)
  | failed e t ↦ some (failed e t)
  | fault ↦ some fault
]

abbrev pub input_tag : Regions → Tag
input_tag r = pointer_tag region_id_input all_permissions r.mem r.mem_len

abbrev pub stack_tag : Regions → Tag
stack_tag r = pointer_tag region_id_stack all_permissions r.stack_start r.stack_length

-- r1 points to the caller's memory, where there is any, and r10 to the stack.
unfoldable pub initial_tags : Regions → ℕ → Tag
initial_tags r =
    update
      (update (λ j. scalar_tag) 1
        (if not (r.mem == 0) && ltb 0 r.mem_len then input_tag r else scalar_tag))
      10 (stack_tag r)

abbrev no_tags : SavedTags
no_tags = record { tag_6 = scalar_tag; tag_7 = scalar_tag; tag_8 = scalar_tag; tag_9 = scalar_tag }

unfoldable pub initial_safe_state : Vm → Regions → (ℕ → ℕ) → Memory → SafeState
unfolding initial_state initial_tags
initial_safe_state vm r junk m = record {
  core = initial_state vm r junk m;
  tags = initial_tags r;
  spills = λ n. none;
  saved_tags = λ n. no_tags;
}

-- `ubpf_exec_ex_safe`, where the allocations succeed.
pub data SafeResult : Type 0 where
  not_loaded : SafeResult
  finished : Option SafeOutcome → SafeResult

unfoldable pub exec_ex_safe : ℕ → Vm → Regions → (ℕ → ℕ) → Memory → SafeResult
unfolding safe_run initial_safe_state
exec_ex_safe fuel vm r junk m = elim vm.insts [
  | none ↦ not_loaded
  | some words ↦ finished (safe_run fuel vm r (initial_safe_state vm r junk m))
]

-- `ubpf_exec_ex`: the machine's profile chooses the interpreter.
pub data Execution : Type 0 where
  in_legacy : ExecResult → Execution
  in_safe : SafeResult → Execution

unfoldable pub execute : ℕ → Vm → Regions → (ℕ → ℕ) → Memory → Execution
unfolding exec_ex exec_ex_safe
execute fuel vm r junk m = elim vm.execution_profile [
  | legacy ↦ in_legacy (exec_ex fuel vm r junk m)
  | safe ↦ in_safe (exec_ex_safe fuel vm r junk m)
]
