-- ===== src/Interp/Run.antt =====
-- vm/ubpf_vm.c: `ubpf_exec_ex` and `ubpf_exec`, for the legacy execution profile. The loop takes
-- fuel; with an instruction limit the fuel that is enough is known (`Interp.Limit`).
use ubpf.Prelude.{ℕ, zero, suc, ◌+◌, false, ◌||◌, Option, none, some, ◌==◌}
use ubpf.Word.{u64}
use ubpf.Memory.{Memory}
use ubpf.Vm.{Vm, ebpf_stack_size}
use ubpf.Interp.{
  Target, Regions, State, StackFrame, Outcome, running, returned, failed, fault, update,
}
use ubpf.Interp.Step.{step}

-- `none` where the fuel runs out.
unfoldable pub run : ℕ → Vm → Regions → State → Option Outcome
run zero vm r s = none
run (suc fuel) vm r s = elim (step vm r s) [
  | running t ↦ run fuel vm r t
  | returned v t ↦ some (returned v t)
  | failed e t ↦ some (failed e t)
  | fault ↦ some fault
]

abbrev no_frame : StackFrame
no_frame = record {
  stack_usage = 0;
  return_address = 0;
  saved_6 = 0;
  saved_7 = 0;
  saved_8 = 0;
  saved_9 = 0;
}

-- The registers before the first instruction; those that C leaves uninitialised are an argument.
unfoldable pub initial_registers : Regions → (ℕ → ℕ) → ℕ → ℕ
initial_registers r junk =
    update (update (update junk 1 r.mem) 2 r.mem_len) 10 (u64 (r.stack_start + r.stack_length))

unfoldable pub initial_state : Vm → Regions → (ℕ → ℕ) → Memory → State
unfolding initial_registers
initial_state vm r junk m = record {
  pc = 0;
  reg = initial_registers r junk;
  stack_frame_index = 0;
  stack_frames = λ n. no_frame;
  shadow_registers = λ n. n == 1 || n == 2 || n == 10;
  shadow_stack = λ n. false;
  budget = vm.instruction_limit;
  memory = m;
}

-- `ubpf_exec_ex`: -1 at once where no code is loaded.
pub data ExecResult : Type 0 where
  not_loaded : ExecResult
  finished : Option Outcome → ExecResult

unfoldable pub exec_ex : ℕ → Vm → Regions → (ℕ → ℕ) → Memory → ExecResult
unfolding run initial_state
exec_ex fuel vm r junk m = elim vm.insts [
  | none ↦ not_loaded
  | some words ↦ finished (run fuel vm r (initial_state vm r junk m))
]

-- `ubpf_exec`: a stack of UBPF_EBPF_STACK_SIZE bytes at the address `stack`.
unfoldable pub exec : ℕ → Vm → Target → ℕ → ℕ → ℕ → (ℕ → ℕ) → Memory → ExecResult
unfolding exec_ex
exec fuel vm target mem mem_len stack junk m =
    exec_ex fuel vm
      (record {
        mem = mem;
        mem_len = mem_len;
        stack_start = stack;
        stack_length = ebpf_stack_size;
        target = target;
      })
      junk m
