-- ===== src/Validate.antt =====
-- vm/ubpf_vm.c: the validator's verdicts. The checks are in the modules below.
pub mod Usage
pub mod Instruction
pub mod Subprograms
pub mod Program
use ubpf.Prelude.{ℕ, Bool, if◌then◌else◌, List, get_elem?, none, some}
use ubpf.Inst.{Inst}
use ubpf.Vm.{StackUsage}

-- The messages of `validate`, without their arguments.
pub data Message : Type 0 where
  too_many_instructions bad_stack_size invalid_src invalid_endian_immediate lddw_source : Message
  incomplete_lddw lddw_second_half infinite_loop jump_out_of_bounds jump_into_lddw : Message
  invalid_call_immediate nonexistent_function call_out_of_bounds btf_call bad_call_type : Message
  invalid_atomic unknown_opcode invalid_source invalid_destination invalid_instruction : Message
  leaves_subprogram no_exit : Message

pub data Verdict : Type 0 where
  accepted : Verdict
  rejected : Message → Verdict

-- `if (bad) { *errmsg = …; return false; }`, and what follows.
abbrev pub reject_if : Bool → Message → Verdict → Verdict
reject_if bad m rest = if bad then rejected m else rest

-- `vm->local_func_stack_usage`, which the validator fills as it goes.
abbrev pub UsageTable : Type 0
UsageTable = ℕ → StackUsage

-- A check that may fill the table, and the check that follows it.
abbrev pub and_then :
    UsageTable × Verdict → (UsageTable → UsageTable × Verdict) → UsageTable × Verdict
and_then (t, accepted) f = f t
and_then (t, rejected m) f = (t, rejected m)

-- `insts[k].opcode`, zero past the end.
unfoldable pub opcode_at : List Inst → ℕ → ℕ
opcode_at insts k = elim (get_elem? insts k) [ none ↦ 0 | some i ↦ i.opcode ]
