-- ===== src/Safe/Step.antt =====
-- vm/ubpf_safe.c, `ubpf_exec_ex_safe`: one round of the `while (1)` loop.
use mathlib.Core.Bool.{not}
use ubpf.Prelude.{ℕ, ◌+◌, Bool, true, false, ◌&&◌, ◌||◌, none, some, leb, ◌==◌, if◌then◌else◌}
use ubpf.Prelude.Int.{pos, ltb_ℤ}
use ubpf.Word.{to_u64, u16}
use ubpf.Inst.{
  Inst, Width, w32, w64, Operand, AluOp, JumpOp, byte, half, word, double, Size, Opcode, alu, neg,
  le, be, bswap, ldx, ldxbsx, ldxhsx, ldxwsx, st, stx, lddw, jump, ja, ja32, call, exit, atomic,
  decode,
}
use ubpf.Alu.{alu32, alu64, negate32, negate64, to_little, to_big}
use ubpf.Memory.{size_of, mem_load, mem_load_sx}
use ubpf.Vm.{Vm}
use ubpf.Vm.Program.{fetch_instruction}
use ubpf.Interp.{
  Regions, State, pc_out_of_range, limit_exceeded, uninitialized_register, unknown_opcode, set_reg,
}
use ubpf.Interp.Shadow.{validate_shadow_register, instruction_class}
use ubpf.Interp.Jump.{jump_taken, jump_by}
use ubpf.Interp.Call.{enter_function}
use ubpf.Interp.Step.{operand, jump_if, exec_neg, load_wide, clear_upper, limited, count_down}
use ubpf.Safe.{
  Tag, scalar_tag, SafeState, SafeOutcome, running, failed, fault, stopped, refused, under_tags,
  set_tag, ◌>>=◌,
}
use ubpf.Safe.Alu.{Tagged, tagged, untaggable, apply_alu}
use ubpf.Safe.Transfer.{safe_load, safe_store, safe_atomic}
use ubpf.Safe.Call.{safe_call, safe_exit}

-- The cases of the operations of class EBPF_CLS_ALU, and of EBPF_CLS_ALU64.
unfoldable pub exec_alu32 : AluOp → Operand → Inst → State → State
exec_alu32 op k i s = set_reg s i.dst (alu32 op k i.offset (s.reg i.dst) (operand k i s))

unfoldable pub exec_alu64 : AluOp → Operand → Inst → State → State
exec_alu64 op k i s = set_reg s i.dst (alu64 op k i.offset (s.reg i.dst) (operand k i s))

-- EBPF_OP_LE; EBPF_OP_BE and EBPF_OP_BSWAP.
unfoldable pub exec_little : Inst → State → State
exec_little i s = set_reg s i.dst (to_little i.imm (s.reg i.dst))

unfoldable pub exec_big : Inst → State → State
exec_big i s = set_reg s i.dst (to_big i.imm (s.reg i.dst))

-- The cases of the conditional jumps.
unfoldable pub exec_jump : Width → JumpOp → Operand → Inst → State → State
unfolding jump_if
exec_jump w op k i s = jump_if (jump_taken w op (s.reg i.dst) (operand k i s)) i.offset s

abbrev pub is_double : Size → Bool
is_double double = true
is_double _ = false

unfoldable pub with_core : SafeState → State → SafeOutcome
with_core s t = running (record s { core = t })

-- EBPF_OP_LDDW: the constant is a number.
unfoldable pub safe_wide : Vm → Inst → SafeState → SafeOutcome
unfolding load_wide
safe_wide vm i s =
    under_tags (set_tag s i.dst scalar_tag) (load_wide i (fetch_instruction vm s.core.pc) s.core)

-- The switch, with `pc` past the instruction.
unfoldable pub safe_opcode : Vm → Regions → Inst → Opcode → SafeState → SafeOutcome
unfolding with_core exec_alu32 exec_alu64 exec_little exec_big exec_jump exec_neg
safe_opcode vm r i (alu w32 op k) s = with_core s (exec_alu32 op k i s.core)
safe_opcode vm r i (alu w64 op k) s = with_core s (exec_alu64 op k i s.core)
safe_opcode vm r i (neg w32) s = under_tags s (exec_neg r i negate32 s.core)
safe_opcode vm r i (neg w64) s = under_tags s (exec_neg r i negate64 s.core)
safe_opcode vm r i le s = with_core s (exec_little i s.core)
safe_opcode vm r i be s = with_core s (exec_big i s.core)
safe_opcode vm r i bswap s = with_core s (exec_big i s.core)
safe_opcode vm r i (ldx z) s = safe_load vm r i (size_of z) (is_double z) (mem_load (size_of z)) s
safe_opcode vm r i ldxbsx s = safe_load vm r i 1 false (mem_load_sx byte) s
safe_opcode vm r i ldxhsx s = safe_load vm r i 2 false (mem_load_sx half) s
safe_opcode vm r i ldxwsx s = safe_load vm r i 4 false (mem_load_sx word) s
safe_opcode vm r i (st z) s = safe_store vm r i (size_of z) (to_u64 i.imm) false s
safe_opcode vm r i (stx z) s = safe_store vm r i (size_of z) (s.core.reg i.src) (is_double z) s
safe_opcode vm r i lddw s = safe_wide vm i s
safe_opcode vm r i (jump w op k) s = with_core s (exec_jump w op k i s.core)
safe_opcode vm r i ja s = with_core s (jump_by i.offset s.core)
safe_opcode vm r i ja32 s = with_core s (jump_by i.imm s.core)
safe_opcode vm r i call s = safe_call vm r i s
safe_opcode vm r i exit s = safe_exit s
safe_opcode vm r i (atomic w) s = safe_atomic r i w s

unfoldable pub is_arithmetic : Inst → Bool
is_arithmetic i = instruction_class i.opcode == 0x04 || instruction_class i.opcode == 0x07

unfoldable pub retag : Inst → Tagged → SafeState → SafeOutcome
retag i (tagged tag) s = running (set_tag s i.dst tag)
retag i (untaggable e) s = failed (refused e) s

-- What follows the switch: the tag of an arithmetic result, from the tags `before` the switch, and
-- the upper half of a 32-bit one.
unfoldable pub settle_tag : Inst → (ℕ → Tag) → SafeState → SafeOutcome
unfolding retag
settle_tag i before s =
    if is_arithmetic i
    then retag i (apply_alu i (before i.dst) (before i.src) (s.core.reg i.dst)) s
    else running s

unfoldable pub clear_tagged : Inst → SafeState → SafeOutcome
unfolding clear_upper
clear_tagged i s = under_tags s (clear_upper i s.core)

unfoldable pub safe_switch : Vm → Regions → Inst → SafeState → SafeOutcome
unfolding safe_opcode settle_tag clear_tagged
safe_switch vm r i s = elim (decode i.opcode) [
  | none ↦ failed (stopped unknown_opcode) s
  | some op ↦ safe_opcode vm r i op s >>= settle_tag i s.tags >>= clear_tagged i
]

unfoldable pub safe_inst : Vm → Regions → Inst → SafeState → SafeOutcome
unfolding safe_switch
safe_inst vm r i s = elim (validate_shadow_register vm s.core.shadow_registers i) [
  | none ↦ failed (stopped uninitialized_register) s
  | some mask ↦ safe_switch vm r i (record s { core = record s.core { shadow_registers = mask } })
]

unfoldable pub safe_fetch : Vm → Regions → SafeState → SafeOutcome
unfolding safe_inst
safe_fetch vm r s = elim (fetch_instruction vm s.core.pc) [
  | none ↦ fault
  | some i ↦ safe_inst vm r i (record s { core = record s.core { pc = u16 (s.core.pc + 1) } })
]

unfoldable pub safe_step : Vm → Regions → SafeState → SafeOutcome
unfolding count_down
safe_step vm r s =
    if leb vm.num_insts s.core.pc
    then failed (stopped pc_out_of_range) s
    else if limited vm && not (ltb_ℤ (pos 0) s.core.budget)
    then failed (stopped limit_exceeded) s
    else safe_fetch vm r (record s { core = enter_function vm (count_down vm s.core) })
