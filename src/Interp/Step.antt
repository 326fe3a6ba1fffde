-- ===== src/Interp/Step.antt =====
-- vm/ubpf_vm.c, `ubpf_exec_ex`: one round of the `while (1)` loop.
use mathlib.Core.Bool.{not}
use ubpf.Prelude.{ℕ, ◌+◌, ◌*◌, ◌^◌, Bool, ◌&&◌, Option, none, some, leb, ◌==◌, if◌then◌else◌}
use ubpf.Prelude.Int.{ℤ, pos, ◌-ℤ◌, ltb_ℤ}
use ubpf.Word.{to_u64, to_u32, u32, u16}
use ubpf.Inst.{
  Inst, w32, w64, Operand, from_imm, from_reg, byte, half, word, Opcode, alu, neg, le, be, bswap,
  ldx, ldxbsx, ldxhsx, ldxwsx, st, stx, lddw, jump, ja, ja32, call, exit, atomic, decode,
}
use ubpf.Filter.{eq_ℤ}
use ubpf.Alu.{alu32, alu64, negate32, negate64, to_little, to_big}
use ubpf.Memory.{size_of, mem_load, mem_load_sx}
use ubpf.Vm.{Vm}
use ubpf.Vm.Program.{fetch_instruction}
use ubpf.Interp.{
  Regions, State, Outcome, running, failed, fault, pc_out_of_range, limit_exceeded,
  uninitialized_register, unknown_opcode, ◌>>=◌, set_reg,
}
use ubpf.Interp.Shadow.{validate_shadow_register, instruction_class, operation}
use ubpf.Interp.Jump.{jump_taken, jump_by}
use ubpf.Interp.Access.{exec_load, exec_store, exec_atomic}
use ubpf.Interp.Call.{enter_function, exec_call, exec_exit}

-- The second operand: `imm` as a 64-bit word, or the source register.
abbrev pub operand : Operand → Inst → State → ℕ
operand from_imm i s = to_u64 i.imm
operand from_reg i s = s.reg i.src

unfoldable pub jump_if : Bool → ℤ → State → State
jump_if taken offset s = if taken then jump_by offset s else s

-- EBPF_OP_LDDW: the next word holds the upper half.
unfoldable pub load_wide : Inst → Option Inst → State → Outcome
load_wide i none s = fault
load_wide i (some next) s =
    running
      (set_reg (record s { pc = u16 (s.pc + 1) }) i.dst (to_u32 i.imm + to_u32 next.imm * 2 ^ 32))

-- EBPF_OP_NEG and EBPF_OP_NEG64, with the value that wraps: `-(int64_t)` of INT64_MIN overflows.
unfoldable pub exec_neg : Regions → Inst → (ℕ → ℕ) → State → Outcome
exec_neg r i negate s =
    if s.reg i.dst == 2 ^ 63 && not r.target.wrapping_negation
    then fault
    else running (set_reg s i.dst (negate (s.reg i.dst)))

-- The switch, with `pc` past the instruction.
unfoldable pub exec_opcode : Vm → Regions → Inst → Opcode → State → Outcome
unfolding jump_if exec_neg
exec_opcode vm r i (alu w32 op k) s =
    running (set_reg s i.dst (alu32 op k i.offset (s.reg i.dst) (operand k i s)))
exec_opcode vm r i (alu w64 op k) s =
    running (set_reg s i.dst (alu64 op k i.offset (s.reg i.dst) (operand k i s)))
exec_opcode vm r i (neg w32) s = exec_neg r i negate32 s
exec_opcode vm r i (neg w64) s = exec_neg r i negate64 s
exec_opcode vm r i le s = running (set_reg s i.dst (to_little i.imm (s.reg i.dst)))
exec_opcode vm r i be s = running (set_reg s i.dst (to_big i.imm (s.reg i.dst)))
exec_opcode vm r i bswap s = running (set_reg s i.dst (to_big i.imm (s.reg i.dst)))
exec_opcode vm r i (ldx z) s = exec_load vm r i (size_of z) (mem_load (size_of z)) s
exec_opcode vm r i ldxbsx s = exec_load vm r i 1 (mem_load_sx byte) s
exec_opcode vm r i ldxhsx s = exec_load vm r i 2 (mem_load_sx half) s
exec_opcode vm r i ldxwsx s = exec_load vm r i 4 (mem_load_sx word) s
exec_opcode vm r i (st z) s = exec_store vm r i (size_of z) (to_u64 i.imm) s
exec_opcode vm r i (stx z) s = exec_store vm r i (size_of z) (s.reg i.src) s
exec_opcode vm r i lddw s = load_wide i (fetch_instruction vm s.pc) s
exec_opcode vm r i (jump w op k) s =
    running (jump_if (jump_taken w op (s.reg i.dst) (operand k i s)) i.offset s)
exec_opcode vm r i ja s = running (jump_by i.offset s)
exec_opcode vm r i ja32 s = running (jump_by i.imm s)
exec_opcode vm r i call s = exec_call vm r i s
exec_opcode vm r i exit s = exec_exit s
exec_opcode vm r i (atomic w) s = exec_atomic vm r i w s

-- What follows the switch: a 32-bit operation leaves the upper half of its register clear.
unfoldable pub clear_upper : Inst → State → Outcome
clear_upper i s = running (
    if instruction_class i.opcode == 0x04 && not (operation i.opcode == 0xd0)
    then set_reg s i.dst (u32 (s.reg i.dst))
    else s)

unfoldable pub exec_switch : Vm → Regions → Inst → State → Outcome
unfolding exec_opcode clear_upper
exec_switch vm r i s = elim (decode i.opcode) [
  | none ↦ failed unknown_opcode s
  | some op ↦ exec_opcode vm r i op s >>= clear_upper i
]

unfoldable pub exec_inst : Vm → Regions → Inst → State → Outcome
exec_inst vm r i s = elim (validate_shadow_register vm s.shadow_registers i) [
  | none ↦ failed uninitialized_register s
  | some mask ↦ exec_switch vm r i (record s { shadow_registers = mask })
]

unfoldable pub fetch_and_exec : Vm → Regions → State → Outcome
unfolding exec_inst
fetch_and_exec vm r s = elim (fetch_instruction vm s.pc) [
  | none ↦ fault
  | some i ↦ exec_inst vm r i (record s { pc = u16 (s.pc + 1) })
]

abbrev pub limited : Vm → Bool
limited vm = not (eq_ℤ vm.instruction_limit (pos 0))

-- `instruction_limit--`, where a limit is set.
unfoldable pub count_down : Vm → State → State
unfolding ◌-ℤ◌
count_down vm s = if limited vm then record s { budget = s.budget -ℤ pos 1 } else s

unfoldable pub step : Vm → Regions → State → Outcome
unfolding count_down
step vm r s =
    if leb vm.num_insts s.pc
    then failed pc_out_of_range s
    else if limited vm && not (ltb_ℤ (pos 0) s.budget)
    then failed limit_exceeded s
    else fetch_and_exec vm r (enter_function vm (count_down vm s))
