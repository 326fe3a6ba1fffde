-- ===== src/Interp/Shadow.antt =====
-- vm/ubpf_vm.c: the undefined-behaviour check. `ubpf_validate_shadow_register` tracks which
-- registers have been written, `ubpf_mark_shadow_stack` and `ubpf_check_shadow_stack` which bytes
-- of the stack.
pub mod Marked
use mathlib.Core.Bool.{not}
use ubpf.Prelude.{
  ℕ, zero, suc, ◌+◌, ◌-◌, ◌/◌, ◌%◌, ◌*◌, Bool, true, false, ◌&&◌, ◌||◌, Option, none, some, ltb,
  leb, ◌==◌, if◌then◌else◌,
}
use ubpf.Prelude.Int.{pos}
use ubpf.Word.{u64}
use ubpf.Inst.{Inst}
use ubpf.Filter.{eq_ℤ}
use ubpf.Vm.{Vm}
use ubpf.Interp.{Regions, update}

abbrev pub Mask : Type 0
Mask = ℕ → Bool

unfoldable pub instruction_class : ℕ → ℕ
instruction_class opcode = opcode % 8

-- `opcode & EBPF_ALU_OP_MASK`, which is also `opcode & EBPF_JMP_OP_MASK`.
unfoldable pub operation : ℕ → ℕ
operation opcode = opcode % 256 / 16 * 16

unfoldable pub uses_register : ℕ → Bool
uses_register opcode = opcode / 8 % 2 == 1

-- Whether the destination holds a value after an arithmetic instruction; `none` for an unknown
-- operation.
unfoldable pub after_alu : ℕ → Bool → Bool → Option Bool
after_alu opcode source_valid destination_valid =
    let op = operation opcode in
    if op == 0x80 || op == 0xd0
    then some destination_valid
    else if op == 0xe0 || op == 0xf0
    then none
    else some (if uses_register opcode then source_valid else true)

unfoldable pub after_jump : Inst → Bool → Bool → Option Bool
after_jump i source_valid destination_valid =
    let op = operation i.opcode in
    if op == 0x80 || op == 0x00 || op == 0x90
    then some destination_valid
    else if op == 0xe0 || op == 0xf0
    then none
    else if eq_ℤ i.offset (pos 0)
    then some destination_valid
    else if not destination_valid || (uses_register i.opcode && not source_valid)
    then none
    else some destination_valid

-- The switch over the instruction class: whether the destination is valid afterwards, or `none`
-- where the instruction reads a register that holds no value.
unfoldable pub valid_after : Inst → Bool → Bool → Option Bool
unfolding instruction_class after_alu after_jump operation uses_register
valid_after i source_valid destination_valid =
    let class = instruction_class i.opcode in
    if class == 0x00
    then some true
    else if class == 0x01
    then (if source_valid then some true else none)
    else if class == 0x02
    then (if not (i.dst == 10) && not destination_valid then none else some destination_valid)
    else if class == 0x03
    then (if not (i.dst == 10) && (not source_valid || not destination_valid)
        then none
        else some destination_valid)
    else if class == 0x04 || class == 0x07
    then after_alu i.opcode source_valid destination_valid
    else after_jump i source_valid destination_valid

-- r1 to r5 hold no value after a call of the host and after EXIT.
abbrev clear_arguments : Mask → Mask
clear_arguments mask j = if leb 1 j && leb j 5 then false else mask j

abbrev call_code : ℕ
call_code = 0x85

abbrev exit_code : ℕ
exit_code = 0x95

unfoldable pub after_call : Inst → Mask → Mask
after_call i mask =
    if i.opcode == call_code && i.src == 0 then clear_arguments (update mask 0 true) else mask

unfoldable pub after_exit : Inst → Mask → Option Mask
after_exit i mask =
    if i.opcode == exit_code
    then (if not (mask 0) then none else some (clear_arguments mask))
    else some mask

unfoldable pub validate_shadow_register : Vm → Mask → Inst → Option Mask
unfolding valid_after after_call after_exit
validate_shadow_register vm mask i =
    if not vm.undefined_behavior_check_enabled
    then some mask
    else elim (valid_after i (mask i.src) (mask i.dst)) [
      | none ↦ none
      | some v ↦ after_exit i (after_call i (update mask i.dst v))
    ]

abbrev on_stack : Regions → ℕ → ℕ → Bool
on_stack r access_start access_end =
    leb r.stack_start access_start && leb access_end (u64 (r.stack_start + r.stack_length))

-- The loop over the bits of one access.
unfoldable pub mark_bits : ℕ → Mask → ℕ → Mask
mark_bits zero mask bit = mask
mark_bits (suc n) mask bit = mark_bits n (update mask bit true) (bit + 1)

unfoldable pub all_bits : ℕ → Mask → ℕ → Bool
all_bits zero mask bit = true
all_bits (suc n) mask bit = mask bit && all_bits n mask (bit + 1)

unfoldable pub mark_shadow_stack : Vm → Regions → Mask → ℕ → ℕ → Mask
unfolding mark_bits
mark_shadow_stack vm r mask a size =
    let access_end = u64 (a + size) in
    if not vm.undefined_behavior_check_enabled || ltb access_end a
    then mask
    else (if on_stack r a access_end then mark_bits size mask (a - r.stack_start) else mask)

unfoldable pub check_shadow_stack : Vm → Regions → Mask → ℕ → ℕ → Bool
unfolding all_bits
check_shadow_stack vm r mask a size =
    let access_end = u64 (a + size) in
    if not vm.undefined_behavior_check_enabled || ltb access_end a
    then true
    else (if on_stack r a access_end then all_bits size mask (a - r.stack_start) else true)

-- The bits of the block that `ubpf_exec_ex` allocates, `calloc(stack_length / 8, 1)`.
abbrev pub allocated_bits : Regions → ℕ
allocated_bits r = r.stack_length / 8 * 8

-- Whether `ubpf_mark_shadow_stack` writes past that block. The loop stops at the bit of
-- `access_end`.
unfoldable pub marks_past : Vm → Regions → ℕ → ℕ → Bool
marks_past vm r a size =
    let access_end = u64 (a + size) in
    vm.undefined_behavior_check_enabled
    && not (ltb access_end a)
    && on_stack r a access_end
    && ltb (allocated_bits r) (access_end - r.stack_start)

-- Whether `ubpf_check_shadow_stack` reads past it: the loop comes to the first bit outside, if each
-- bit before is set.
unfoldable pub reads_past : Vm → Regions → Mask → ℕ → ℕ → Bool
unfolding all_bits marks_past
reads_past vm r mask a size =
    let bit = a - r.stack_start in
    marks_past vm r a size && all_bits (allocated_bits r - bit) mask bit
