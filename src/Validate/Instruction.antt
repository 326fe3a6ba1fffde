-- ===== src/Validate/Instruction.antt =====
-- vm/ubpf_vm.c, `validate`: the checks of one instruction.
use mathlib.Core.Bool.{not}
use ubpf.Prelude.{
  ℕ, ◌+◌, ◌%◌, Bool, true, false, ◌&&◌, ◌||◌, none, some, List, length, get_elem?, ltb, leb, ◌==◌,
  if◌then◌else◌,
}
use ubpf.Prelude.Int.{ℤ, pos, negsuc, ◌+ℤ◌, pos_part}
use ubpf.Word.{to_u32}
use ubpf.Inst.{
  Inst, w64, mov, Opcode, alu, neg, le, be, bswap, st, stx, lddw, jump, ja, ja32, call, atomic,
  decode,
}
use ubpf.Filter.{eq_ℤ, is_valid_instruction}
use ubpf.Vm.{Vm, max_ext_funcs}
use ubpf.Interp.Shadow.{operation}
use ubpf.Validate.{
  Verdict, accepted, rejected, reject_if, UsageTable, and_then, opcode_at, invalid_src,
  invalid_endian_immediate, lddw_source, incomplete_lddw, lddw_second_half, infinite_loop,
  jump_out_of_bounds, jump_into_lddw, invalid_call_immediate, nonexistent_function,
  call_out_of_bounds, btf_call, bad_call_type, invalid_atomic, unknown_opcode, invalid_source,
  invalid_destination, invalid_instruction,
}
use ubpf.Validate.Usage.{calculate_stack_usage_for_local_func}

-- `target < 0 || target >= num_insts`.
unfoldable pub outside : ℤ → ℕ → Bool
outside (negsuc n) num_insts = true
outside (pos n) num_insts = leb num_insts n

unfoldable pub check_lddw : List Inst → ℕ → Inst → Verdict
check_lddw insts i inst =
    reject_if (not (inst.src == 0)) lddw_source (elim (get_elem? insts (i + 1)) [
      | none ↦ rejected incomplete_lddw
      | some next ↦ reject_if (not (next.opcode == 0)) incomplete_lddw (
          reject_if (not (next.dst == 0) || not (next.src == 0) || not (eq_ℤ next.offset (pos 0)))
            lddw_second_half accepted)
    ])

-- A jump stays in the program, is not to itself and does not reach a second half of an LDDW.
unfoldable pub check_jump : List Inst → ℕ → ℤ → Verdict
unfolding outside ◌+ℤ◌ opcode_at
check_jump insts i offset =
    let target = pos (i + 1) +ℤ offset in
    reject_if (eq_ℤ offset (negsuc 0)) infinite_loop (
      reject_if (outside target (length insts)) jump_out_of_bounds
        (reject_if (opcode_at insts (pos_part target) == 0) jump_into_lddw accepted))

-- `inst.imm >= MAX_EXT_FUNCS || !vm->ext_funcs[inst.imm]` where there is no dispatcher.
unfoldable pub no_function : Vm → ℕ → Bool
no_function vm n = elim vm.dispatcher [
  | none ↦ leb max_ext_funcs n || elim (vm.ext_funcs n) [ none ↦ true | some f ↦ false ]
  | some d ↦ not (vm.dispatcher_validate n)
]

unfoldable pub check_external : Vm → ℤ → Verdict
unfolding no_function
check_external vm (negsuc n) = rejected invalid_call_immediate
check_external vm (pos n) = reject_if (no_function vm n) nonexistent_function accepted

unfoldable pub check_local : Vm → List Inst → ℕ → ℤ → UsageTable → UsageTable × Verdict
unfolding outside ◌+ℤ◌ calculate_stack_usage_for_local_func
check_local vm insts i imm t =
    let target = pos (i + 1) +ℤ imm in
    if outside target (length insts)
    then (t, rejected call_out_of_bounds)
    else calculate_stack_usage_for_local_func vm (pos_part target) t

unfoldable pub check_call : Vm → List Inst → ℕ → Inst → UsageTable → UsageTable × Verdict
unfolding check_external check_local
check_call vm insts i inst t =
    if inst.src == 0
    then (t, check_external vm inst.imm)
    else if inst.src == 1
    then check_local vm insts i inst.imm t
    else (t, rejected (if inst.src == 2 then btf_call else bad_call_type))

-- An exchange has to fetch; other operations than the six are refused.
unfoldable pub check_atomic : ℤ → Verdict
unfolding operation
check_atomic imm =
    let op = operation (to_u32 imm) in
    if op == 0x00 || op == 0x40 || op == 0x50 || op == 0xa0
    then accepted
    else if op == 0xe0 || op == 0xf0
    then reject_if (to_u32 imm % 2 == 0) invalid_atomic accepted
    else rejected invalid_atomic

unfoldable pub check_endian : ℤ → Verdict
check_endian imm =
    reject_if (not (eq_ℤ imm (pos 16) || eq_ℤ imm (pos 32) || eq_ℤ imm (pos 64)))
      invalid_endian_immediate accepted

-- The switch.
unfoldable pub check_opcode : Vm → List Inst → ℕ → Inst → Opcode → UsageTable → UsageTable × Verdict
unfolding check_lddw check_jump check_call check_atomic check_endian
check_opcode vm insts i inst (neg w) t = (t, reject_if (not (inst.src == 0)) invalid_src accepted)
check_opcode vm insts i inst le t = (t, check_endian inst.imm)
check_opcode vm insts i inst be t = (t, check_endian inst.imm)
check_opcode vm insts i inst bswap t = (t, check_endian inst.imm)
check_opcode vm insts i inst lddw t = (t, check_lddw insts i inst)
check_opcode vm insts i inst (jump w op k) t = (t, check_jump insts i inst.offset)
check_opcode vm insts i inst ja t = (t, check_jump insts i inst.offset)
check_opcode vm insts i inst ja32 t = (t, check_jump insts i inst.imm)
check_opcode vm insts i inst call t = check_call vm insts i inst t
check_opcode vm insts i inst (atomic w) t = (t, check_atomic inst.imm)
check_opcode vm insts i inst _ t = (t, accepted)

-- The local `store`: r10 may be the destination.
unfoldable pub may_name_r10 : Opcode → Bool
may_name_r10 (alu w64 mov k) = true
may_name_r10 (st z) = true
may_name_r10 (stx z) = true
may_name_r10 (atomic w) = true
may_name_r10 _ = false

-- What follows the switch.
unfoldable pub check_fields : Inst → Opcode → Verdict
unfolding may_name_r10 is_valid_instruction
check_fields inst op = reject_if (ltb 10 inst.src) invalid_source (
    reject_if (ltb 9 inst.dst && not (may_name_r10 op && inst.dst == 10)) invalid_destination
      (reject_if (not (is_valid_instruction inst)) invalid_instruction accepted))

unfoldable pub check_instruction : Vm → List Inst → ℕ → Inst → UsageTable → UsageTable × Verdict
unfolding check_opcode check_fields
check_instruction vm insts i inst t = elim (decode inst.opcode) [
  | none ↦ (t, rejected unknown_opcode)
  | some op ↦ and_then (check_opcode vm insts i inst op t) (λ t'. (t', check_fields inst op))
]
