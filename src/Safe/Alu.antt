-- ===== src/Safe/Alu.antt =====
-- vm/ubpf_safe.c: what an arithmetic instruction makes of the tags.
pub mod Origin
use mathlib.Core.Bool.{not}
use ubpf.Prelude.{ℕ, ◌+◌, ◌-◌, ◌&&◌, ◌||◌, ltb, ◌==◌, if◌then◌else◌}
use ubpf.Prelude.Int.{pos}
use ubpf.Inst.{Inst}
use ubpf.Filter.{eq_ℤ}
use ubpf.Interp.Bounds.{uint64_max}
use ubpf.Interp.Shadow.{instruction_class, operation, uses_register}
use ubpf.Safe.{
  Tag, scalar_tag, Refusal, bad_region, pointer_escaped, invalid_operand, region_id_stack,
}
use ubpf.Safe.Access.{is_pointer, is_scalar}

pub data Tagged : Type 0 where
  tagged : Tag → Tagged
  untaggable : Refusal → Tagged

-- `UBPF_SAFE_STACK_ADDRESS_SLACK`.
abbrev pub stack_address_slack : ℕ
stack_address_slack = 32767

unfoldable pub lower_bound : Tag → ℕ
lower_bound tag =
    if tag.region_id == region_id_stack
    then (if ltb stack_address_slack tag.base then tag.base - stack_address_slack else 0)
    else tag.base

unfoldable pub upper_bound : Tag → ℕ
upper_bound tag =
    let region_end = tag.base + tag.size in
    if tag.region_id == region_id_stack
    then (if ltb (uint64_max - stack_address_slack) region_end
        then uint64_max
        else region_end + stack_address_slack)
    else region_end

-- `ubpf_safe_apply_pointer_offset`.
unfoldable pub apply_pointer_offset : Tag → ℕ → Tagged
unfolding lower_bound upper_bound
apply_pointer_offset tag result =
    if ltb (uint64_max - tag.size) tag.base
    then untaggable bad_region
    else if ltb result (lower_bound tag) || ltb (upper_bound tag) result
    then untaggable pointer_escaped
    else tagged tag

unfoldable pub apply_mov : Inst → Tag → Tagged
apply_mov i src =
    if uses_register i.opcode
    then (if not (eq_ℤ i.offset (pos 0)) && not (is_scalar src.kind)
        then untaggable invalid_operand
        else tagged (if eq_ℤ i.offset (pos 0) then src else scalar_tag))
    else tagged scalar_tag

-- A pointer or a number, and an immediate.
unfoldable pub apply_immediate : Tag → ℕ → Tagged
unfolding apply_pointer_offset
apply_immediate dst result =
    if is_pointer dst.kind
    then apply_pointer_offset dst result
    else if not (is_scalar dst.kind)
    then untaggable invalid_operand
    else tagged scalar_tag

unfoldable pub apply_add : Inst → Tag → Tag → ℕ → Tagged
unfolding apply_immediate
apply_add i dst src result =
    if not (uses_register i.opcode)
    then apply_immediate dst result
    else if is_pointer dst.kind && is_scalar src.kind
    then apply_pointer_offset dst result
    else if is_scalar dst.kind && is_pointer src.kind
    then apply_pointer_offset src result
    else if is_scalar dst.kind && is_scalar src.kind
    then tagged scalar_tag
    else untaggable invalid_operand

unfoldable pub apply_sub : Inst → Tag → Tag → ℕ → Tagged
unfolding apply_immediate
apply_sub i dst src result =
    if not (uses_register i.opcode)
    then apply_immediate dst result
    else if is_pointer dst.kind && is_scalar src.kind
    then apply_pointer_offset dst result
    else if is_pointer dst.kind && is_pointer src.kind && dst.region_id == src.region_id
    then tagged scalar_tag
    else if is_scalar dst.kind && is_scalar src.kind
    then tagged scalar_tag
    else untaggable invalid_operand

-- The other operations want numbers. Two codes, 0xe0 and 0xf0, stand for no operation.
unfoldable pub apply_other : Inst → Tag → Tag → Tagged
apply_other i dst src =
    if operation i.opcode == 0xe0 || operation i.opcode == 0xf0
    then tagged scalar_tag
    else if not (is_scalar dst.kind) || (uses_register i.opcode && not (is_scalar src.kind))
    then untaggable invalid_operand
    else tagged scalar_tag

-- `ubpf_safe_apply_alu`: the tag of the destination, from the tags before and the result.
unfoldable pub apply_alu : Inst → Tag → Tag → ℕ → Tagged
unfolding apply_mov apply_add apply_sub apply_other
apply_alu i dst src result =
    if instruction_class i.opcode == 0x04
    then tagged scalar_tag
    else if operation i.opcode == 0xb0
    then apply_mov i src
    else if operation i.opcode == 0x00
    then apply_add i dst src result
    else if operation i.opcode == 0x10
    then apply_sub i dst src result
    else apply_other i dst src
