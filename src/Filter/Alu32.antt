-- ===== src/Filter/Alu32.antt =====
-- vm/ubpf_instruction_valid.c: the entries of `_ubpf_instruction_filter` for the second half of LDDW and the 32-bit arithmetic.
use ubpf.Prelude.{List, [], ◌∷◌, some}
use ubpf.Prelude.Int.{pos}
use ubpf.Inst.{
  alu, neg, le, be, bswap, w32, from_imm, from_reg, add, sub, mul, div, or, and, lsh, rsh, modulo,
  xor, mov, arsh, code,
}
use ubpf.Filter.Defs.{InstFilter, reserved, int32_min, int32_max, movsx_alu_offset_enumerated}

unfoldable pub alu32_arithmetic : List InstFilter
unfolding code reserved
alu32_arithmetic =
    record (reserved 0) { immediate_lower_bound = int32_min; immediate_upper_bound = int32_max }
    ∷ record (reserved (code (alu w32 add from_imm))) {
      destination_lower_bound = 0;
      destination_upper_bound = 9;
      immediate_lower_bound = int32_min;
      immediate_upper_bound = int32_max;
    }
    ∷ record (reserved (code (alu w32 add from_reg))) {
      destination_lower_bound = 0;
      destination_upper_bound = 9;
      source_lower_bound = 0;
      source_upper_bound = 10;
    }
    ∷ record (reserved (code (alu w32 sub from_imm))) {
      destination_lower_bound = 0;
      destination_upper_bound = 9;
      immediate_lower_bound = int32_min;
      immediate_upper_bound = int32_max;
    }
    ∷ record (reserved (code (alu w32 sub from_reg))) {
      destination_lower_bound = 0;
      destination_upper_bound = 9;
      source_lower_bound = 0;
      source_upper_bound = 10;
    }
    ∷ record (reserved (code (alu w32 mul from_imm))) {
      destination_lower_bound = 0;
      destination_upper_bound = 9;
      immediate_lower_bound = int32_min;
      immediate_upper_bound = int32_max;
    }
    ∷ record (reserved (code (alu w32 mul from_reg))) {
      destination_lower_bound = 0;
      destination_upper_bound = 9;
      source_lower_bound = 0;
      source_upper_bound = 10;
    }
    ∷ record (reserved (code (alu w32 div from_imm))) {
      destination_lower_bound = 0;
      destination_upper_bound = 9;
      offset_upper_bound = pos 1;
      immediate_lower_bound = int32_min;
      immediate_upper_bound = int32_max;
    }
    ∷ record (reserved (code (alu w32 div from_reg))) {
      destination_lower_bound = 0;
      destination_upper_bound = 9;
      source_lower_bound = 0;
      source_upper_bound = 10;
      offset_upper_bound = pos 1;
    }
    ∷ record (reserved (code (alu w32 or from_imm))) {
      destination_lower_bound = 0;
      destination_upper_bound = 9;
      immediate_lower_bound = int32_min;
      immediate_upper_bound = int32_max;
    }
    ∷ record (reserved (code (alu w32 or from_reg))) {
      destination_lower_bound = 0;
      destination_upper_bound = 9;
      source_lower_bound = 0;
      source_upper_bound = 10;
    }
    ∷ record (reserved (code (alu w32 and from_imm))) {
      destination_lower_bound = 0;
      destination_upper_bound = 9;
      immediate_lower_bound = int32_min;
      immediate_upper_bound = int32_max;
    }
    ∷ record (reserved (code (alu w32 and from_reg))) {
      destination_lower_bound = 0;
      destination_upper_bound = 9;
      source_lower_bound = 0;
      source_upper_bound = 10;
    }
    ∷ []

unfoldable pub alu32_shifts : List InstFilter
unfolding code reserved
alu32_shifts =
    record (reserved (code (alu w32 lsh from_imm))) {
      destination_lower_bound = 0;
      destination_upper_bound = 9;
      immediate_lower_bound = int32_min;
      immediate_upper_bound = int32_max;
    }
    ∷ record (reserved (code (alu w32 lsh from_reg))) {
      destination_lower_bound = 0;
      destination_upper_bound = 9;
      source_lower_bound = 0;
      source_upper_bound = 10;
    }
    ∷ record (reserved (code (alu w32 rsh from_imm))) {
      destination_lower_bound = 0;
      destination_upper_bound = 9;
      immediate_lower_bound = int32_min;
      immediate_upper_bound = int32_max;
    }
    ∷ record (reserved (code (alu w32 rsh from_reg))) {
      destination_lower_bound = 0;
      destination_upper_bound = 9;
      source_lower_bound = 0;
      source_upper_bound = 10;
    }
    ∷ record (reserved (code (neg w32))) {
      destination_lower_bound = 0;
      destination_upper_bound = 9;
    }
    ∷ record (reserved (code (alu w32 modulo from_imm))) {
      destination_lower_bound = 0;
      destination_upper_bound = 9;
      offset_upper_bound = pos 1;
      immediate_lower_bound = int32_min;
      immediate_upper_bound = int32_max;
    }
    ∷ record (reserved (code (alu w32 modulo from_reg))) {
      destination_lower_bound = 0;
      destination_upper_bound = 9;
      source_lower_bound = 0;
      source_upper_bound = 10;
      offset_upper_bound = pos 1;
    }
    ∷ record (reserved (code (alu w32 xor from_imm))) {
      destination_lower_bound = 0;
      destination_upper_bound = 9;
      immediate_lower_bound = int32_min;
      immediate_upper_bound = int32_max;
    }
    ∷ record (reserved (code (alu w32 xor from_reg))) {
      destination_lower_bound = 0;
      destination_upper_bound = 9;
      source_lower_bound = 0;
      source_upper_bound = 10;
    }
    ∷ record (reserved (code (alu w32 mov from_imm))) {
      destination_lower_bound = 0;
      destination_upper_bound = 9;
      immediate_lower_bound = int32_min;
      immediate_upper_bound = int32_max;
    }
    ∷ record (reserved (code (alu w32 mov from_reg))) {
      destination_lower_bound = 0;
      destination_upper_bound = 9;
      source_lower_bound = 0;
      source_upper_bound = 10;
      offset_enumerated = some movsx_alu_offset_enumerated;
    }
    ∷ record (reserved (code (alu w32 arsh from_imm))) {
      destination_lower_bound = 0;
      destination_upper_bound = 9;
      immediate_lower_bound = int32_min;
      immediate_upper_bound = int32_max;
    }
    ∷ record (reserved (code (alu w32 arsh from_reg))) {
      destination_lower_bound = 0;
      destination_upper_bound = 9;
      source_lower_bound = 0;
      source_upper_bound = 10;
    }
    ∷ record (reserved (code le)) {
      destination_lower_bound = 0;
      destination_upper_bound = 9;
      immediate_lower_bound = pos 0;
      immediate_upper_bound = pos 64;
    }
    ∷ record (reserved (code be)) {
      destination_lower_bound = 0;
      destination_upper_bound = 9;
      immediate_lower_bound = pos 0;
      immediate_upper_bound = pos 64;
    }
    ∷ record (reserved (code bswap)) {
      destination_lower_bound = 0;
      destination_upper_bound = 9;
      immediate_lower_bound = pos 0;
      immediate_upper_bound = pos 64;
    }
    ∷ []
