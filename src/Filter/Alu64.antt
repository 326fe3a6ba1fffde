-- ===== src/Filter/Alu64.antt =====
-- vm/ubpf_instruction_valid.c: the entries of `_ubpf_instruction_filter` for the 64-bit arithmetic.
use ubpf.Prelude.{List, [], ◌∷◌, some}
use ubpf.Prelude.Int.{pos}
use ubpf.Inst.{
  alu, neg, w64, from_imm, from_reg, add, sub, mul, div, or, and, lsh, rsh, modulo, xor, mov, arsh,
  code,
}
use ubpf.Filter.Defs.{InstFilter, reserved, int32_min, int32_max, movsx_alu64_offset_enumerated}

unfoldable pub alu64_arithmetic : List InstFilter
unfolding code reserved
alu64_arithmetic =
    record (reserved (code (alu w64 add from_imm))) {
      destination_lower_bound = 0;
      destination_upper_bound = 9;
      immediate_lower_bound = int32_min;
      immediate_upper_bound = int32_max;
    }
    ∷ record (reserved (code (alu w64 add from_reg))) {
      destination_lower_bound = 0;
      destination_upper_bound = 9;
      source_lower_bound = 0;
      source_upper_bound = 10;
    }
    ∷ record (reserved (code (alu w64 sub from_imm))) {
      destination_lower_bound = 0;
      destination_upper_bound = 9;
      immediate_lower_bound = int32_min;
      immediate_upper_bound = int32_max;
    }
    ∷ record (reserved (code (alu w64 sub from_reg))) {
      destination_lower_bound = 0;
      destination_upper_bound = 9;
      source_lower_bound = 0;
      source_upper_bound = 10;
    }
    ∷ record (reserved (code (alu w64 mul from_imm))) {
      destination_lower_bound = 0;
      destination_upper_bound = 9;
      immediate_lower_bound = int32_min;
      immediate_upper_bound = int32_max;
    }
    ∷ record (reserved (code (alu w64 mul from_reg))) {
      destination_lower_bound = 0;
      destination_upper_bound = 9;
      source_lower_bound = 0;
      source_upper_bound = 10;
    }
    ∷ record (reserved (code (alu w64 div from_imm))) {
      destination_lower_bound = 0;
      destination_upper_bound = 9;
      offset_upper_bound = pos 1;
      immediate_lower_bound = int32_min;
      immediate_upper_bound = int32_max;
    }
    ∷ record (reserved (code (alu w64 div from_reg))) {
      destination_lower_bound = 0;
      destination_upper_bound = 9;
      source_lower_bound = 0;
      source_upper_bound = 10;
      offset_upper_bound = pos 1;
    }
    ∷ record (reserved (code (alu w64 or from_imm))) {
      destination_lower_bound = 0;
      destination_upper_bound = 9;
      immediate_lower_bound = int32_min;
      immediate_upper_bound = int32_max;
    }
    ∷ record (reserved (code (alu w64 or from_reg))) {
      destination_lower_bound = 0;
      destination_upper_bound = 9;
      source_lower_bound = 0;
      source_upper_bound = 10;
    }
    ∷ record (reserved (code (alu w64 and from_imm))) {
      destination_lower_bound = 0;
      destination_upper_bound = 9;
      immediate_lower_bound = int32_min;
      immediate_upper_bound = int32_max;
    }
    ∷ record (reserved (code (alu w64 and from_reg))) {
      destination_lower_bound = 0;
      destination_upper_bound = 9;
      source_lower_bound = 0;
      source_upper_bound = 10;
    }
    ∷ []

unfoldable pub alu64_shifts : List InstFilter
unfolding code reserved
alu64_shifts =
    record (reserved (code (alu w64 lsh from_imm))) {
      destination_lower_bound = 0;
      destination_upper_bound = 9;
      immediate_lower_bound = int32_min;
      immediate_upper_bound = int32_max;
    }
    ∷ record (reserved (code (alu w64 lsh from_reg))) {
      destination_lower_bound = 0;
      destination_upper_bound = 9;
      source_lower_bound = 0;
      source_upper_bound = 10;
    }
    ∷ record (reserved (code (alu w64 rsh from_imm))) {
      destination_lower_bound = 0;
      destination_upper_bound = 9;
      immediate_lower_bound = int32_min;
      immediate_upper_bound = int32_max;
    }
    ∷ record (reserved (code (alu w64 rsh from_reg))) {
      destination_lower_bound = 0;
      destination_upper_bound = 9;
      source_lower_bound = 0;
      source_upper_bound = 10;
    }
    ∷ record (reserved (code (neg w64))) {
      destination_lower_bound = 0;
      destination_upper_bound = 9;
    }
    ∷ record (reserved (code (alu w64 modulo from_imm))) {
      destination_lower_bound = 0;
      destination_upper_bound = 9;
      offset_upper_bound = pos 1;
      immediate_lower_bound = int32_min;
      immediate_upper_bound = int32_max;
    }
    ∷ record (reserved (code (alu w64 modulo from_reg))) {
      destination_lower_bound = 0;
      destination_upper_bound = 9;
      source_lower_bound = 0;
      source_upper_bound = 10;
      offset_upper_bound = pos 1;
    }
    ∷ record (reserved (code (alu w64 xor from_imm))) {
      destination_lower_bound = 0;
      destination_upper_bound = 9;
      immediate_lower_bound = int32_min;
      immediate_upper_bound = int32_max;
    }
    ∷ record (reserved (code (alu w64 xor from_reg))) {
      destination_lower_bound = 0;
      destination_upper_bound = 9;
      source_lower_bound = 0;
      source_upper_bound = 10;
    }
    ∷ record (reserved (code (alu w64 mov from_imm))) {
      destination_lower_bound = 0;
      destination_upper_bound = 9;
      immediate_lower_bound = int32_min;
      immediate_upper_bound = int32_max;
    }
    ∷ record (reserved (code (alu w64 mov from_reg))) {
      destination_lower_bound = 0;
      destination_upper_bound = 9;
      source_lower_bound = 0;
      source_upper_bound = 10;
      offset_enumerated = some movsx_alu64_offset_enumerated;
    }
    ∷ record (reserved (code (alu w64 arsh from_imm))) {
      destination_lower_bound = 0;
      destination_upper_bound = 9;
      immediate_lower_bound = int32_min;
      immediate_upper_bound = int32_max;
    }
    ∷ record (reserved (code (alu w64 arsh from_reg))) {
      destination_lower_bound = 0;
      destination_upper_bound = 9;
      source_lower_bound = 0;
      source_upper_bound = 10;
    }
    ∷ []
