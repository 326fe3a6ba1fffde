-- ===== src/Filter/Jump32.antt =====
-- vm/ubpf_instruction_valid.c: the entries of `_ubpf_instruction_filter` for the 32-bit jumps.
use ubpf.Prelude.{List, [], ◌∷◌}
use ubpf.Inst.{
  jump, ja32, w32, from_imm, from_reg, jeq, jgt, jge, jset, jne, jsgt, jsge, jlt, jle, jslt, jsle,
  code,
}
use ubpf.Filter.Defs.{InstFilter, reserved, int32_min, int32_max, int16_min, int16_max}

unfoldable pub jumps32_unsigned : List InstFilter
unfolding code reserved
jumps32_unsigned =
    record (reserved (code ja32)) {
      immediate_lower_bound = int32_min;
      immediate_upper_bound = int32_max;
    }
    ∷ record (reserved (code (jump w32 jeq from_imm))) {
      destination_lower_bound = 0;
      destination_upper_bound = 10;
      immediate_lower_bound = int32_min;
      immediate_upper_bound = int32_max;
      offset_lower_bound = int16_min;
      offset_upper_bound = int16_max;
    }
    ∷ record (reserved (code (jump w32 jeq from_reg))) {
      destination_lower_bound = 0;
      destination_upper_bound = 10;
      source_lower_bound = 0;
      source_upper_bound = 10;
      offset_lower_bound = int16_min;
      offset_upper_bound = int16_max;
    }
    ∷ record (reserved (code (jump w32 jgt from_imm))) {
      destination_lower_bound = 0;
      destination_upper_bound = 10;
      immediate_lower_bound = int32_min;
      immediate_upper_bound = int32_max;
      offset_lower_bound = int16_min;
      offset_upper_bound = int16_max;
    }
    ∷ record (reserved (code (jump w32 jgt from_reg))) {
      destination_lower_bound = 0;
      destination_upper_bound = 10;
      source_lower_bound = 0;
      source_upper_bound = 10;
      offset_lower_bound = int16_min;
      offset_upper_bound = int16_max;
    }
    ∷ record (reserved (code (jump w32 jge from_imm))) {
      destination_lower_bound = 0;
      destination_upper_bound = 10;
      immediate_lower_bound = int32_min;
      immediate_upper_bound = int32_max;
      offset_lower_bound = int16_min;
      offset_upper_bound = int16_max;
    }
    ∷ record (reserved (code (jump w32 jge from_reg))) {
      destination_lower_bound = 0;
      destination_upper_bound = 10;
      source_lower_bound = 0;
      source_upper_bound = 10;
      offset_lower_bound = int16_min;
      offset_upper_bound = int16_max;
    }
    ∷ record (reserved (code (jump w32 jset from_reg))) {
      destination_lower_bound = 0;
      destination_upper_bound = 10;
      source_lower_bound = 0;
      source_upper_bound = 10;
      offset_lower_bound = int16_min;
      offset_upper_bound = int16_max;
    }
    ∷ record (reserved (code (jump w32 jset from_imm))) {
      destination_lower_bound = 0;
      destination_upper_bound = 10;
      immediate_lower_bound = int32_min;
      immediate_upper_bound = int32_max;
      offset_lower_bound = int16_min;
      offset_upper_bound = int16_max;
    }
    ∷ record (reserved (code (jump w32 jne from_imm))) {
      destination_lower_bound = 0;
      destination_upper_bound = 10;
      immediate_lower_bound = int32_min;
      immediate_upper_bound = int32_max;
      offset_lower_bound = int16_min;
      offset_upper_bound = int16_max;
    }
    ∷ record (reserved (code (jump w32 jne from_reg))) {
      destination_lower_bound = 0;
      destination_upper_bound = 10;
      source_lower_bound = 0;
      source_upper_bound = 10;
      offset_lower_bound = int16_min;
      offset_upper_bound = int16_max;
    }
    ∷ []

unfoldable pub jumps32_signed : List InstFilter
unfolding code reserved
jumps32_signed =
    record (reserved (code (jump w32 jsgt from_imm))) {
      destination_lower_bound = 0;
      destination_upper_bound = 10;
      immediate_lower_bound = int32_min;
      immediate_upper_bound = int32_max;
      offset_lower_bound = int16_min;
      offset_upper_bound = int16_max;
    }
    ∷ record (reserved (code (jump w32 jsgt from_reg))) {
      destination_lower_bound = 0;
      destination_upper_bound = 10;
      source_lower_bound = 0;
      source_upper_bound = 10;
      offset_lower_bound = int16_min;
      offset_upper_bound = int16_max;
    }
    ∷ record (reserved (code (jump w32 jsge from_imm))) {
      destination_lower_bound = 0;
      destination_upper_bound = 10;
      immediate_lower_bound = int32_min;
      immediate_upper_bound = int32_max;
      offset_lower_bound = int16_min;
      offset_upper_bound = int16_max;
    }
    ∷ record (reserved (code (jump w32 jsge from_reg))) {
      destination_lower_bound = 0;
      destination_upper_bound = 10;
      source_lower_bound = 0;
      source_upper_bound = 10;
      offset_lower_bound = int16_min;
      offset_upper_bound = int16_max;
    }
    ∷ record (reserved (code (jump w32 jlt from_imm))) {
      destination_lower_bound = 0;
      destination_upper_bound = 10;
      immediate_lower_bound = int32_min;
      immediate_upper_bound = int32_max;
      offset_lower_bound = int16_min;
      offset_upper_bound = int16_max;
    }
    ∷ record (reserved (code (jump w32 jlt from_reg))) {
      destination_lower_bound = 0;
      destination_upper_bound = 10;
      source_lower_bound = 0;
      source_upper_bound = 10;
      offset_lower_bound = int16_min;
      offset_upper_bound = int16_max;
    }
    ∷ record (reserved (code (jump w32 jle from_imm))) {
      destination_lower_bound = 0;
      destination_upper_bound = 10;
      immediate_lower_bound = int32_min;
      immediate_upper_bound = int32_max;
      offset_lower_bound = int16_min;
      offset_upper_bound = int16_max;
    }
    ∷ record (reserved (code (jump w32 jle from_reg))) {
      destination_lower_bound = 0;
      destination_upper_bound = 10;
      source_lower_bound = 0;
      source_upper_bound = 10;
      offset_lower_bound = int16_min;
      offset_upper_bound = int16_max;
    }
    ∷ record (reserved (code (jump w32 jslt from_imm))) {
      destination_lower_bound = 0;
      destination_upper_bound = 10;
      immediate_lower_bound = int32_min;
      immediate_upper_bound = int32_max;
      offset_lower_bound = int16_min;
      offset_upper_bound = int16_max;
    }
    ∷ record (reserved (code (jump w32 jslt from_reg))) {
      destination_lower_bound = 0;
      destination_upper_bound = 10;
      source_lower_bound = 0;
      source_upper_bound = 10;
      offset_lower_bound = int16_min;
      offset_upper_bound = int16_max;
    }
    ∷ record (reserved (code (jump w32 jsle from_imm))) {
      destination_lower_bound = 0;
      destination_upper_bound = 10;
      immediate_lower_bound = int32_min;
      immediate_upper_bound = int32_max;
      offset_lower_bound = int16_min;
      offset_upper_bound = int16_max;
    }
    ∷ record (reserved (code (jump w32 jsle from_reg))) {
      destination_lower_bound = 0;
      destination_upper_bound = 10;
      source_lower_bound = 0;
      source_upper_bound = 10;
      offset_lower_bound = int16_min;
      offset_upper_bound = int16_max;
    }
    ∷ []
