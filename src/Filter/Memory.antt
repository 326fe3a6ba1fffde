-- ===== src/Filter/Memory.antt =====
-- vm/ubpf_instruction_valid.c: the entries of `_ubpf_instruction_filter` for loads, stores and atomic operations.
use ubpf.Prelude.{List, [], ◌∷◌, some}
use ubpf.Prelude.Int.{pos}
use ubpf.Inst.{
  ldx, ldxbsx, ldxhsx, ldxwsx, st, stx, lddw, atomic, w32, w64, byte, half, word, double, code,
}
use ubpf.Filter.Defs.{
  InstFilter, reserved, int32_min, int32_max, int16_min, int16_max,
  atomic_store_immediate_enumerated,
}

unfoldable pub loads : List InstFilter
unfolding code reserved
loads =
    record (reserved (code (ldx word))) {
      destination_lower_bound = 0;
      destination_upper_bound = 10;
      source_lower_bound = 0;
      source_upper_bound = 10;
      offset_lower_bound = int16_min;
      offset_upper_bound = int16_max;
    }
    ∷ record (reserved (code (ldx half))) {
      destination_lower_bound = 0;
      destination_upper_bound = 10;
      source_lower_bound = 0;
      source_upper_bound = 10;
      offset_lower_bound = int16_min;
      offset_upper_bound = int16_max;
    }
    ∷ record (reserved (code (ldx byte))) {
      destination_lower_bound = 0;
      destination_upper_bound = 10;
      source_lower_bound = 0;
      source_upper_bound = 10;
      offset_lower_bound = int16_min;
      offset_upper_bound = int16_max;
    }
    ∷ record (reserved (code (ldx double))) {
      destination_lower_bound = 0;
      destination_upper_bound = 10;
      source_lower_bound = 0;
      source_upper_bound = 10;
      offset_lower_bound = int16_min;
      offset_upper_bound = int16_max;
    }
    ∷ record (reserved (code ldxwsx)) {
      destination_lower_bound = 0;
      destination_upper_bound = 10;
      source_lower_bound = 0;
      source_upper_bound = 10;
      offset_lower_bound = int16_min;
      offset_upper_bound = int16_max;
    }
    ∷ record (reserved (code ldxhsx)) {
      destination_lower_bound = 0;
      destination_upper_bound = 10;
      source_lower_bound = 0;
      source_upper_bound = 10;
      offset_lower_bound = int16_min;
      offset_upper_bound = int16_max;
    }
    ∷ record (reserved (code ldxbsx)) {
      destination_lower_bound = 0;
      destination_upper_bound = 10;
      source_lower_bound = 0;
      source_upper_bound = 10;
      offset_lower_bound = int16_min;
      offset_upper_bound = int16_max;
    }
    ∷ []

unfoldable pub stores : List InstFilter
unfolding code reserved
stores =
    record (reserved (code (st word))) {
      destination_lower_bound = 0;
      destination_upper_bound = 10;
      offset_lower_bound = int16_min;
      offset_upper_bound = int16_max;
      immediate_lower_bound = int32_min;
      immediate_upper_bound = int32_max;
    }
    ∷ record (reserved (code (st half))) {
      destination_lower_bound = 0;
      destination_upper_bound = 10;
      offset_lower_bound = int16_min;
      offset_upper_bound = int16_max;
      immediate_lower_bound = int32_min;
      immediate_upper_bound = int32_max;
    }
    ∷ record (reserved (code (st byte))) {
      destination_lower_bound = 0;
      destination_upper_bound = 10;
      offset_lower_bound = int16_min;
      offset_upper_bound = int16_max;
      immediate_lower_bound = int32_min;
      immediate_upper_bound = int32_max;
    }
    ∷ record (reserved (code (st double))) {
      destination_lower_bound = 0;
      destination_upper_bound = 10;
      offset_lower_bound = int16_min;
      offset_upper_bound = int16_max;
      immediate_lower_bound = int32_min;
      immediate_upper_bound = int32_max;
    }
    ∷ record (reserved (code (stx word))) {
      destination_lower_bound = 0;
      destination_upper_bound = 10;
      source_lower_bound = 0;
      source_upper_bound = 10;
      offset_lower_bound = int16_min;
      offset_upper_bound = int16_max;
    }
    ∷ record (reserved (code (stx half))) {
      destination_lower_bound = 0;
      destination_upper_bound = 10;
      source_lower_bound = 0;
      source_upper_bound = 10;
      offset_lower_bound = int16_min;
      offset_upper_bound = int16_max;
    }
    ∷ record (reserved (code (stx byte))) {
      destination_lower_bound = 0;
      destination_upper_bound = 10;
      source_lower_bound = 0;
      source_upper_bound = 10;
      offset_lower_bound = int16_min;
      offset_upper_bound = int16_max;
    }
    ∷ record (reserved (code (stx double))) {
      destination_lower_bound = 0;
      destination_upper_bound = 10;
      source_lower_bound = 0;
      source_upper_bound = 10;
      offset_lower_bound = int16_min;
      offset_upper_bound = int16_max;
    }
    ∷ record (reserved (code lddw)) {
      destination_lower_bound = 0;
      destination_upper_bound = 10;
      source_lower_bound = 0;
      source_upper_bound = 6;
      immediate_lower_bound = int32_min;
      immediate_upper_bound = int32_max;
    }
    ∷ []

unfoldable pub atomics : List InstFilter
unfolding code reserved
atomics =
    record (reserved (code (atomic w32))) {
      destination_lower_bound = 0;
      destination_upper_bound = 10;
      source_lower_bound = 0;
      source_upper_bound = 10;
      immediate_lower_bound = pos 0x0;
      immediate_upper_bound = pos 0xff;
      offset_lower_bound = int16_min;
      offset_upper_bound = int16_max;
    }
    ∷ record (reserved (code (atomic w64))) {
      destination_lower_bound = 0;
      destination_upper_bound = 10;
      source_lower_bound = 0;
      source_upper_bound = 10;
      immediate_enumerated = some atomic_store_immediate_enumerated;
      offset_lower_bound = int16_min;
      offset_upper_bound = int16_max;
    }
    ∷ []
