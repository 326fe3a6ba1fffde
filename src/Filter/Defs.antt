-- ===== src/Filter/Defs.antt =====
-- vm/ubpf_instruction_valid.c: `ubpf_inst_filter_t` and the enumerated values of its entries.
use Prim.Native.Nat.{bit_or}
use ubpf.Prelude.{ℕ, List, [], ◌∷◌, Option, none}
use ubpf.Prelude.Int.{ℤ, pos, negsuc}

abbrev pub int32_min : ℤ
int32_min = negsuc 0x7fff_ffff

abbrev pub int32_max : ℤ
int32_max = pos 0x7fff_ffff

abbrev pub int16_min : ℤ
int16_min = negsuc 0x7fff

abbrev pub int16_max : ℤ
int16_max = pos 0x7fff

-- A pointer to an enumeration and its length are one list, `none` for NULL.
pub record InstFilter : Type 0 where
  pub opcode : ℕ
  pub source_lower_bound : ℕ
  pub source_upper_bound : ℕ
  pub destination_lower_bound : ℕ
  pub destination_upper_bound : ℕ
  pub offset_lower_bound : ℤ
  pub offset_upper_bound : ℤ
  pub immediate_lower_bound : ℤ
  pub immediate_upper_bound : ℤ
  pub immediate_enumerated : Option (List ℤ)
  pub offset_enumerated : Option (List ℤ)

-- An entry with every other field left out, hence zero: a reserved field.
unfoldable pub reserved : ℕ → InstFilter
reserved n = record {
  opcode = n;
  source_lower_bound = 0;
  source_upper_bound = 0;
  destination_lower_bound = 0;
  destination_upper_bound = 0;
  offset_lower_bound = pos 0;
  offset_upper_bound = pos 0;
  immediate_lower_bound = pos 0;
  immediate_upper_bound = pos 0;
  immediate_enumerated = none;
  offset_enumerated = none;
}

abbrev fetch_bit : ℕ
fetch_bit = 0x01

abbrev xchg : ℕ
xchg = bit_or 0xe0 fetch_bit

abbrev cmpxchg : ℕ
cmpxchg = bit_or 0xf0 fetch_bit

abbrev pub atomic_store_immediate_enumerated : List ℤ
atomic_store_immediate_enumerated =
    pos 0x00
    ∷ pos (bit_or 0x00 fetch_bit)
    ∷ pos 0x40
    ∷ pos (bit_or 0x40 fetch_bit)
    ∷ pos 0x50
    ∷ pos (bit_or 0x50 fetch_bit)
    ∷ pos 0xa0
    ∷ pos (bit_or 0xa0 fetch_bit)
    ∷ pos (bit_or xchg fetch_bit)
    ∷ pos (bit_or cmpxchg fetch_bit)
    ∷ []

abbrev pub movsx_alu_offset_enumerated : List ℤ
movsx_alu_offset_enumerated = pos 0 ∷ pos 8 ∷ pos 16 ∷ []

abbrev pub movsx_alu64_offset_enumerated : List ℤ
movsx_alu64_offset_enumerated = pos 0 ∷ pos 8 ∷ pos 16 ∷ pos 32 ∷ []
