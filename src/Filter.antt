-- ===== src/Filter.antt =====
-- vm/ubpf_instruction_valid.c: the table of valid instructions and `ubpf_is_valid_instruction`.
-- The C table is filled on the first call, entry by entry: `lookup_table` is that loop.
pub mod Defs
pub mod Coverage
mod Alu32
mod Alu64
mod Memory
mod Jump64
mod Jump32
use ubpf.Prelude.{
  ℕ, Bool, true, false, ◌&&◌, ◌||◌, Option, none, some, List, [], ◌∷◌, ◌++◌, ◌==◌, if◌then◌else◌,
}
use mathlib.Core.Bool.{not}
use ubpf.Prelude.Int.{ℤ, pos, pos_part, neg_part, ltb_ℤ}
use ubpf.Inst.{Inst}
use Defs.{InstFilter}
use Alu32.{alu32_arithmetic, alu32_shifts}
use Alu64.{alu64_arithmetic, alu64_shifts}
use Memory.{loads, stores, atomics}
use Jump64.{jumps_unsigned, jumps_signed}
use Jump32.{jumps32_unsigned, jumps32_signed}

-- `_ubpf_instruction_filter`, in the order of the source.
unfoldable pub instruction_filter : List InstFilter
unfolding alu32_arithmetic alu32_shifts alu64_arithmetic alu64_shifts loads stores atomics
    jumps_unsigned jumps_signed jumps32_unsigned jumps32_signed
instruction_filter =
    alu32_arithmetic ++ alu32_shifts ++ alu64_arithmetic ++ alu64_shifts ++ loads ++ stores
    ++ jumps_unsigned ++ jumps_signed ++ jumps32_unsigned ++ jumps32_signed ++ atomics

-- `_ubpf_filter_instruction_lookup_table[n]` after the loop over the entries: a later entry
-- overwrites an earlier one of the same opcode.
unfoldable pub lookup_from : List InstFilter → Option InstFilter → ℕ → Option InstFilter
lookup_from [] found n = found
lookup_from (f ∷ fs) found n = lookup_from fs (if f.opcode == n then some f else found) n

unfoldable pub lookup_table : ℕ → Option InstFilter
unfolding lookup_from instruction_filter
lookup_table n = lookup_from instruction_filter none n

abbrev pub eq_ℤ : ℤ → ℤ → Bool
eq_ℤ a b = pos_part a == pos_part b && neg_part a == neg_part b

unfoldable pub in_range : ℤ → ℤ → ℤ → Bool
in_range value lower upper = not (ltb_ℤ value lower) && not (ltb_ℤ upper value)

unfoldable pub contains : List ℤ → ℤ → Bool
contains [] v = false
contains (x ∷ xs) v = eq_ℤ x v || contains xs v

-- An enumeration, where there is one, else the range.
unfoldable pub valid_value : Option (List ℤ) → ℤ → ℤ → ℤ → Bool
unfolding contains in_range
valid_value (some values) lower upper v = contains values v
valid_value none lower upper v = in_range v lower upper

unfoldable pub passes : InstFilter → Inst → Bool
unfolding valid_value in_range
passes f i =
    in_range (pos i.dst) (pos f.destination_lower_bound) (pos f.destination_upper_bound)
    && in_range (pos i.src) (pos f.source_lower_bound) (pos f.source_upper_bound)
    && valid_value f.immediate_enumerated f.immediate_lower_bound f.immediate_upper_bound i.imm
    && valid_value f.offset_enumerated f.offset_lower_bound f.offset_upper_bound i.offset

-- `ubpf_is_valid_instruction`; the text of the message is left out.
unfoldable pub is_valid_instruction : Inst → Bool
unfolding lookup_table passes
is_valid_instruction i = elim (lookup_table i.opcode) [ none ↦ false | some f ↦ passes f i ]
