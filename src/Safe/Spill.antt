-- ===== src/Safe/Spill.antt =====
-- vm/ubpf_safe.c: the slots of the stack that hold a tag.
use ubpf.Prelude.{
  ℕ, zero, suc, ◌+◌, ◌-◌, ◌/◌, ◌%◌, Bool, ◌||◌, Option, none, ltb, ◌==◌, if◌then◌else◌,
}
use ubpf.Word.{u64}
use ubpf.Interp.{Regions, update}
use ubpf.Safe.{Tag}

-- The loop over the slots of one access.
unfoldable pub clear_slots : ℕ → (ℕ → Option Tag) → ℕ → ℕ → Option Tag
clear_slots zero slots slot = slots
clear_slots (suc left) slots slot = clear_slots left (update slots slot none) (slot + 1)

-- `ubpf_safe_invalidate_stack_spill_tags`, for the sizes of at least 1 that its callers pass.
unfoldable pub invalidate_spills : Regions → (ℕ → Option Tag) → ℕ → ℕ → ℕ → Option Tag
unfolding clear_slots
invalidate_spills r slots a size =
    let access_end = u64 (a + size) in
    let stack_end = u64 (r.stack_start + r.stack_length) in
    if ltb a r.stack_start || ltb access_end a || ltb stack_end access_end
    then slots
    else let first = (a - r.stack_start) / 8 in
      let last = (access_end - 1 - r.stack_start) / 8 in clear_slots (last + 1 - first) slots first

-- The slot of an address, if it is aligned.
abbrev pub is_slot : Regions → ℕ → Bool
is_slot r a = (a - r.stack_start) % 8 == 0

abbrev pub slot_of : Regions → ℕ → ℕ
slot_of r a = (a - r.stack_start) / 8
