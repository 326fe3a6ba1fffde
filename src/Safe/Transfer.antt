-- ===== src/Safe/Transfer.antt =====
-- vm/ubpf_safe.c, `ubpf_exec_ex_safe`: SAFE_LOAD, SAFE_STORE and the atomic operations.
pub mod Refused
pub mod RoundTrip
use ubpf.Prelude.{ℕ, Bool, ◌&&◌, Option, none, some, ◌==◌, if◌then◌else◌}
use ubpf.Inst.{Inst, Width}
use ubpf.Memory.{Memory, mem_store}
use ubpf.Vm.{Vm}
use ubpf.Interp.{Regions, update}
use ubpf.Interp.Access.{
  shadow_load, shadow_store, put, leave, width_bytes, fetches, fetch_index, atomic_access,
}
use ubpf.Safe.{
  Tag, scalar_tag, can_read, can_write, can_write_atomic, SafeState, SafeOutcome, running, failed,
  refused, under_tags, set_tag, ◌>>=◌,
}
use ubpf.Safe.Access.{granted, denied, compute_access, is_stack_pointer}
use ubpf.Safe.Spill.{invalidate_spills, is_slot, slot_of}

-- The destination gets the tag in the slot. The tags are those after the load, so a load into the
-- register that it reads through finds no pointer there.
unfoldable pub reload : Regions → Inst → ℕ → SafeState → SafeState
reload r i a s =
    if is_stack_pointer r (s.tags i.src) && is_slot r a
    then elim (s.spills (slot_of r a)) [ none ↦ s | some tag ↦ set_tag s i.dst tag ]
    else s

-- What follows the access of SAFE_LOAD; `whole` is true of a load of 8 bytes.
unfoldable pub after_load : Regions → Inst → Bool → ℕ → SafeState → SafeOutcome
unfolding reload
after_load r i whole a s =
    let t = set_tag s i.dst scalar_tag in running (if whole then reload r i a t else t)

-- SAFE_LOAD, with `read` the load of the case.
unfoldable pub safe_load :
    Vm → Regions → Inst → ℕ → Bool → (Memory → ℕ → Option ℕ) → SafeState → SafeOutcome
unfolding shadow_load put after_load
safe_load vm r i size whole read s =
    elim (compute_access (s.tags i.src) (s.core.reg i.src) i.offset size can_read) [
      | denied e ↦ failed (refused e) s
      | granted a ↦
          under_tags s (put i.dst (shadow_load vm r i.dst size a s.core) (read s.core.memory a))
          >>= after_load r i whole a
    ]

-- A store into the stack drops the tags that it overwrites; one of 8 bytes keeps its own.
unfoldable pub spilled : Regions → Inst → Bool → ℕ → SafeState → (ℕ → Option Tag) → ℕ → Option Tag
spilled r i keeps a s cleared =
    if keeps && is_slot r a then update cleared (slot_of r a) (some (s.tags i.src)) else cleared

unfoldable pub spill : Regions → Inst → ℕ → Bool → ℕ → SafeState → SafeState
unfolding invalidate_spills spilled
spill r i size preserve a s =
    if is_stack_pointer r (s.tags i.dst)
    then record s {
      spills = spilled r i (preserve && size == 8) a s (invalidate_spills r s.spills a size);
    }
    else s

unfoldable pub after_store : Vm → Regions → Inst → ℕ → Bool → ℕ → SafeState → SafeOutcome
unfolding spill shadow_store
after_store vm r i size preserve a s =
    running (spill r i size preserve a (record s { core = shadow_store vm r size a s.core }))

-- SAFE_STORE.
unfoldable pub safe_store : Vm → Regions → Inst → ℕ → ℕ → Bool → SafeState → SafeOutcome
unfolding leave after_store
safe_store vm r i size v preserve s =
    elim (compute_access (s.tags i.dst) (s.core.reg i.dst) i.offset size can_write) [
      | denied e ↦ failed (refused e) s
      | granted a ↦
          under_tags s (leave s.core (mem_store size s.core.memory a v))
          >>= after_store vm r i size preserve a
    ]

unfoldable pub after_atomic : Width → Inst → SafeState → SafeOutcome
after_atomic w i s = running (if fetches w i.imm then set_tag s (fetch_index i) scalar_tag else s)

-- EBPF_OP_ATOMIC_STORE and EBPF_OP_ATOMIC32_STORE. The stack's bytes are not marked as written.
unfoldable pub safe_atomic : Regions → Inst → Width → SafeState → SafeOutcome
unfolding invalidate_spills atomic_access after_atomic
safe_atomic r i w s =
    elim (compute_access (s.tags i.dst) (s.core.reg i.dst) i.offset (width_bytes w)
      can_write_atomic) [
        | denied e ↦ failed (refused e) s
        | granted a ↦
            let t = record s { spills = invalidate_spills r s.spills a (width_bytes w) } in
            under_tags t (atomic_access r w i a t.core) >>= after_atomic w i
      ]
