-- ===== src/Safe/Guard/Transfer.antt =====
-- vm/ubpf_safe.c: loads, stores and atomic operations of the safe profile keep every pointer
-- granted and the memory safe, and never fault where the target defines unaligned atomics.
use ubpf.Prelude.{ℕ, ◌≡◌, Bool, true, Option, none, some, inl, inr, if_both, ◌&&◌, ◌==◌}
use ubpf.Inst.{Inst, Width}
use ubpf.Memory.{Memory}
use ubpf.Vm.{Vm}
use ubpf.Interp.{Regions}
use ubpf.Interp.Access.{fetches, width_bytes}
use ubpf.Safety.Effects.{
  Reads, put-Ends, shadow_load-Inv, shadow_store-Inv, leave-Ends, atomic_access-Ends,
}
use ubpf.Safe.{Tag, scalar_tag, can_read, can_write, can_write_atomic, SafeState, set_tag}
use ubpf.Safe.Access.{Access-cases, compute_access, is_stack_pointer}
use ubpf.Safe.Access.Exact.{compute_access-Permits}
use ubpf.Safe.Spill.{is_slot, slot_of}
use ubpf.Safe.Transfer.{
  reload, after_load, safe_load, spilled, spill, after_store, safe_store, after_atomic, safe_atomic,
}
use ubpf.Safe.Guard.{Reachable, Writable, SlotGranted, SafeInv, SafeEnds, goes_on, fails}
use ubpf.Safe.Guard.Tags.{
  atomic-CanWrite, number-Granted, Permits-Reachable, Permits-Writable, invalidate_spills-Granted,
  SafeInv-set_core, SafeInv-set_tag, SafeInv-set_spills, under_tags-Ends, SafeEnds-bind,
}
use ubpf.Safety.Invariant.{update_all}

module _ (vm : Vm) (r : Regions) (start : Memory) (n : ℕ) where
  abbrev Good : SafeState → Type 0
  Good = SafeInv vm r start n

  reload-Inv : (i : Inst) (a : ℕ) (s : SafeState) → Good s → Good (reload r i a s)
  unfolding reload
  reload-Inv i a s inv =
      if_both Good (is_stack_pointer r (s.tags i.src) && is_slot r a)
        (slot_loaded (s.spills (slot_of r a)) (inv.slots_granted (slot_of r a))) inv
    where
      slot_loaded :
          (o : Option Tag)
          → SlotGranted vm r o
          → Good (elim o [ none ↦ s | some tag ↦ set_tag s i.dst tag ])
      slot_loaded none h = inv
      slot_loaded (some tag) h = SafeInv-set_tag inv i.dst tag h

  after_load-Ends :
      (i : Inst) (whole : Bool) (a : ℕ) (s : SafeState)
      → Good s
      → SafeEnds Good (after_load r i whole a s)
  unfolding after_load
  after_load-Ends i whole a s inv =
      let done = SafeInv-set_tag inv i.dst scalar_tag (number-Granted vm r) in
      goes_on (if_both Good whole (reload-Inv i a _ done) done)

  pub safe_load-Ends :
      (i : Inst) (size : ℕ) (whole : Bool) (read : Memory → ℕ → Option ℕ) (s : SafeState)
      → Reads (Reachable vm r) (Writable vm r) start size read
      → Good s
      → SafeEnds Good (safe_load vm r i size whole read s)
  unfolding safe_load
  safe_load-Ends i size whole read s reads inv =
      let tag = s.tags i.src in
      elim (Access-cases (compute_access tag (s.core.reg i.src) i.offset size can_read)) [
        | inr (x, e) ↦ rw (e, safe_load) (fails inv)
        | inl (a, e) ↦
            let known =
              Permits-Reachable vm r tag _ i.offset size can_read a (inv.tags_granted i.src)
                (compute_access-Permits tag _ i.offset size can_read a e) in
            rw (e, safe_load)
              (SafeEnds-bind
                (under_tags-Ends inv (
                  put-Ends i.dst _ _ (shadow_load-Inv vm r i.dst size a s.core inv.core_inv)
                    (reads _ a inv.core_inv.kept known)))
                (after_load-Ends i whole a))
      ]

  spilled-Granted :
      (i : Inst) (keeps : Bool) (a : ℕ) (s : SafeState) (cleared : ℕ → Option Tag)
      → Good s
      → ((k : ℕ) → SlotGranted vm r (cleared k))
      → (k : ℕ) → SlotGranted vm r (spilled r i keeps a s cleared k)
  unfolding spilled
  spilled-Granted i keeps a s cleared inv h =
      if_both (λ (f : ℕ → Option Tag). (k : ℕ) → SlotGranted vm r (f k)) (keeps && is_slot r a)
        (update_all (SlotGranted vm r) cleared (slot_of r a) (some (s.tags i.src)) h
          (inv.tags_granted i.src))
        h

  spill-Inv :
      (i : Inst) (size : ℕ) (preserve : Bool) (a : ℕ) (s : SafeState)
      → Good s
      → Good (spill r i size preserve a s)
  unfolding spill
  spill-Inv i size preserve a s inv =
      if_both Good (is_stack_pointer r (s.tags i.dst))
        (SafeInv-set_spills inv _ (
          spilled-Granted i (preserve && size == 8) a s _ inv
            (invalidate_spills-Granted vm r s.spills a size inv.slots_granted)))
        inv

  after_store-Ends :
      (i : Inst) (size : ℕ) (preserve : Bool) (a : ℕ) (s : SafeState)
      → Good s
      → SafeEnds Good (after_store vm r i size preserve a s)
  unfolding after_store
  after_store-Ends i size preserve a s inv = goes_on (
      spill-Inv i size preserve a _
        (SafeInv-set_core inv _ (shadow_store-Inv vm r size a s.core inv.core_inv)))

  pub safe_store-Ends :
      (i : Inst) (size v : ℕ) (preserve : Bool) (s : SafeState)
      → Good s
      → SafeEnds Good (safe_store vm r i size v preserve s)
  unfolding safe_store
  safe_store-Ends i size v preserve s inv =
      let tag = s.tags i.dst in
      elim (Access-cases (compute_access tag (s.core.reg i.dst) i.offset size can_write)) [
        | inr (x, e) ↦ rw (e, safe_store) (fails inv)
        | inl (a, e) ↦
            let p = compute_access-Permits tag _ i.offset size can_write a e in
            let mine = inv.tags_granted i.dst in
            rw (e, safe_store)
              (SafeEnds-bind
                (under_tags-Ends inv (
                  leave-Ends size a v s.core
                    (Permits-Reachable vm r tag _ i.offset size can_write a mine p)
                    (Permits-Writable vm r tag _ i.offset size can_write a mine p p.permits)
                    inv.core_inv))
                (after_store-Ends i size preserve a))
      ]

  after_atomic-Ends :
      (w : Width) (i : Inst) (s : SafeState) → Good s → SafeEnds Good (after_atomic w i s)
  unfolding after_atomic
  after_atomic-Ends w i s inv =
      goes_on (
        if_both Good (fetches w i.imm) (SafeInv-set_tag inv _ scalar_tag (number-Granted vm r)) inv)

  pub safe_atomic-Ends :
      (i : Inst) (w : Width) (s : SafeState)
      → r.target.unaligned_atomics ≡ true
      → Good s
      → SafeEnds Good (safe_atomic r i w s)
  unfolding safe_atomic
  safe_atomic-Ends i w s defined inv =
      let tag = s.tags i.dst in
      let size = width_bytes w in
      elim (Access-cases (compute_access tag (s.core.reg i.dst) i.offset size can_write_atomic)) [
        | inr (x, e) ↦ rw (e, safe_atomic) (fails inv)
        | inl (a, e) ↦
            let p = compute_access-Permits tag _ i.offset size can_write_atomic a e in
            let mine = inv.tags_granted i.dst in
            let cleared =
              SafeInv-set_spills inv _
                (invalidate_spills-Granted vm r s.spills a size inv.slots_granted) in
            rw (e, safe_atomic)
              (SafeEnds-bind
                (under_tags-Ends cleared (
                  atomic_access-Ends r i w a s.core defined
                    (Permits-Reachable vm r tag _ i.offset size can_write_atomic a mine p)
                    (Permits-Writable vm r tag _ i.offset size can_write_atomic a mine p
                      (atomic-CanWrite tag.permissions p.permits))
                    inv.core_inv))
                (after_atomic-Ends w i))
      ]
