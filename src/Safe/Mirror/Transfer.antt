-- ===== src/Safe/Mirror/Transfer.antt =====
-- vm/ubpf_safe.c: the loads, stores and atomic operations against those of vm/ubpf_vm.c.
use ubpf.Prelude.{
  ℕ, ◌≡◌, refl, ap, arith, Bool, true, false, Option, inl, inr, Option-cases, if_both, ◌&&◌,
}
use ubpf.Prelude.Int.{ℤ, pos, negsuc}
use ubpf.Inst.{Inst, Width}
use ubpf.Memory.{Memory}
use ubpf.Vm.{Vm}
use ubpf.Interp.{Regions, State, Outcome}
use ubpf.Interp.Bounds.{address, effective_address, bounds_check}
use ubpf.Interp.Shadow.{Mask, mark_shadow_stack, marks_past, reads_past}
use ubpf.Interp.Access.{
  shadow_load, shadow_store, put, load_at, exec_load, checked_store, store_value, exec_store,
  atomic_access, exec_atomic, fetches, width_bytes,
}
use ubpf.Safe.{Tag, scalar_tag, SafeState, set_tag}
use ubpf.Safe.Access.{
  Access-cases, granted, compute_access, with_offset, check_bounds, is_stack_pointer,
}
use ubpf.Safe.Spill.{is_slot, slot_of, invalidate_spills}
use ubpf.Safe.Transfer.{
  reload, after_load, safe_load, spill, after_store, safe_store, after_atomic, safe_atomic,
}
use ubpf.Safe.Mirror.{Mirrors, gives_up, Keeps, keeps, under_tags-Mirrors, after-Mirrors}

granted_address :
    (tag : Tag) (base : ℕ) (offset : ℤ) (size required a : ℕ)
    → compute_access tag base offset size required ≡ granted a
    → effective_address base offset ≡ address a
unfolding compute_access with_offset check_bounds effective_address
granted_address tag base (pos n) size required a h = ground arith
granted_address tag base (negsuc n) size required a h = ground arith

module _ (vm : Vm) (r : Regions) (unchecked : vm.bounds_check_enabled ≡ false)
    (unmarked : vm.undefined_behavior_check_enabled ≡ false) where
  passes : (a size : ℕ) → bounds_check vm r a size ≡ true
  unfolding bounds_check
  passes a size = rw (bounds_check, unchecked) refl

  not_marked : (a size : ℕ) (s : State) → shadow_store vm r size a s ≡ s
  unfolding shadow_store mark_shadow_stack
  not_marked a size s = simp unmarked refl

  not_past : (a size : ℕ) → marks_past vm r a size ≡ false
  unfolding marks_past
  not_past a size = simp unmarked refl

  not_read : (mask : Mask) (a size : ℕ) → reads_past vm r mask a size ≡ false
  unfolding reads_past marks_past
  not_read mask a size = simp unmarked refl

  reload_core : (i : Inst) (a : ℕ) (s : SafeState) → (reload r i a s).core ≡ s.core
  unfolding reload
  reload_core i a s =
      let Same = λ (t : SafeState). t.core ≡ s.core in
      let hit = is_stack_pointer r (s.tags i.src) && is_slot r a in
      elim (Option-cases (s.spills (slot_of r a))) [
        | inl e ↦ rw (e, reload) (if_both Same hit refl refl)
        | inr (tag, e) ↦ rw (e, reload) (if_both Same hit refl refl)
      ]

  after_load-Keeps :
      (i : Inst) (whole : Bool) (a : ℕ) (s : SafeState) → Keeps s.core (after_load r i whole a s)
  unfolding after_load
  after_load-Keeps i true a s =
      keeps {s = reload r i a (set_tag s i.dst scalar_tag)}
        (reload_core i a (set_tag s i.dst scalar_tag))
  after_load-Keeps i false a s = keeps refl

  shadow_load-memory : (d size a : ℕ) (c : State) → (shadow_load vm r d size a c).memory ≡ c.memory
  unfolding shadow_load
  shadow_load-memory d size a c = if_both (λ (t : State). t.memory ≡ c.memory) _ refl refl

  exec_load-granted :
      (i : Inst) (size : ℕ) (read : Memory → ℕ → Option ℕ) (c : State) (a : ℕ)
      → effective_address (c.reg i.src) i.offset ≡ address a
      → exec_load vm r i size read c ≡ put i.dst (shadow_load vm r i.dst size a c) (read c.memory a)
  unfolding exec_load load_at
  exec_load-granted i size read c a h =
      rw (h, exec_load, load_at, not_read c.shadow_stack a size, passes a size)
        (ap (λ m. put i.dst (shadow_load vm r i.dst size a c) (read m a))
          (shadow_load-memory i.dst size a c))

  pub safe_load-Mirrors :
      (i : Inst) (size : ℕ) (whole : Bool) (read : Memory → ℕ → Option ℕ) (s : SafeState)
      → Mirrors (safe_load vm r i size whole read s) (exec_load vm r i size read s.core)
  unfolding safe_load
  safe_load-Mirrors i size whole read s =
      elim (Access-cases (compute_access (s.tags i.src) (s.core.reg i.src) i.offset size 1)) [
        | inr (x, e) ↦ rw (e, safe_load) gives_up
        | inl (a, e) ↦
            rw
              (
                e,
                safe_load,
                exec_load-granted i size read s.core a (granted_address _ _ i.offset size 1 a e),
              )
              (after-Mirrors (after_load r i whole a) (under_tags-Mirrors s _)
                (after_load-Keeps i whole a))
      ]

  checked_store-granted :
      (i : Inst) (size : ℕ) (act : ℕ → State → Outcome) (c : State) (a : ℕ)
      → effective_address (c.reg i.dst) i.offset ≡ address a
      → checked_store vm r i size act c ≡ act a c
  unfolding checked_store
  checked_store-granted i size act c a h =
      rw (h, checked_store, passes a size, not_past a size) (ap (act a) (not_marked a size c))

  after_store-Keeps :
      (i : Inst) (size : ℕ) (preserve : Bool) (a : ℕ) (s : SafeState)
      → Keeps s.core (after_store vm r i size preserve a s)
  unfolding after_store spill
  after_store-Keeps i size preserve a s = keeps (
      if_both (λ (t : SafeState). t.core ≡ s.core) (is_stack_pointer r (s.tags i.dst))
        (not_marked a size s.core) (not_marked a size s.core))

  pub safe_store-Mirrors :
      (i : Inst) (size v : ℕ) (preserve : Bool) (s : SafeState)
      → Mirrors (safe_store vm r i size v preserve s) (exec_store vm r i size v s.core)
  unfolding safe_store exec_store store_value
  safe_store-Mirrors i size v preserve s =
      elim (Access-cases (compute_access (s.tags i.dst) (s.core.reg i.dst) i.offset size 2)) [
        | inr (x, e) ↦ rw (e, safe_store) gives_up
        | inl (a, e) ↦
            rw
              (
                e,
                safe_store,
                exec_store,
                checked_store-granted i size (store_value size v) s.core a
                    (granted_address _ _ i.offset size 2 a e),
              )
              (after-Mirrors (after_store vm r i size preserve a) (under_tags-Mirrors s _)
                (after_store-Keeps i size preserve a))
      ]

  after_atomic-Keeps : (w : Width) (i : Inst) (s : SafeState) → Keeps s.core (after_atomic w i s)
  unfolding after_atomic
  after_atomic-Keeps w i s =
      keeps (if_both (λ (t : SafeState). t.core ≡ s.core) (fetches w i.imm) refl refl)

  pub safe_atomic-Mirrors :
      (i : Inst) (w : Width) (s : SafeState)
      → Mirrors (safe_atomic r i w s) (exec_atomic vm r i w s.core)
  unfolding safe_atomic exec_atomic
  safe_atomic-Mirrors i w s =
      elim (Access-cases
        (compute_access (s.tags i.dst) (s.core.reg i.dst) i.offset (width_bytes w) 6)) [
          | inr (x, e) ↦ rw (e, safe_atomic) gives_up
          | inl (a, e) ↦
              rw
                (
                  e,
                  safe_atomic,
                  exec_atomic,
                  checked_store-granted i (width_bytes w) (atomic_access r w i) s.core a
                      (granted_address _ _ i.offset (width_bytes w) 6 a e),
                )
                (after-Mirrors (after_atomic w i)
                  (under_tags-Mirrors
                    (record s { spills = invalidate_spills r s.spills a (width_bytes w) }) _)
                  (after_atomic-Keeps w i))
        ]
