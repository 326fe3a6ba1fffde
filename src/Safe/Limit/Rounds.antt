-- ===== src/Safe/Limit/Rounds.antt =====
-- No instruction of the safe profile gives rounds back to the loop (vm/ubpf_safe.c).
use mathlib.Core.Bool.{not}
use ubpf.Prelude.{
  ℕ, ◌≡◌, Bool, true, false, Option, none, some, Option-cases, inl, inr, if_both, ltb, leb, ◌-◌,
  ◌==◌, ◌&&◌, ◌||◌,
}
use ubpf.Prelude.Int.{ℤ}
use ubpf.Inst.{
  Inst, Opcode, Width, w32, w64, alu, neg, ldx, ldxbsx, ldxhsx, ldxwsx, st, stx, lddw, jump, call,
  exit, atomic, decode,
}
use ubpf.Alu.{negate32, negate64}
use ubpf.Memory.{Memory, mem_store}
use ubpf.Vm.{Vm, RegionKind, ResultKind, in_region, SafeRegion, SafeHelper}
use ubpf.Vm.Program.{fetch_instruction}
use ubpf.Interp.{Regions, State, Outcome}
use ubpf.Interp.Jump.{jump_by}
use ubpf.Interp.Shadow.{validate_shadow_register, check_shadow_stack}
use ubpf.Interp.Access.{shadow_load, shadow_store, fetches, fetch_index, width_bytes}
use ubpf.Interp.Call.{call_local, return_to, exec_exit}
use ubpf.Interp.Step.{jump_if}
use ubpf.Interp.Limit.Rounds.{
  Left, put-Left, leave-Left, atomic_access-Left, exec_neg-Left, call_external-Left, load_wide-Left,
  clear_upper-Left,
}
use ubpf.Safe.{
  Tag, scalar_tag, SafeState, SafeOutcome, SafeError, running, returned, failed, fault, under_tags,
  set_tag, ◌>>=◌,
}
use ubpf.Safe.Alu.{Tagged, tagged, untaggable}
use ubpf.Safe.Access.{Access-cases, compute_access, find_region_by_id, is_stack_pointer}
use ubpf.Safe.Spill.{invalidate_spills, is_slot, slot_of}
use ubpf.Safe.Transfer.{
  reload, after_load, safe_load, spill, after_store, safe_store, after_atomic, safe_atomic,
}
use ubpf.Safe.Call.{
  tag_result, set_result, after_external, same_kind, region_is_known, safe_helper, safe_external,
  safe_local, safe_call, save_tags, restore_tags, safe_exit,
}
use ubpf.Safe.Step.{
  with_core, exec_alu32, exec_alu64, exec_little, exec_big, exec_jump, safe_wide, safe_opcode,
  is_arithmetic, retag, settle_tag, clear_tagged, safe_switch, safe_inst, safe_fetch,
}

-- Where the loop goes on, so many rounds are left.
pub data SafeLeft (b : ℤ) : SafeOutcome → Type 0 where
  goes_on : {s : SafeState} → s.core.budget ≡ b → SafeLeft b (running s)
  stops : {v : ℕ} {s : SafeState} → SafeLeft b (returned v s)
  fails : {e : SafeError} {s : SafeState} → SafeLeft b (failed e s)
  faults : SafeLeft b fault

module _ (vm : Vm) (r : Regions) (b : ℤ) where
  abbrev Same : SafeState → Type 0
  Same s = s.core.budget ≡ b

  under_tags-Left : (s : SafeState) {out : Outcome} → Left b out → SafeLeft b (under_tags s out)
  under_tags-Left s (Left.goes_on h) = goes_on h
  under_tags-Left s Left.stops = stops
  under_tags-Left s Left.fails = fails
  under_tags-Left s Left.faults = faults

  Left-bind :
      {out : SafeOutcome} {f : SafeState → SafeOutcome}
      → SafeLeft b out
      → ((s : SafeState) → Same s → SafeLeft b (f s))
      → SafeLeft b (out >>= f)
  Left-bind (goes_on h) k = k _ h
  Left-bind stops k = stops
  Left-bind fails k = fails
  Left-bind faults k = faults

  reload-Same : (i : Inst) (a : ℕ) (s : SafeState) → Same s → Same (reload r i a s)
  unfolding reload
  reload-Same i a s h =
      if_both Same (is_stack_pointer r (s.tags i.src) && is_slot r a)
        (elim (s.spills (slot_of r a))
          as (λ o. Same (elim o [ none ↦ s | some tag ↦ set_tag s i.dst tag ])) [
            | none ↦ h
            | some tag ↦ h
          ])
        h

  after_load-Left :
      (i : Inst) (whole : Bool) (a : ℕ) (s : SafeState)
      → Same s
      → SafeLeft b (after_load r i whole a s)
  unfolding after_load
  after_load-Left i true a s h = goes_on (reload-Same i a (set_tag s i.dst scalar_tag) h)
  after_load-Left i false a s h = goes_on h

  safe_load-Left :
      (i : Inst) (size : ℕ) (whole : Bool) (read : Memory → ℕ → Option ℕ) (s : SafeState)
      → Same s
      → SafeLeft b (safe_load vm r i size whole read s)
  unfolding safe_load shadow_load
  safe_load-Left i size whole read s h =
      elim (Access-cases (compute_access (s.tags i.src) (s.core.reg i.src) i.offset size 1)) [
        | inr (x, e) ↦ rw (e, safe_load) fails
        | inl (a, e) ↦
            rw (e, safe_load)
              (Left-bind
                (under_tags-Left s (
                  put-Left vm r b i.dst (shadow_load vm r i.dst size a s.core) _ (
                    if_both (λ (t : State). t.budget ≡ b)
                      (check_shadow_stack vm r s.core.shadow_stack a size) h h)))
                (after_load-Left i whole a))
      ]

  spill-Same :
      (i : Inst) (size : ℕ) (preserve : Bool) (a : ℕ) (s : SafeState)
      → Same s
      → Same (spill r i size preserve a s)
  unfolding spill
  spill-Same i size preserve a s h = if_both Same (is_stack_pointer r (s.tags i.dst)) h h

  after_store-Left :
      (i : Inst) (size : ℕ) (preserve : Bool) (a : ℕ) (s : SafeState)
      → Same s
      → SafeLeft b (after_store vm r i size preserve a s)
  unfolding after_store shadow_store
  after_store-Left i size preserve a s h =
      goes_on (spill-Same i size preserve a (record s { core = shadow_store vm r size a s.core }) h)

  safe_store-Left :
      (i : Inst) (size v : ℕ) (preserve : Bool) (s : SafeState)
      → Same s
      → SafeLeft b (safe_store vm r i size v preserve s)
  unfolding safe_store
  safe_store-Left i size v preserve s h =
      elim (Access-cases (compute_access (s.tags i.dst) (s.core.reg i.dst) i.offset size 2)) [
        | inr (x, e) ↦ rw (e, safe_store) fails
        | inl (a, e) ↦
            rw (e, safe_store)
              (Left-bind
                (under_tags-Left s (leave-Left vm r b s.core (mem_store size s.core.memory a v) h))
                (after_store-Left i size preserve a))
      ]

  after_atomic-Left :
      (w : Width) (i : Inst) (s : SafeState) → Same s → SafeLeft b (after_atomic w i s)
  unfolding after_atomic
  after_atomic-Left w i s h =
      if_both (λ (t : SafeState). SafeLeft b (running t)) (fetches w i.imm)
        {u = set_tag s (fetch_index i) scalar_tag} {v = s} (goes_on h) (goes_on h)

  safe_atomic-Left :
      (i : Inst) (w : Width) (s : SafeState) → Same s → SafeLeft b (safe_atomic r i w s)
  unfolding safe_atomic
  safe_atomic-Left i w s h =
      elim (Access-cases
        (compute_access (s.tags i.dst) (s.core.reg i.dst) i.offset (width_bytes w) 6)) [
          | inr (x, e) ↦ rw (e, safe_atomic) fails
          | inl (a, e) ↦
              rw (e, safe_atomic)
                (Left-bind
                  (under_tags-Left
                    (record s { spills = invalidate_spills r s.spills a (width_bytes w) })
                    (atomic_access-Left vm r b w i a s.core h))
                  (after_atomic-Left w i))
        ]

  tag_result-Left :
      (kind : RegionKind) (helper : SafeHelper) (region : SafeRegion) (s : SafeState)
      → Same s
      → SafeLeft b (tag_result kind helper region s)
  unfolding tag_result
  tag_result-Left kind helper region s h =
      if_both (SafeLeft b) (not (same_kind kind region.kind)) fails (
        if_both (SafeLeft b)
          (ltb (s.core.reg 0) region.base
            || ltb region.end (s.core.reg 0)
            || ltb (region.end - s.core.reg 0) helper.region_size)
          fails (goes_on h))

  set_result-Left :
      (helper : SafeHelper) (kind : ResultKind) (s : SafeState)
      → Same s
      → SafeLeft b (set_result vm helper kind s)
  unfolding set_result
  set_result-Left helper ResultKind.scalar s h = goes_on h
  set_result-Left helper (in_region kind) s h =
      elim (Option-cases (find_region_by_id vm helper.region_id)) [
        | inl e ↦ rw (e, set_result) fails
        | inr (region, e) ↦ rw (e, set_result) (tag_result-Left kind helper region s h)
      ]

  safe_external-Left : (i : Inst) (s : SafeState) → Same s → SafeLeft b (safe_external vm r i s)
  unfolding safe_external after_external
  safe_external-Left i s h = elim (Option-cases (safe_helper vm i.imm)) [
    | inl e ↦ rw (e, safe_external) fails
    | inr (helper, e) ↦
        rw (e, safe_external)
          (if_both (SafeLeft b) (not (region_is_known vm helper helper.result_kind)) fails (
            Left-bind (under_tags-Left s (call_external-Left vm r b i s.core h))
              (λ t same. set_result-Left helper helper.result_kind _ same)))
  ]

  call_local-Left : (i : Inst) (s : State) → s.budget ≡ b → Left b (call_local i s)
  unfolding call_local jump_by
  call_local-Left i s h = if_both (Left b) (leb 8 s.stack_frame_index) Left.fails (Left.goes_on h)

  safe_call-Left : (i : Inst) (s : SafeState) → Same s → SafeLeft b (safe_call vm r i s)
  unfolding safe_call safe_local
  safe_call-Left i s h =
      let local = call_local-Left i s.core h in
      if_both (SafeLeft b) (i.src == 0) (safe_external-Left i s h) (
        if_both (SafeLeft b) (i.src == 1)
          (if_both (SafeLeft b) (leb 8 s.core.stack_frame_index) (under_tags-Left s local)
            (under_tags-Left (record s { saved_tags = save_tags s }) local))
          (if_both (SafeLeft b) (i.src == 2) fails (goes_on h)))

  exec_exit-Left : (s : State) → s.budget ≡ b → Left b (exec_exit s)
  unfolding exec_exit return_to
  exec_exit-Left s h = if_both (Left b) (ltb 0 s.stack_frame_index) (Left.goes_on h) Left.stops

  safe_exit-Left : (s : SafeState) → Same s → SafeLeft b (safe_exit s)
  unfolding safe_exit
  safe_exit-Left s h =
      let left = exec_exit-Left s.core h in
      if_both (SafeLeft b) (ltb 0 s.core.stack_frame_index)
        (under_tags-Left
          (record s { tags = restore_tags (s.saved_tags (s.core.stack_frame_index - 1)) s.tags })
          left)
        (under_tags-Left s left)

  safe_opcode-Left :
      (i : Inst) (op : Opcode) (s : SafeState) → Same s → SafeLeft b (safe_opcode vm r i op s)
  unfolding safe_opcode with_core exec_alu32 exec_alu64 exec_little exec_big exec_jump jump_if
      jump_by safe_wide
  safe_opcode-Left i (alu w32 op k) s h = goes_on h
  safe_opcode-Left i (alu w64 op k) s h = goes_on h
  safe_opcode-Left i (neg w32) s h = under_tags-Left s (exec_neg-Left vm r b i negate32 s.core h)
  safe_opcode-Left i (neg w64) s h = under_tags-Left s (exec_neg-Left vm r b i negate64 s.core h)
  safe_opcode-Left i (ldx z) s h = safe_load-Left i _ _ _ s h
  safe_opcode-Left i ldxbsx s h = safe_load-Left i _ _ _ s h
  safe_opcode-Left i ldxhsx s h = safe_load-Left i _ _ _ s h
  safe_opcode-Left i ldxwsx s h = safe_load-Left i _ _ _ s h
  safe_opcode-Left i (st z) s h = safe_store-Left i _ _ _ s h
  safe_opcode-Left i (stx z) s h = safe_store-Left i _ _ _ s h
  safe_opcode-Left i lddw s h =
      under_tags-Left (set_tag s i.dst scalar_tag)
        (load_wide-Left vm r b i (fetch_instruction vm s.core.pc) s.core h)
  safe_opcode-Left i (jump w op k) s h = goes_on (if_both (λ (t : State). t.budget ≡ b) _ h h)
  safe_opcode-Left i call s h = safe_call-Left i s h
  safe_opcode-Left i exit s h = safe_exit-Left s h
  safe_opcode-Left i (atomic w) s h = safe_atomic-Left i w s h
  safe_opcode-Left i _ s h = goes_on h

  retag-Left : (i : Inst) (x : Tagged) (s : SafeState) → Same s → SafeLeft b (retag i x s)
  unfolding retag
  retag-Left i (tagged tag) s h = goes_on h
  retag-Left i (untaggable e) s h = fails

  settle_tag-Left :
      (i : Inst) (before : ℕ → Tag) (s : SafeState) → Same s → SafeLeft b (settle_tag i before s)
  unfolding settle_tag
  settle_tag-Left i before s h =
      if_both (SafeLeft b) (is_arithmetic i) (retag-Left i _ s h) (goes_on h)

  safe_switch-Left : (i : Inst) (s : SafeState) → Same s → SafeLeft b (safe_switch vm r i s)
  unfolding safe_switch clear_tagged
  safe_switch-Left i s h = elim (Option-cases (decode i.opcode)) [
    | inl e ↦ rw (e, safe_switch) fails
    | inr (op, e) ↦
        rw (e, safe_switch)
          (Left-bind (Left-bind (safe_opcode-Left i op s h) (settle_tag-Left i s.tags))
            (λ t same. under_tags-Left t (clear_upper-Left vm r b i t.core same)))
  ]

  pub safe_fetch-Left : (s : SafeState) → Same s → SafeLeft b (safe_fetch vm r s)
  unfolding safe_fetch safe_inst
  safe_fetch-Left s h = elim (Option-cases (fetch_instruction vm s.core.pc)) [
    | inl e ↦ rw (e, safe_fetch) faults
    | inr (i, e) ↦ elim (Option-cases (validate_shadow_register vm s.core.shadow_registers i)) [
      | inl bad ↦ rw (e, safe_fetch, bad, safe_inst) fails
      | inr (mask, ok) ↦ rw (e, safe_fetch, ok, safe_inst) (safe_switch-Left i _ h)
    ]
  ]
