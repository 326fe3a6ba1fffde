-- ===== src/Safe/Mirror/Step.antt =====
-- vm/ubpf_safe.c: one round of the loop against that of vm/ubpf_vm.c.
use mathlib.Core.Bool.{not}
use ubpf.Prelude.{
  ℕ, ◌-◌, ◌≡◌, refl, Bool, true, false, inl, inr, Option-cases, if_both, ltb, leb, ◌==◌, ◌&&◌, ◌||◌,
  if◌then◌else◌,
}
use ubpf.Prelude.Int.{pos, ltb_ℤ}
use ubpf.Inst.{
  Inst, Opcode, w32, w64, alu, neg, ldx, ldxbsx, ldxhsx, ldxwsx, st, stx, lddw, call, exit, atomic,
  decode,
}
use ubpf.Vm.{Vm, RegionKind, ResultKind, in_region, SafeRegion, SafeHelper}
use ubpf.Vm.Program.{fetch_instruction}
use ubpf.Interp.{Regions, Outcome}
use ubpf.Interp.Shadow.{validate_shadow_register}
use ubpf.Interp.Call.{call_external, call_local, exec_call, exec_exit, enter_function}
use ubpf.Interp.Step.{
  exec_opcode, clear_upper, exec_switch, exec_inst, fetch_and_exec, limited, count_down, step,
}
use ubpf.Safe.{Tag, scalar_tag, SafeState, SafeOutcome, set_tag}
use ubpf.Safe.Alu.{Tagged, tagged, untaggable}
use ubpf.Safe.Access.{find_region_by_id}
use ubpf.Safe.Call.{
  tag_result, set_result, after_external, same_kind, region_is_known, safe_helper, safe_external,
  drop_arguments, save_tags, restore_tags, safe_local, safe_call, safe_exit,
}
use ubpf.Safe.Step.{
  with_core, exec_alu32, exec_alu64, exec_little, exec_big, exec_jump, safe_wide, safe_opcode,
  is_arithmetic, retag, settle_tag, clear_tagged, safe_switch, safe_inst, safe_fetch, safe_step,
}
use ubpf.Safe.Mirror.{
  Mirrors, both_run, gives_up, both_fault, Keeps, keeps, refuses, under_tags-Mirrors, after-Mirrors,
  bind-Mirrors,
}
use ubpf.Safe.Mirror.Transfer.{safe_load-Mirrors, safe_store-Mirrors, safe_atomic-Mirrors}

-- Both take the same branch.
if_Mirrors :
    (c : Bool) {a a' : SafeOutcome} {b b' : Outcome}
    → Mirrors a b
    → Mirrors a' b'
    → Mirrors (if c then a else a') (if c then b else b')
if_Mirrors true h k = h
if_Mirrors false h k = k

module _ (vm : Vm) (r : Regions) (unchecked : vm.bounds_check_enabled ≡ false)
    (unmarked : vm.undefined_behavior_check_enabled ≡ false) where
  tag_result-Keeps :
      (kind : RegionKind) (helper : SafeHelper) (region : SafeRegion) (s : SafeState)
      → Keeps s.core (tag_result kind helper region s)
  unfolding tag_result
  tag_result-Keeps kind helper region s =
      let K = Keeps s.core in
      if_both K (not (same_kind kind region.kind)) refuses (
        if_both K
          (ltb (s.core.reg 0) region.base
            || ltb region.end (s.core.reg 0)
            || ltb (region.end - s.core.reg 0) helper.region_size)
          refuses (keeps refl))

  set_result-Keeps :
      (helper : SafeHelper) (kind : ResultKind) (s : SafeState)
      → Keeps s.core (set_result vm helper kind s)
  unfolding set_result
  set_result-Keeps helper ResultKind.scalar s = keeps refl
  set_result-Keeps helper (in_region kind) s =
      elim (Option-cases (find_region_by_id vm helper.region_id)) [
        | inl e ↦ rw (e, set_result) refuses
        | inr (region, e) ↦ rw (e, set_result) (tag_result-Keeps kind helper region s)
      ]

  safe_external-Mirrors :
      (i : Inst) (s : SafeState) → Mirrors (safe_external vm r i s) (call_external vm r i s.core)
  unfolding safe_external after_external
  safe_external-Mirrors i s = elim (Option-cases (safe_helper vm i.imm)) [
    | inl e ↦ rw (e, safe_external) gives_up
    | inr (helper, e) ↦
        rw (e, safe_external)
          (if_both (λ (x : SafeOutcome). Mirrors x (call_external vm r i s.core))
            (not (region_is_known vm helper helper.result_kind)) gives_up
            (after-Mirrors (after_external vm helper) (under_tags-Mirrors s _) (λ t.
              set_result-Keeps helper helper.result_kind
                (record t { tags = drop_arguments t.tags }))))
  ]

  safe_call-Mirrors :
      (i : Inst) (s : SafeState) → Mirrors (safe_call vm r i s) (exec_call vm r i s.core)
  unfolding safe_call exec_call safe_local
  safe_call-Mirrors i s = if_Mirrors (i.src == 0) (safe_external-Mirrors i s) (
      if_Mirrors (i.src == 1)
        (if_both (λ (x : SafeOutcome). Mirrors x (call_local i s.core))
          (leb 8 s.core.stack_frame_index) (under_tags-Mirrors s _)
          (under_tags-Mirrors (record s { saved_tags = save_tags s }) _))
        (if_Mirrors (i.src == 2) gives_up (both_run refl)))

  safe_exit-Mirrors : (s : SafeState) → Mirrors (safe_exit s) (exec_exit s.core)
  unfolding safe_exit
  safe_exit-Mirrors s =
      if_both (λ (x : SafeOutcome). Mirrors x (exec_exit s.core)) (ltb 0 s.core.stack_frame_index)
        (under_tags-Mirrors
          (record s { tags = restore_tags (s.saved_tags (s.core.stack_frame_index - 1)) s.tags }) _)
        (under_tags-Mirrors s _)

  safe_opcode-Mirrors :
      (i : Inst) (op : Opcode) (s : SafeState)
      → Mirrors (safe_opcode vm r i op s) (exec_opcode vm r i op s.core)
  unfolding safe_opcode exec_opcode with_core exec_alu32 exec_alu64 exec_little exec_big exec_jump
      safe_wide
  safe_opcode-Mirrors i (alu w32 op k) s = both_run refl
  safe_opcode-Mirrors i (alu w64 op k) s = both_run refl
  safe_opcode-Mirrors i (neg w32) s = under_tags-Mirrors s _
  safe_opcode-Mirrors i (neg w64) s = under_tags-Mirrors s _
  safe_opcode-Mirrors i (ldx z) s = safe_load-Mirrors vm r unchecked unmarked i _ _ _ s
  safe_opcode-Mirrors i ldxbsx s = safe_load-Mirrors vm r unchecked unmarked i _ _ _ s
  safe_opcode-Mirrors i ldxhsx s = safe_load-Mirrors vm r unchecked unmarked i _ _ _ s
  safe_opcode-Mirrors i ldxwsx s = safe_load-Mirrors vm r unchecked unmarked i _ _ _ s
  safe_opcode-Mirrors i (st z) s = safe_store-Mirrors vm r unchecked unmarked i _ _ _ s
  safe_opcode-Mirrors i (stx z) s = safe_store-Mirrors vm r unchecked unmarked i _ _ _ s
  safe_opcode-Mirrors i lddw s = under_tags-Mirrors (set_tag s i.dst scalar_tag) _
  safe_opcode-Mirrors i call s = safe_call-Mirrors i s
  safe_opcode-Mirrors i exit s = safe_exit-Mirrors s
  safe_opcode-Mirrors i (atomic w) s = safe_atomic-Mirrors vm r unchecked unmarked i w s
  safe_opcode-Mirrors i _ s = both_run refl

  retag-Keeps : (i : Inst) (x : Tagged) (s : SafeState) → Keeps s.core (retag i x s)
  unfolding retag
  retag-Keeps i (tagged tag) s = keeps refl
  retag-Keeps i (untaggable e) s = refuses

  settle_tag-Keeps :
      (i : Inst) (before : ℕ → Tag) (s : SafeState) → Keeps s.core (settle_tag i before s)
  unfolding settle_tag
  settle_tag-Keeps i before s =
      if_both (Keeps s.core) (is_arithmetic i) (retag-Keeps i _ s) (keeps refl)

  safe_switch-Mirrors :
      (i : Inst) (s : SafeState) → Mirrors (safe_switch vm r i s) (exec_switch vm r i s.core)
  unfolding safe_switch exec_switch clear_tagged
  safe_switch-Mirrors i s = elim (Option-cases (decode i.opcode)) [
    | inl e ↦ rw (e, safe_switch) gives_up
    | inr (op, e) ↦
        rw (e, safe_switch, exec_switch)
          (bind-Mirrors (clear_tagged i) (clear_upper i)
            (after-Mirrors (settle_tag i s.tags) (safe_opcode-Mirrors i op s)
              (settle_tag-Keeps i s.tags))
            (λ t. under_tags-Mirrors t _))
  ]

  safe_fetch-Mirrors : (s : SafeState) → Mirrors (safe_fetch vm r s) (fetch_and_exec vm r s.core)
  unfolding safe_fetch fetch_and_exec safe_inst exec_inst
  safe_fetch-Mirrors s = elim (Option-cases (fetch_instruction vm s.core.pc)) [
    | inl e ↦ rw (e, safe_fetch, fetch_and_exec) both_fault
    | inr (i, e) ↦ elim (Option-cases (validate_shadow_register vm s.core.shadow_registers i)) [
      | inl bad ↦ rw (e, safe_fetch, bad, safe_inst) gives_up
      | inr (mask, ok) ↦
          rw (e, safe_fetch, fetch_and_exec, ok, safe_inst, exec_inst) (safe_switch-Mirrors i _)
    ]
  ]

  -- With the bounds check and the undefined-behaviour check off, a round of the safe profile does to
  -- the state what a round of the legacy profile does to it, returns what that returns, or ends
  -- with an error: the tags only ever refuse.
  pub safe_step-Mirrors : (s : SafeState) → Mirrors (safe_step vm r s) (step vm r s.core)
  unfolding safe_step step
  safe_step-Mirrors s = if_Mirrors (leb vm.num_insts s.core.pc) gives_up (
      if_Mirrors (limited vm && not (ltb_ℤ (pos 0) s.core.budget)) gives_up
        (safe_fetch-Mirrors (record s { core = enter_function vm (count_down vm s.core) })))
