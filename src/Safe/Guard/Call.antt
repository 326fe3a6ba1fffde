-- ===== src/Safe/Guard/Call.antt =====
-- vm/ubpf_safe.c: calls and returns of the safe profile keep every pointer granted.
use mathlib.Core.Bool.{not}
use ubpf.Prelude.{
  ℕ, zero, suc, ◌+◌, ◌-◌, ◌≤◌, ◌≡◌, arith, true, Option, some, inl, inr, Bool-cases, if_both,
  if_cases, Option-cases, ltb, leb, ◌==◌, ◌&&◌, ◌||◌,
}
use ubpf.Inst.{Inst}
use ubpf.Memory.{Memory}
use ubpf.Vm.{
  Vm, Helper, RegionKind, ResultKind, in_region, SafeRegion, SafeHelper, max_safe_regions,
}
use ubpf.Interp.{Regions}
use ubpf.Interp.Jump.{add_pc}
use ubpf.Interp.Call.{external_function}
use ubpf.Safety.Control.{Keeps, call_external-Ends, call_local-Ends, exec_exit-Ends}
use ubpf.Safety.Invariant.{update_all}
use ubpf.Safe.{Tag, scalar_tag, SavedTags, SafeState}
use ubpf.Safe.Access.{has_id, find_region_from, find_region_by_id}
use ubpf.Safe.Call.{
  drop_arguments, region_tag, same_kind, tag_result, set_result, after_external, region_is_known,
  safe_helper, safe_external, save_tags, safe_local, safe_call, restore_tags, safe_exit,
}
use ubpf.Safe.Guard.{Granted, SavedGranted, SafeMemory, SafeInv, SafeEnds, goes_on, fails}
use ubpf.Safe.Guard.Tags.{
  number-Granted, SafeInv-set_tags, SafeInv-set_tag, SafeInv-set_saved, under_tags-Ends,
  SafeEnds-bind,
}

-- A region that is found is in the table.
find_region_from-some :
    (table : ℕ → Option SafeRegion) (id left i : ℕ) (region : SafeRegion)
    → find_region_from table id left i ≡ some region
    → (j : ℕ) × (table j ≡ some region)
unfolding find_region_from
find_region_from-some table id zero i region h = absurd (ground arith)
find_region_from-some table id (suc left) i region h = elim (Bool-cases (has_id (table i) id)) [
  | inl e ↦ (i, rw (e, find_region_from) at h)
  | inr e ↦ find_region_from-some table id left (i + 1) region (rw (e, find_region_from) at h)
]

pub find_region_by_id-some :
    (vm : Vm) (id : ℕ) (region : SafeRegion)
    → find_region_by_id vm id ≡ some region
    → (j : ℕ) × (vm.safe_regions j ≡ some region)
unfolding find_region_by_id
find_region_by_id-some vm id region h =
    find_region_from-some vm.safe_regions id max_safe_regions 0 region h

module _ (vm : Vm) (r : Regions) (start : Memory) (n : ℕ) where
  abbrev Good : SafeState → Type 0
  Good = SafeInv vm r start n

  drop_arguments-Granted :
      (tags : ℕ → Tag)
      → ((k : ℕ) → Granted vm r (tags k))
      → (k : ℕ) → Granted vm r (drop_arguments tags k)
  unfolding drop_arguments
  drop_arguments-Granted tags h k =
      if_both (Granted vm r) (leb 1 k && leb k 5) (number-Granted vm r) (h k)

  -- What a helper returns in its region is granted.
  region_tag-Granted :
      (kind : RegionKind) (helper : SafeHelper) (region : SafeRegion) (a j : ℕ)
      → vm.safe_regions j ≡ some region
      → same_kind kind region.kind ≡ true
      → region.base ≤ a
      → a + helper.region_size ≤ region.end
      → Granted vm r (region_tag kind helper region a)
  unfolding region_tag
  region_tag-Granted RegionKind.handle helper region a j found same low high h k above below =
      absurd (ground arith)
  region_tag-Granted RegionKind.pointer helper region a j found same low high h k above below =
      let kind : region.kind ≡ RegionKind.pointer = ground arith in
      (
        inr (j, region, found, kind, tt, omega arith, omega arith),
        λ can. inr (j, region, found, kind, can, omega arith, omega arith),
      )

  tag_result-Ends :
      (kind : RegionKind) (helper : SafeHelper) (region : SafeRegion) (j : ℕ) (s : SafeState)
      → vm.safe_regions j ≡ some region
      → Good s
      → SafeEnds Good (tag_result kind helper region s)
  unfolding tag_result
  tag_result-Ends kind helper region j s found inv =
      let result = s.core.reg 0 in
      if_cases (SafeEnds Good) (not (same_kind kind region.kind)) (λ e. fails inv)
        (λ same.
          if_cases (SafeEnds Good)
            (ltb result region.base
              || ltb region.end result
              || ltb (region.end - result) helper.region_size)
            (λ e. fails inv)
            (λ inside. goes_on (
              SafeInv-set_tag inv 0 _ (
                region_tag-Granted kind helper region result j found (ground arith) (ground arith)
                  (ground arith)))))

  set_result-Ends :
      (helper : SafeHelper) (kind : ResultKind) (s : SafeState)
      → Good s
      → SafeEnds Good (set_result vm helper kind s)
  unfolding set_result
  set_result-Ends helper ResultKind.scalar s inv =
      goes_on (SafeInv-set_tag inv 0 scalar_tag (number-Granted vm r))
  set_result-Ends helper (in_region kind) s inv =
      elim (Option-cases (find_region_by_id vm helper.region_id)) [
        | inl e ↦ rw (e, set_result) (fails inv)
        | inr (region, e) ↦
            let (j, found) = find_region_by_id-some vm helper.region_id region e in
            rw (e, set_result) (tag_result-Ends kind helper region j s found inv)
      ]

  after_external-Ends :
      (helper : SafeHelper) (s : SafeState) → Good s → SafeEnds Good (after_external vm helper s)
  unfolding after_external
  after_external-Ends helper s inv =
      set_result-Ends helper helper.result_kind _
        (SafeInv-set_tags inv _ (drop_arguments-Granted s.tags inv.tags_granted))

  safe_external-Ends :
      (i : Inst) (s : SafeState) (f : Helper)
      → external_function vm i.imm ≡ some f
      → Keeps (SafeMemory vm r start) f
      → Good s
      → SafeEnds Good (safe_external vm r i s)
  unfolding safe_external
  safe_external-Ends i s f e keeps inv = elim (Option-cases (safe_helper vm i.imm)) [
    | inl none_there ↦ rw (none_there, safe_external) (fails inv)
    | inr (helper, there) ↦
        rw (there, safe_external)
          (if_both (SafeEnds Good) (not (region_is_known vm helper helper.result_kind)) (fails inv)
            (SafeEnds-bind
              (under_tags-Ends inv
                (call_external-Ends vm r (SafeMemory vm r start) n i s.core f e keeps inv.core_inv))
              (after_external-Ends helper)))
  ]

  save_tags-Granted : (s : SafeState) → Good s → (k : ℕ) → SavedGranted vm r (save_tags s k)
  unfolding save_tags
  save_tags-Granted s inv =
      update_all (SavedGranted vm r) s.saved_tags s.core.stack_frame_index _ inv.saved_granted
        (inv.tags_granted 6, inv.tags_granted 7, inv.tags_granted 8, inv.tags_granted 9)

  safe_local-Ends :
      (i : Inst) (s : SafeState)
      → add_pc s.core.pc i.imm ≤ n
      → Good s
      → SafeEnds Good (safe_local i s)
  unfolding safe_local
  safe_local-Ends i s target inv =
      let called = call_local-Ends vm r (SafeMemory vm r start) n i s.core target inv.core_inv in
      if_both (SafeEnds Good) (leb 8 s.core.stack_frame_index) (under_tags-Ends inv called)
        (under_tags-Ends (SafeInv-set_saved inv _ (save_tags-Granted s inv)) called)

  restore_tags-Granted :
      (f : SavedTags) (tags : ℕ → Tag)
      → SavedGranted vm r f
      → ((k : ℕ) → Granted vm r (tags k))
      → (k : ℕ) → Granted vm r (restore_tags f tags k)
  unfolding restore_tags
  restore_tags-Granted f tags (h₆, h₇, h₈, h₉) h k =
      let G = Granted vm r in
      if_both G (k == 9) h₉ (
        if_both G (k == 8) h₈
          (if_both G (k == 7) h₇ (if_both G (k == 6) h₆ (drop_arguments-Granted tags h k))))

  pub safe_exit-Ends : (s : SafeState) → Good s → SafeEnds Good (safe_exit s)
  unfolding safe_exit
  safe_exit-Ends s inv =
      let left = exec_exit-Ends vm r (SafeMemory vm r start) n s.core inv.core_inv in
      if_both (SafeEnds Good) (ltb 0 s.core.stack_frame_index)
        (under_tags-Ends
          (SafeInv-set_tags inv _
            (restore_tags-Granted _ s.tags (inv.saved_granted _) inv.tags_granted))
          left)
        (under_tags-Ends inv left)

  -- `safe_call`, where the validator found the function or the target.
  pub safe_call-Ends :
      (i : Inst) (s : SafeState)
      → (i.src ≡ 0
          → (f : Helper) × (external_function vm i.imm ≡ some f) × Keeps (SafeMemory vm r start) f)
      → (i.src ≡ 1 → add_pc s.core.pc i.imm ≤ n)
      → Good s
      → SafeEnds Good (safe_call vm r i s)
  unfolding safe_call
  safe_call-Ends i s found target inv =
      if_cases (SafeEnds Good) (i.src == 0)
        (λ e.
          let (f, at_imm, keeps) = found (ground arith) in
          safe_external-Ends i s f at_imm keeps inv)
        (λ _.
          if_cases (SafeEnds Good) (i.src == 1)
            (λ e. safe_local-Ends i s (target (ground arith)) inv)
            (λ _. if_both (SafeEnds Good) (i.src == 2) (fails inv) (goes_on inv)))
