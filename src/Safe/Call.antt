-- ===== src/Safe/Call.antt =====
-- vm/ubpf_safe.c, `ubpf_exec_ex_safe`: EBPF_OP_CALL and EBPF_OP_EXIT.
use mathlib.Core.Bool.{not}
use ubpf.Prelude.{
  ℕ, ◌-◌, Bool, true, false, ◌&&◌, ◌||◌, Option, none, some, ltb, leb, ◌==◌, if◌then◌else◌,
}
use ubpf.Prelude.Int.{ℤ, pos, negsuc}
use ubpf.Inst.{Inst}
use ubpf.Vm.{
  Vm, RegionKind, ResultKind, in_region, SafeRegion, SafeHelper, max_ext_funcs, max_call_depth,
}
use ubpf.Interp.{Regions, unsupported_call, update}
use ubpf.Interp.Call.{call_external, call_local, exec_exit}
use ubpf.Safe.{
  Tag, scalar_tag, pointer_tag, handle_tag, SavedTags, SafeState, SafeOutcome, running, failed,
  stopped, refused, missing_metadata, unknown_region, wrong_kind, result_out_of_range, under_tags,
  set_tag, ◌>>=◌,
}
use ubpf.Safe.Access.{find_region_by_id}

-- A call that goes on leaves no tags in r1 to r5.
unfoldable pub drop_arguments : (ℕ → Tag) → ℕ → Tag
drop_arguments tags j = if leb 1 j && leb j 5 then scalar_tag else tags j

unfoldable pub region_tag : RegionKind → SafeHelper → SafeRegion → ℕ → Tag
region_tag RegionKind.pointer helper region a =
    pointer_tag helper.region_id region.permissions a helper.region_size
region_tag RegionKind.handle helper region a =
    handle_tag helper.region_id region.permissions a helper.region_size

abbrev pub same_kind : RegionKind → RegionKind → Bool
same_kind RegionKind.pointer RegionKind.pointer = true
same_kind RegionKind.handle RegionKind.handle = true
same_kind _ _ = false

-- The result of a helper that promises a part of a region.
unfoldable pub tag_result : RegionKind → SafeHelper → SafeRegion → SafeState → SafeOutcome
unfolding region_tag
tag_result kind helper region s =
    let result = s.core.reg 0 in
    if not (same_kind kind region.kind)
    then failed (refused wrong_kind) s
    else if ltb result region.base
        || ltb region.end result
        || ltb (region.end - result) helper.region_size
    then failed (refused result_out_of_range) s
    else running (set_tag s 0 (region_tag kind helper region result))

unfoldable pub set_result : Vm → SafeHelper → ResultKind → SafeState → SafeOutcome
unfolding tag_result
set_result vm helper ResultKind.scalar s = running (set_tag s 0 scalar_tag)
set_result vm helper (in_region kind) s = elim (find_region_by_id vm helper.region_id) [
  | none ↦ failed (refused unknown_region) s
  | some region ↦ tag_result kind helper region s
]

unfoldable pub after_external : Vm → SafeHelper → SafeState → SafeOutcome
unfolding set_result drop_arguments
after_external vm helper s =
    set_result vm helper helper.result_kind (record s { tags = drop_arguments s.tags })

-- Whether the region that the result is to lie in is known, before the call.
abbrev pub region_is_known : Vm → SafeHelper → ResultKind → Bool
region_is_known vm helper ResultKind.scalar = true
region_is_known vm helper (in_region kind) = elim (find_region_by_id vm helper.region_id) [
  | none ↦ false
  | some region ↦ true
]

-- `vm->safe_helpers[inst.imm]`, where the index is in the table.
unfoldable pub safe_helper : Vm → ℤ → Option SafeHelper
safe_helper vm (negsuc n) = none
safe_helper vm (pos n) = if leb max_ext_funcs n then none else vm.safe_helpers n

unfoldable pub safe_external : Vm → Regions → Inst → SafeState → SafeOutcome
unfolding call_external after_external
safe_external vm r i s = elim (safe_helper vm i.imm) [
  | none ↦ failed (refused missing_metadata) s
  | some helper ↦
      if not (region_is_known vm helper helper.result_kind)
      then failed (refused unknown_region) s
      else under_tags s (call_external vm r i s.core) >>= after_external vm helper
]

unfoldable pub save_tags : SafeState → ℕ → SavedTags
save_tags s =
    update s.saved_tags s.core.stack_frame_index
      (record { tag_6 = s.tags 6; tag_7 = s.tags 7; tag_8 = s.tags 8; tag_9 = s.tags 9 })

-- The frame that a call refuses for its depth is not written.
unfoldable pub safe_local : Inst → SafeState → SafeOutcome
unfolding call_local save_tags
safe_local i s =
    if leb max_call_depth s.core.stack_frame_index
    then under_tags s (call_local i s.core)
    else under_tags (record s { saved_tags = save_tags s }) (call_local i s.core)

unfoldable pub safe_call : Vm → Regions → Inst → SafeState → SafeOutcome
unfolding safe_external safe_local
safe_call vm r i s =
    if i.src == 0
    then safe_external vm r i s
    else if i.src == 1
    then safe_local i s
    else if i.src == 2
    then failed (stopped unsupported_call) s
    else running s

unfoldable pub restore_tags : SavedTags → (ℕ → Tag) → ℕ → Tag
unfolding drop_arguments
restore_tags f tags =
    update (update (update (update (drop_arguments tags) 6 f.tag_6) 7 f.tag_7) 8 f.tag_8) 9 f.tag_9

unfoldable pub safe_exit : SafeState → SafeOutcome
unfolding exec_exit restore_tags
safe_exit s =
    if ltb 0 s.core.stack_frame_index
    then under_tags
        (record s { tags = restore_tags (s.saved_tags (s.core.stack_frame_index - 1)) s.tags })
        (exec_exit s.core)
    else under_tags s (exec_exit s.core)
