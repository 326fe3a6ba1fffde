-- ===== src/Jit/Resolve.antt =====
-- vm/ubpf_jit_x86_64.c: the instructions that refer to a place relative to themselves, and the
-- places that `resolve_patchable_relatives` writes into them at the end.
use ubpf.Prelude.{
  ℕ, ◌+◌, ◌-◌, ◌^◌, Bool, false, ◌||◌, Option, none, some, List, [], ◌∷◌, length, get_elem?, ltb,
  leb, ◌==◌, if◌then◌else◌,
}
use mathlib.Core.Bool.{not}
use ubpf.Word.{u32}
use ubpf.Loader.{done, put_bytes}
use ubpf.Loader.Relocate.{bytes_of}
use ubpf.Vm.{max_insts}
use ubpf.Jit.State.{
  JitState, PatchableRelative, PatchableTarget, special, regular, exit, retpoline,
  external_dispatcher, load_helper_table, emit1, emit_4byte_offset_placeholder, note_load, note_lea,
  too_many_loads, too_many_leas,
}
use ubpf.Jit.Emit.{emit_rex, emit_modrm}

-- A load relative to RIP, and the place of its address.
unfoldable pub emit_rip_relative_load : ℕ → PatchableTarget → JitState → ℕ × JitState
unfolding emit_rex emit1 emit_modrm note_load emit_4byte_offset_placeholder
emit_rip_relative_load dst load_tgt s =
    if length s.loads == max_insts
    then (0, record s { jit_status = too_many_loads })
    else let s₁ = emit_modrm 0 dst 0x05 (emit1 0x8b (emit_rex 1 0 0 0 s)) in
      (s₁.offset, emit_4byte_offset_placeholder (note_load load_tgt s₁))

unfoldable pub emit_rip_relative_lea : ℕ → PatchableTarget → JitState → JitState
unfolding emit_rex emit1 emit_modrm note_lea emit_4byte_offset_placeholder
emit_rip_relative_lea lea_dst_reg lea_tgt s =
    if length s.leas == max_insts
    then record s { jit_status = too_many_leas }
    else emit_4byte_offset_placeholder
        (note_lea lea_tgt (emit_modrm 0 lea_dst_reg 0x05 (emit1 0x8d (emit_rex 1 1 0 0 s))))

-- `state->pc_locs[pc]`; a pc past the table is a fault (`none`).
abbrev pub place_of : JitState → ℕ → Option ℕ
place_of s pc = get_elem? s.pc_locs pc

-- The target of a jump. Of a special one only two are known, for another the result is `some none`.
unfoldable pub jump_place : JitState → PatchableTarget → Option (Option ℕ)
jump_place s (special exit) = some (some s.exit_loc)
jump_place s (special retpoline) = some (some s.retpoline_loc)
jump_place s (special t) = some none
jump_place s (regular pc jit_pc near) =
    if not (jit_pc == 0)
    then some (some jit_pc)
    else elim (place_of s pc) [ none ↦ none | some at ↦ some (some at) ]

abbrev pub is_near_jump : PatchableTarget → Bool
is_near_jump (special t) = false
is_near_jump (regular pc jit_pc near) = near

-- `target_loc - (offset_loc + size)` in 32 bits.
abbrev pub relative : ℕ → ℕ → ℕ → ℕ
relative target_loc offset_loc size = u32 (target_loc + (2 ^ 32 - u32 (offset_loc + size)))

-- `-128 <= rel && rel < 128`, of the 32 bits read as an int32_t.
abbrev pub fits_near : ℕ → Bool
fits_near rel = ltb rel 128 || leb (2 ^ 32 - 128) rel

-- A run over the tables: the buffer, `return false`, or a fault.
pub data Patching : Type 0 where
  patched : List ℕ → Patching
  unresolved patch_fault : Patching

-- The write of a place into the buffer.
unfoldable pub patch_bytes : List ℕ → ℕ → List ℕ → Patching
unfolding put_bytes
patch_bytes buf at bytes = elim (put_bytes buf at bytes) [ done b ↦ patched b | _ ↦ patch_fault ]

unfoldable pub patch_jump_to : PatchableRelative → ℕ → List ℕ → Patching
unfolding patch_bytes bytes_of
patch_jump_to jump target_loc buf =
    if is_near_jump jump.target
    then (if fits_near (relative target_loc jump.offset_loc 1)
        then patch_bytes buf jump.offset_loc (bytes_of 1 (relative target_loc jump.offset_loc 1))
        else unresolved)
    else patch_bytes buf jump.offset_loc (bytes_of 4 (relative target_loc jump.offset_loc 4))

unfoldable pub patch_jump : JitState → PatchableRelative → List ℕ → Patching
unfolding jump_place patch_jump_to
patch_jump s jump buf = elim (jump_place s jump.target) [
  | none ↦ patch_fault
  | some none ↦ unresolved
  | some (some target_loc) ↦ patch_jump_to jump target_loc buf
]

-- A local call skips the prolog that each function begins with. Its target is an eBPF pc, which
-- two assertions check.
unfoldable pub patch_local_call : JitState → PatchableRelative → List ℕ → Patching
unfolding patch_bytes bytes_of
patch_local_call s call buf = elim call.target [
  | special t ↦ patch_fault
  | regular pc jit_pc near ↦ if not (jit_pc == 0) then patch_fault else elim (place_of s pc) [
    | none ↦ patch_fault
    | some at ↦ patch_bytes buf call.offset_loc (
        bytes_of 4
          (u32 (relative at call.offset_loc 4 + (2 ^ 32 - u32 s.bpf_function_prolog_size))))
  ]
]

abbrev pub load_place : JitState → PatchableTarget → Option ℕ
load_place s (special external_dispatcher) = some s.dispatcher_loc
load_place s _ = none

abbrev pub lea_place : JitState → PatchableTarget → Option ℕ
lea_place s (special load_helper_table) = some s.helper_table_loc
lea_place s _ = none

unfoldable pub patch_place : Option ℕ → PatchableRelative → List ℕ → Patching
unfolding patch_bytes bytes_of
patch_place none p buf = unresolved
patch_place (some place) p buf =
    patch_bytes buf p.offset_loc (bytes_of 4 (relative place p.offset_loc 4))

unfoldable pub patch_load : JitState → PatchableRelative → List ℕ → Patching
unfolding patch_place
patch_load s p buf = patch_place (load_place s p.target) p buf

unfoldable pub patch_lea : JitState → PatchableRelative → List ℕ → Patching
unfolding patch_place
patch_lea s p buf = patch_place (lea_place s p.target) p buf

-- One of the four loops.
unfoldable pub patch_all :
    (PatchableRelative → List ℕ → Patching) → List PatchableRelative → List ℕ → Patching
patch_all patch [] buf = patched buf
patch_all patch (p ∷ table) buf = elim (patch p buf) [
  | patched next ↦ patch_all patch table next
  | unresolved ↦ unresolved
  | patch_fault ↦ patch_fault
]

abbrev pub then_patch : Patching → (List ℕ → Patching) → Patching
then_patch (patched buf) f = f buf
then_patch unresolved f = unresolved
then_patch patch_fault f = patch_fault

-- `resolve_patchable_relatives`.
unfoldable pub resolve_patchable_relatives : JitState → Patching
unfolding patch_all patch_jump patch_local_call patch_load patch_lea
resolve_patchable_relatives s = then_patch (patch_all (patch_jump s) s.jumps s.buf) λ jumped.
    then_patch (patch_all (patch_local_call s) s.local_calls jumped) λ called.
      then_patch (patch_all (patch_load s) s.loads called)
        λ loaded. patch_all (patch_lea s) s.leas loaded
