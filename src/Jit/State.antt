-- ===== src/Jit/State.antt =====
-- vm/ubpf_jit_support.h and .c: the state of a back end while it writes code, and its tables of
-- places to patch. vm/ubpf_jit_x86_64.c: the functions that write into the buffer.
use ubpf.Prelude.{
  ℕ, ◌+◌, Bool, true, false, List, [], ◌∷◌, ◌++◌, length, replicate, ltb, ◌==◌, if◌then◌else◌,
}
use ubpf.Word.{u32}
use ubpf.Loader.{put_bytes, done, failed, fault}
use ubpf.Loader.Relocate.{bytes_of}
use ubpf.Vm.{max_insts}
use ubpf.Jit.Compile.{JitMode}

-- `enum JitProgress`.
pub data Progress : Type 0 where
  no_error too_many_jumps too_many_loads too_many_leas too_many_local_calls : Progress
  not_enough_space unexpected_instruction unknown_instruction : Progress

-- `enum SpecialTarget`.
pub data SpecialTarget : Type 0 where
  exit enter retpoline external_dispatcher load_helper_table : SpecialTarget

-- `struct PatchableTarget`; a regular one has an eBPF pc, a place in the code and `near`.
pub data PatchableTarget : Type 0 where
  special : SpecialTarget → PatchableTarget
  regular : ℕ → ℕ → Bool → PatchableTarget

pub record PatchableRelative : Type 0 where
  pub offset_loc : ℕ
  pub target : PatchableTarget

-- `struct jit_state`. A table holds the entries in use, so its length is its counter. `overrun`
-- records a write outside the buffer, which is undefined in C.
pub record JitState : Type 0 where
  pub buf : List ℕ
  pub offset : ℕ
  pub size : ℕ
  pub pc_locs : List ℕ
  pub exit_loc : ℕ
  pub retpoline_loc : ℕ
  pub dispatcher_loc : ℕ
  pub helper_table_loc : ℕ
  pub jit_status : Progress
  pub jit_mode : JitMode
  pub jumps : List PatchableRelative
  pub loads : List PatchableRelative
  pub leas : List PatchableRelative
  pub local_calls : List PatchableRelative
  pub bpf_function_prolog_size : ℕ
  pub overrun : Bool

-- `initialize_jit_state_result`, where the allocations succeed. The places that it does not set
-- are given.
unfoldable pub initialize_jit_state : List ℕ → ℕ → JitMode → ℕ → ℕ → ℕ → ℕ → JitState
initialize_jit_state buffer size mode exit_loc retpoline_loc dispatcher_loc helper_table_loc =
    record {
      buf = buffer;
      offset = 0;
      size = size;
      pc_locs = replicate (max_insts + 1) 0;
      exit_loc = exit_loc;
      retpoline_loc = retpoline_loc;
      dispatcher_loc = dispatcher_loc;
      helper_table_loc = helper_table_loc;
      jit_status = no_error;
      jit_mode = mode;
      jumps = [];
      loads = [];
      leas = [];
      local_calls = [];
      bpf_function_prolog_size = 0;
      overrun = false;
    }

-- `emit_patchable_relative` at the counter, which is then one more.
unfoldable pub emit_patchable_relative :
    List PatchableRelative → ℕ → PatchableTarget → List PatchableRelative
emit_patchable_relative table offset target =
    table ++ (record { offset_loc = offset; target = target } ∷ [])

unfoldable pub note_load : PatchableTarget → JitState → JitState
unfolding emit_patchable_relative
note_load target s = record s { loads = emit_patchable_relative s.loads s.offset target }

unfoldable pub note_lea : PatchableTarget → JitState → JitState
unfolding emit_patchable_relative
note_lea target s = record s { leas = emit_patchable_relative s.leas s.offset target }

unfoldable pub modify_patchable_relatives_target :
    List PatchableRelative → ℕ → PatchableTarget → List PatchableRelative
modify_patchable_relatives_target [] src target = []
modify_patchable_relatives_target (p ∷ table) src target =
    (if p.offset_loc == src then record p { target = target } else p)
    ∷ modify_patchable_relatives_target table src target

-- `emit_jump_target`: the jump at `jump_src` leads to the next byte.
unfoldable pub emit_jump_target : ℕ → JitState → JitState
unfolding modify_patchable_relatives_target
emit_jump_target jump_src s = record s {
  jumps = modify_patchable_relatives_target s.jumps jump_src (regular 0 s.offset false);
}

unfoldable pub copy_bytes : List ℕ → JitState → JitState
unfolding put_bytes
copy_bytes bytes s = elim (put_bytes s.buf s.offset bytes) [
  | done buf ↦ record s { buf = buf; offset = s.offset + length bytes }
  | failed e ↦ s
  | fault ↦ record s { overrun = true }
]

-- `emit_bytes`. The sum of the test is of 32 bits; that of the copy stays in the buffer.
unfoldable pub emit_bytes : List ℕ → JitState → JitState
unfolding copy_bytes
emit_bytes bytes s = elim s.jit_status [
  | no_error ↦
      if ltb s.size (u32 (s.offset + length bytes))
      then record s { jit_status = not_enough_space }
      else copy_bytes bytes s
  | _ ↦ s
]

unfoldable pub emit1 : ℕ → JitState → JitState
unfolding emit_bytes bytes_of
emit1 x s = emit_bytes (bytes_of 1 x) s

unfoldable pub emit2 : ℕ → JitState → JitState
unfolding emit_bytes bytes_of
emit2 x s = emit_bytes (bytes_of 2 x) s

unfoldable pub emit4 : ℕ → JitState → JitState
unfolding emit_bytes bytes_of
emit4 x s = emit_bytes (bytes_of 4 x) s

unfoldable pub emit8 : ℕ → JitState → JitState
unfolding emit_bytes bytes_of
emit8 x s = emit_bytes (bytes_of 8 x) s

unfoldable pub emit_4byte_offset_placeholder : JitState → JitState
unfolding emit4
emit_4byte_offset_placeholder s = emit4 0 s

-- The place of the address, and the state.
unfoldable pub emit_jump_address_reloc : PatchableTarget → JitState → ℕ × JitState
unfolding emit_patchable_relative emit_4byte_offset_placeholder
emit_jump_address_reloc target s =
    if length s.jumps == max_insts then (0, record s { jit_status = too_many_jumps }) else (
      s.offset,
      emit_4byte_offset_placeholder
          (record s { jumps = emit_patchable_relative s.jumps s.offset target }),
    )

unfoldable pub emit_local_call_address_reloc : PatchableTarget → JitState → ℕ × JitState
unfolding emit_patchable_relative emit_4byte_offset_placeholder
emit_local_call_address_reloc target s =
    if length s.local_calls == max_insts
    then (0, record s { jit_status = too_many_local_calls })
    else (
      s.offset,
      emit_4byte_offset_placeholder
          (record s { local_calls = emit_patchable_relative s.local_calls s.offset target }),
    )
