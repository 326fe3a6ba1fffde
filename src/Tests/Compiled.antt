-- ===== src/Tests/Compiled.antt =====
-- Compilation with a back end of three bytes, and a buffer for the emitters of x86-64.
use ubpf.Prelude.{
  ℕ, ◌≡◌, ◌≢◌, refl, arith, true, false, none, some, List, [], ◌∷◌, ◌++◌, replicate, get_elem?, inr,
}
use ubpf.Prelude.Int.{negsuc}
use ubpf.Inst.{double}
use ubpf.Jit.Compile.{
  JitMode, basic_mode, JitResult, Translate, JitVm, Os, not_mapped, compile_ex, copy_jit,
}
use ubpf.Jit.Cached.{compile_ex-Compiles}
use ubpf.Jit.State.{PatchableRelative, regular, JitState, initialize_jit_state}
use ubpf.Jit.Resolve.{patched, patch_jump, jump_place}
use ubpf.Jit.Patched.{Reaches, patch_jump-Reaches}
use ubpf.Jit.Emit.{emit_load, emit_store}
use ubpf.Jit.Decode.{decode_instruction}
use ubpf.Jit.Appends.{Ready, appended}
use ubpf.Jit.Accesses.{accesses-Decoded}
use ubpf.Api.{create}

abbrev result : JitMode → JitResult
result mode = record {
  compile_result = true;
  external_dispatcher_offset = 0;
  external_helper_offset = 8;
  jit_mode = mode;
  errmsg = none;
}

abbrev three_bytes : Translate
three_bytes vm buffer size mode = (0x90 ∷ 0x90 ∷ 0xc3 ∷ [], 3, result mode)

abbrev fresh : JitVm
fresh = record {
  vm = record create { insts = some (0 ∷ []) };
  jitted = none;
  jitted_size = 0;
  jitter_buffer_size = 65536;
  jitted_result = record (result basic_mode) { compile_result = false };
  jit_translate = three_bytes;
}

abbrev granting : Os
granting = record { allocated = true; mapped = true; protected = true }

abbrev refusing : Os
refusing = record { allocated = false; mapped = false; protected = false }

abbrev code_bytes : List ℕ
code_bytes = 0x90 ∷ 0x90 ∷ 0xc3 ∷ []

compile_ex-Compiles_example :
    (j' : JitVm) × (compile_ex granting fresh basic_mode (some not_mapped)
      ≡ (j', some code_bytes, none))
    × (compile_ex refusing j' basic_mode none ≡ (j', some code_bytes, none))
    × (copy_jit j' (replicate 5 0) 5 ≡ (some (code_bytes ++ (0 ∷ 0 ∷ [])), none))
unfolding create
compile_ex-Compiles_example =
    compile_ex-Compiles fresh granting refusing basic_mode (some not_mapped) none (0 ∷ [])
      code_bytes (replicate 5 0) 3 5 (result basic_mode) refl refl refl refl refl refl refl refl
      refl (omega arith)

abbrev empty_buffer : JitState
unfolding initialize_jit_state
empty_buffer = initialize_jit_state (replicate 16 0) 16 basic_mode 0 0 0 0

empty_buffer-Ready : Ready 9 empty_buffer
unfolding initialize_jit_state
empty_buffer-Ready = record {
  running = refl;
  whole = refl;
  room = omega arith;
  small = omega arith;
}

not_rsp : ◌≢◌ {A = ℕ} 12 4
not_rsp e = absurd (omega arith)

-- r12 as the base needs a SIB byte, and -8 one byte of displacement.
accesses-Decoded_example :
    (loaded stored : List ℕ) × (emit_load double 12 9 (negsuc 7) empty_buffer
      ≡ appended loaded empty_buffer)
    × (decode_instruction loaded
        ≡ some (record {
          override = false;
          wide = true;
          opcode = 0x8b;
          memory_operand = (9, 12, negsuc 7, []);
        }))
    × (emit_store double 9 12 (negsuc 7) empty_buffer ≡ appended stored empty_buffer)
    × (decode_instruction stored
        ≡ some (record {
          override = false;
          wide = true;
          opcode = 0x89;
          memory_operand = (9, 12, negsuc 7, []);
        }))
accesses-Decoded_example =
    accesses-Decoded double 9 12 (negsuc 7) empty_buffer (omega arith) (omega arith) not_rsp
      (omega arith) (omega arith) empty_buffer-Ready

-- A far jump at 2 to the place 10.
abbrev far_jump : PatchableRelative
far_jump = record { offset_loc = 2; target = regular 0 10 false }

abbrev blank_bytes : List ℕ
blank_bytes = replicate 8 0

abbrev patched_bytes : List ℕ
patched_bytes = 0 ∷ 0 ∷ 4 ∷ 0 ∷ 0 ∷ 0 ∷ 0 ∷ 0 ∷ []

far_jump-patched : patch_jump empty_buffer far_jump blank_bytes ≡ patched patched_bytes
unfolding patch_jump initialize_jit_state
far_jump-patched = refl

patch_jump-Reaches_example :
    (target : ℕ) × (jump_place empty_buffer far_jump.target ≡ some (some target))
    × Reaches far_jump patched_bytes target
    × (get_elem? patched_bytes 7 ≡ get_elem? blank_bytes 7)
patch_jump-Reaches_example =
    patch_jump-Reaches empty_buffer far_jump 7 blank_bytes patched_bytes far_jump-patched
      (inr (omega arith))
