-- ===== src/Jit/Compile.antt =====
-- vm/ubpf_jit.c: compilation around a back end, and the code that the virtual machine holds.
use mathlib.Core.Bool.{not}
use ubpf.Prelude.{
  ℕ, Bool, true, false, ◌&&◌, Option, none, some, List, ◌++◌, take, drop, replicate, ltb,
  if◌then◌else◌,
}
use ubpf.Api.Load.{unload_code}
use ubpf.Api.Profile.{set_execution_profile}
use ubpf.Vm.{Vm, Profile, legacy, safe}

-- `enum JitMode`.
pub data JitMode : Type 0 where
  basic_mode extended_mode : JitMode

-- The messages of the file; one of the back end is a number.
pub data JitError : Type 0 where
  interpreter_only not_loaded no_buffer not_mapped not_executable : JitError
  not_compiled buffer_too_small not_supported : JitError
  from_back_end : ℕ → JitError

-- `struct ubpf_jit_result`; `compile_result` is whether it is UBPF_JIT_COMPILE_SUCCESS.
pub record JitResult : Type 0 where
  pub compile_result : Bool
  pub external_dispatcher_offset : ℕ
  pub external_helper_offset : ℕ
  pub jit_mode : JitMode
  pub errmsg : Option JitError

-- `vm->jit_translate`: from a machine, a buffer, its size and a mode to the buffer, the size of the
-- code and the result.
abbrev pub Translate : Type 0
Translate = Vm → List ℕ → ℕ → JitMode → List ℕ × ℕ × JitResult

-- The fields of `struct ubpf_vm` for compiled code, beside the others. `jitted` holds the mapped
-- bytes (`none` for NULL).
pub record JitVm : Type 0 where
  pub vm : Vm
  pub jitted : Option (List ℕ)
  pub jitted_size : ℕ
  pub jitter_buffer_size : ℕ
  pub jitted_result : JitResult
  pub jit_translate : Translate

-- Whether `calloc`, `mmap` and `mprotect` succeed.
pub record Os : Type 0 where
  pub allocated : Bool
  pub mapped : Bool
  pub protected : Bool

abbrev pub is_safe : Profile → Bool
is_safe legacy = false
is_safe safe = true

abbrev pub same_mode : JitMode → JitMode → Bool
same_mode basic_mode basic_mode = true
same_mode extended_mode extended_mode = true
same_mode _ _ = false

abbrev pub message : Option JitError → Option JitError → Option JitError
message none old = old
message (some e) old = some e

-- What `ubpf_translate_ex` leaves: the machine, the buffer, the size, `*errmsg`, and whether it
-- returns 0.
pub record Translation : Type 0 where
  pub after : JitVm
  pub buffer : List ℕ
  pub size : ℕ
  pub errmsg : Option JitError
  pub ok : Bool

abbrev pub translated : JitVm → Option JitError → List ℕ × ℕ × JitResult → Translation
translated j old (buffer, size, result) = record {
  after = record j { jitted_result = result };
  buffer = buffer;
  size = size;
  errmsg = message result.errmsg old;
  ok = result.compile_result;
}

-- `ubpf_translate_ex`.
unfoldable pub translate_ex : JitVm → List ℕ → ℕ → JitMode → Option JitError → Translation
translate_ex j buffer size mode old =
    if is_safe j.vm.execution_profile
    then record {
      after = j;
      buffer = buffer;
      size = size;
      errmsg = some interpreter_only;
      ok = false;
    }
    else translated j old (j.jit_translate j.vm buffer size mode)

-- `ubpf_translate`.
unfoldable pub translate_basic : JitVm → List ℕ → ℕ → Option JitError → Translation
unfolding translate_ex
translate_basic j buffer size old = translate_ex j buffer size basic_mode old

-- `ubpf_translate_null`; the fields that it does not set are those of `junk`.
unfoldable pub translate_null : JitResult → Translate
translate_null junk vm buffer size mode = (
  buffer,
  size,
  record junk {
    compile_result = false;
    external_dispatcher_offset = 0;
    errmsg = some not_supported;
  },
)

-- `ubpf_set_jit_code_size`.
unfoldable pub set_jit_code_size : JitVm → ℕ → JitVm × Bool
set_jit_code_size j code_size = (record j { jitter_buffer_size = code_size }, true)

-- `vm->jitted && vm->jitted_result... && ... == mode`.
abbrev pub is_cached : JitVm → JitMode → Option (List ℕ) → Bool
is_cached j mode none = false
is_cached j mode (some code) =
    j.jitted_result.compile_result && same_mode j.jitted_result.jit_mode mode

-- `munmap` of the code.
abbrev pub release : Option (List ℕ) → JitVm → JitVm
release none j = j
release (some code) j = record j { jitted = none; jitted_size = 0 }

-- From the call of `ubpf_translate_ex` on. A back end keeps to the buffer, so the copy reads
-- bytes of the buffer alone.
unfoldable pub install_code : Os → Translation → JitVm × Option (List ℕ) × Option JitError
install_code os t =
    if not t.ok
    then (t.after, none, t.errmsg)
    else if not os.mapped
    then (t.after, none, some not_mapped)
    else if not os.protected
    then (t.after, none, some not_executable)
    else (
      record (t.after) { jitted = some (take t.size t.buffer); jitted_size = t.size },
      some (take t.size t.buffer),
      t.errmsg,
    )

-- `ubpf_compile_ex` of a machine without code, from `*errmsg = NULL` on.
unfoldable pub compile_fresh : Os → JitVm → JitMode → JitVm × Option (List ℕ) × Option JitError
unfolding translate_ex install_code
compile_fresh os j mode = elim j.vm.insts [
  | none ↦ (j, none, some not_loaded)
  | some words ↦
      if not os.allocated
      then (j, none, some no_buffer)
      else install_code os
          (translate_ex j (replicate j.jitter_buffer_size 0) j.jitter_buffer_size mode none)
]

-- `ubpf_compile_ex`, with `*errmsg` before and after.
unfoldable pub compile_ex :
    Os → JitVm → JitMode → Option JitError → JitVm × Option (List ℕ) × Option JitError
unfolding compile_fresh
compile_ex os j mode old =
    if is_safe j.vm.execution_profile
    then (j, none, some interpreter_only)
    else if is_cached j mode j.jitted
    then (j, j.jitted, old)
    else compile_fresh os (release j.jitted j) mode

-- `ubpf_compile`.
unfoldable pub compile : Os → JitVm → Option JitError → JitVm × Option (List ℕ) × Option JitError
unfolding compile_ex
compile os j old = compile_ex os j basic_mode old

-- `ubpf_copy_jit` into a buffer of `size` bytes: the buffer, if it succeeds, and `*errmsg`.
unfoldable pub copy_jit : JitVm → List ℕ → ℕ → Option (List ℕ) × Option JitError
copy_jit j buffer size = elim j.jitted [
  | none ↦ (none, some not_compiled)
  | some code ↦
      if not j.jitted_result.compile_result
      then (none, some not_compiled)
      else if ltb size j.jitted_size
      then (none, some buffer_too_small)
      else (some (take j.jitted_size code ++ drop j.jitted_size buffer), none)
]

-- `ubpf_unload_code` releases the compiled code with the program; the last result stays.
unfoldable pub unload : JitVm → JitVm
unfolding unload_code
unload j = record (release j.jitted j) { vm = unload_code j.vm }

-- `ubpf_set_execution_profile` refuses a machine with compiled code.
unfoldable pub set_profile : JitVm → Profile → JitVm × Bool
unfolding set_execution_profile
set_profile j profile = elim j.jitted [
  | some code ↦ (j, false)
  | none ↦ let (vm', ok) = set_execution_profile j.vm profile in (record j { vm = vm' }, ok)
]
