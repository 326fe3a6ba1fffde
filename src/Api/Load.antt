-- ===== src/Api/Load.antt =====
-- vm/ubpf_vm.c: `ubpf_load` and `ubpf_unload_code`.
pub mod Fetches
use mathlib.Core.Bool.{not}
use ubpf.Prelude.{
  ℕ, zero, suc, ◌+◌, ◌-◌, ◌*◌, ◌/◌, ◌%◌, ◌^◌, Bool, true, false, Option, none, some, List, [], ◌∷◌,
  length, replicate, ltb, leb, ◌==◌, if◌then◌else◌,
}
use ubpf.Prelude.Int.{ℤ, pos, ◌+ℤ◌}
use ubpf.Word.{pattern_of}
use ubpf.Inst.{Inst}
use ubpf.Interp.{update}
use ubpf.Vm.{Vm, unknown, ebpf_stack_size}
use ubpf.Vm.Program.{encode, store_instruction}
use ubpf.Validate.{Message, Verdict, accepted, rejected, UsageTable}
use ubpf.Validate.Subprograms.{is_local_call}
use ubpf.Validate.Program.{validate}

-- What the host does for `ubpf_load`: the page size, the address of the array of instructions
-- (`none` where `mmap` or `malloc` fails), whether `calloc` and the last `mprotect` succeed.
pub record Host : Type 0 where
  pub page_size : ℕ
  pub array : Option ℕ
  pub flags_allocated : Bool
  pub protected : Bool

pub data LoadError : Type 0 where
  stack_not_multiple already_loaded length_not_multiple out_of_memory not_protected : LoadError
  invalid : Message → LoadError

pub data LoadResult : Type 0 where
  loaded : LoadResult
  load_failed : LoadError → LoadResult

-- `uint32_t target = i + source_inst[i].imm + 1`, marked as the start of a function.
unfoldable pub mark_targets : ℕ → List Inst → (ℕ → Bool) → ℕ → Bool
unfolding is_local_call ◌+ℤ◌
mark_targets i [] flags = flags
mark_targets i (x ∷ xs) flags =
    mark_targets (i + 1) xs
      (if is_local_call x then update flags (pattern_of 32 (pos (i + 1) +ℤ x.imm)) true else flags)

-- The loop that stores the instructions in the array.
unfoldable pub store_from : Vm → ℕ → List Inst → List ℕ → List ℕ
unfolding store_instruction
store_from vm i [] words = words
store_from vm i (x ∷ xs) words = store_from vm (i + 1) xs (store_instruction vm words i x)

-- `insts_alloc_size`: whole pages for an array that will be read-only.
unfoldable pub allocation_size : Vm → Host → ℕ → ℕ
allocation_size vm host code_len =
    if vm.readonly_bytecode_enabled
    then (code_len + host.page_size - 1) / host.page_size * host.page_size
    else code_len

unfoldable pub filled : Vm → Host → List Inst → ℕ → ℕ → Vm
unfolding mark_targets store_from allocation_size
filled vm host code code_len base =
    let vm' = record vm {
      insts_base = base;
      num_insts = code_len / 8;
      insts_alloc_size = allocation_size vm host code_len;
    } in
    record vm' {
      insts = some (store_from vm' 0 code (replicate (code_len / 8) 0));
      int_funcs = mark_targets 0 code (λ n. false);
    }

-- The clean-up after a failure: the array is released.
abbrev pub emptied : Vm → Vm
emptied vm = record vm { insts = none; insts_alloc_size = 0; num_insts = 0; int_funcs = λ n. false }

unfoldable pub install : Vm → Host → List Inst → ℕ → Vm × LoadResult
unfolding filled allocation_size
install vm host code code_len = elim host.array [
  | none ↦ (
    if vm.readonly_bytecode_enabled
        then record vm { insts_alloc_size = allocation_size vm host code_len }
        else vm,
    load_failed out_of_memory,
  )
  | some base ↦
      if not host.flags_allocated
      then (emptied vm, load_failed out_of_memory)
      else if vm.readonly_bytecode_enabled
      then (if host.protected
          then (filled vm host code code_len base, loaded)
          else (emptied vm, load_failed not_protected))
      else (filled vm host code code_len base, loaded)
]

abbrev pub is_loaded : Option (List ℕ) → Bool
is_loaded none = false
is_loaded (some words) = true

unfoldable pub after_validate : Vm → Host → List Inst → ℕ → UsageTable × Verdict → Vm × LoadResult
unfolding install
after_validate vm host code code_len (t, accepted) =
    install (record vm { local_func_stack_usage = t }) host code code_len
after_validate vm host code code_len (t, rejected m) =
    (record vm { local_func_stack_usage = t }, load_failed (invalid m))

-- `ubpf_load`: `code` holds the code_len / 8 instructions.
unfoldable pub load : Vm → Host → List Inst → ℕ → Vm × LoadResult
unfolding after_validate
load vm host code code_len =
    if not (ebpf_stack_size % 8 == 0)
    then (vm, load_failed stack_not_multiple)
    else if is_loaded vm.insts
    then (vm, load_failed already_loaded)
    else if not (code_len % 8 == 0)
    then (vm, load_failed length_not_multiple)
    else after_validate vm host code code_len (validate vm code)

-- `ubpf_unload_code`, where the `calloc` of a fresh usage table succeeds.
unfoldable pub unload_code : Vm → Vm
unload_code vm = record vm {
  local_func_stack_usage = λ n. unknown;
  insts = none;
  num_insts = if is_loaded vm.insts then 0 else vm.num_insts;
  insts_alloc_size = if is_loaded vm.insts then 0 else vm.insts_alloc_size;
  int_funcs = λ n. false;
}
