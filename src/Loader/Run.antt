-- ===== src/Loader/Run.antt =====
-- vm/ubpf_loader.c: `ubpf_load_elf_ex` and `ubpf_load_elf`, the phases in their order.
use ubpf.Prelude.{ℕ, zero, suc, ◌+◌, ◌*◌, ◌/◌, Option, none, List, [], ◌∷◌, length, take, drop}
use ubpf.Inst.{Inst}
use ubpf.Vm.{Vm}
use ubpf.Vm.Program.{decode_word}
use ubpf.Api.Load.{Host, LoadResult, load}
use ubpf.Loader.{Elf, ElfError, Loading, done, failed, fault, ◌>>=◌}
use ubpf.Loader.Header.{read_tables}
use ubpf.Loader.Symbols.{Heap, collect_functions}
use ubpf.Loader.Link.{link}
use ubpf.Loader.Relocate.{relocate_sections}

-- The result of `ubpf_load`, which is called at the end, or why it is not.
pub data ElfResult : Type 0 where
  passed_on : LoadResult → ElfResult
  elf_failed : ElfError → ElfResult
  elf_fault : ElfResult

-- A list of bytes as one little-endian number.
unfoldable pub number_of : List ℕ → ℕ
number_of [] = 0
number_of (b ∷ bs) = b + 256 * number_of bs

-- `n` instructions, as `ubpf_load` reads them from the bytes.
unfoldable pub instructions : ℕ → List ℕ → List Inst
unfolding number_of decode_word
instructions zero program = []
instructions (suc n) program =
    decode_word (number_of (take 8 program)) ∷ instructions n (drop 8 program)

-- The linked program, up to the provisional success.
unfoldable pub linked_program : Vm → Heap → Elf → Option ℕ → Loading (List ℕ)
unfolding read_tables collect_functions link relocate_sections
linked_program vm heap elf main = do
  t ← read_tables elf
  fs ← collect_functions elf heap t main
  (functions, program) ← link elf heap fs
  relocate_sections vm elf t functions t.sections program

-- From the label `error` on.
unfoldable pub finish : Vm → Host → Loading (List ℕ) → Vm × ElfResult
unfolding load instructions
finish vm host (done program) =
    let (vm', result) = load vm host (instructions (length program / 8) program) (length program) in
    (vm', passed_on result)
finish vm host (failed e) = (vm, elf_failed e)
finish vm host fault = (vm, elf_fault)

unfoldable pub load_elf_ex : Vm → Host → Heap → Elf → Option ℕ → Vm × ElfResult
unfolding linked_program finish
load_elf_ex vm host heap elf main = finish vm host (linked_program vm heap elf main)

unfoldable pub load_elf : Vm → Host → Heap → Elf → Vm × ElfResult
unfolding load_elf_ex
load_elf vm host heap elf = load_elf_ex vm host heap elf none
