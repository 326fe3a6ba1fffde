-- ===== src/Loader/Link.antt =====
-- vm/ubpf_loader.c, `ubpf_load_elf_ex`: the functions are copied one behind the other.
use ubpf.Prelude.{
  ℕ, ◌+◌, ◌/◌, Option, none, some, List, [], ◌∷◌, length, get_elem?, take, drop, replicate, leb,
  if◌then◌else◌,
}
use mathlib.Core.Bool.{not}
use ubpf.Loader.{
  Elf, main_not_found, no_program_memory, Loading, done, failed, fault, ◌>>=◌, put_bytes,
}
use ubpf.Loader.Symbols.{Heap, RelocatedFunction, Functions}

-- The source of a `memcpy`. The size is the symbol's, and may reach past its section.
unfoldable pub body : Elf → RelocatedFunction → Loading (List ℕ)
body elf f =
    if leb (f.native_data + f.size) (length elf)
    then done (take f.size (drop f.native_data elf))
    else fault

-- The loop over the table, from the landing spot on. A copy that ended kept to the program, so
-- the next landing spot does not wrap.
unfoldable pub link_functions :
    Elf → List (Option RelocatedFunction) → ℕ → List ℕ → Loading (List RelocatedFunction × List ℕ)
unfolding body put_bytes
link_functions elf [] spot program = done ([], program)
link_functions elf (none ∷ slots) spot program = fault
link_functions elf (some f ∷ slots) spot program = do
  bytes ← body elf f
  copied ← put_bytes program spot bytes
  (functions, linked) ← link_functions elf slots (spot + f.size) copied
  done (record f { landed = spot / 8; linked_data = spot } ∷ functions, linked)

-- From `if (!relocated_functions[0])` to the end of the loop.
unfoldable pub link : Elf → Heap → Functions → Loading (List RelocatedFunction × List ℕ)
unfolding link_functions
link elf heap fs = elim (get_elem? fs.slots 0) [
  | none ↦ fault
  | some none ↦ failed main_not_found
  | some (some main) ↦
      if not heap.program
      then failed no_program_memory
      else link_functions elf (take fs.total fs.slots) 0 (replicate fs.program_size 0)
]
