-- ===== src/Tests/Images.antt =====
-- An ELF image with two functions and the relocation of the call between them.
use ubpf.Prelude.{
  ℕ, ◌+◌, ◌^◌, ◌≡◌, refl, arith, true, none, some, List, [], ◌∷◌, ◌++◌, inl, length, ◌-◌, ◌/◌, ◌%◌,
  take, get_elem?, drop,
}
use ubpf.Prelude.Int.{pos, negsuc}
use ubpf.Vm.{Vm}
use ubpf.Vm.Program.{encode}
use ubpf.Loader.{Elf, Section, done, read, section_at, main_not_found}
use ubpf.Loader.Header.{Tables}
use ubpf.Loader.Symbols.{Heap, RelocatedFunction, Functions}
use ubpf.Loader.Link.{link}
use ubpf.Loader.Linking.{Table, link-Placed, body_of, sizes}
use ubpf.Loader.Relocate.{Symbol, bytes_of, target_function, offset_in_target, relocate_call}
use ubpf.Loader.Calls.{relocate_call-Lands}
use ubpf.Loader.Run.{elf_failed, load_elf, finish}
use ubpf.Tests.Setup.{instruction, host, limited_vm}

abbrev header : List ℕ
header =
    0x7f ∷ 0x45 ∷ 0x4c ∷ 0x46 ∷ 2 ∷ 1 ∷ 1 ∷ 0 ∷ bytes_of 8 0
    ++ bytes_of 2 1
    ++ bytes_of 2 247
    ++ bytes_of 4 1
    ++ bytes_of 8 0
    ++ bytes_of 8 0
    ++ bytes_of 8 64
    ++ bytes_of 8 0
    ++ bytes_of 2 0
    ++ bytes_of 2 64
    ++ bytes_of 2 5
    ++ bytes_of 2 0

abbrev section : ℕ → ℕ → ℕ → ℕ → ℕ → ℕ → List ℕ
section type flags offset size link_to info =
    bytes_of 4 0
    ++ bytes_of 4 type
    ++ bytes_of 8 flags
    ++ bytes_of 8 0
    ++ bytes_of 8 offset
    ++ bytes_of 8 size
    ++ bytes_of 4 link_to
    ++ bytes_of 4 info
    ++ bytes_of 8 0
    ++ bytes_of 8 0

abbrev symbol : ℕ → ℕ → ℕ → ℕ → ℕ → List ℕ
symbol name info shndx value size =
    bytes_of 4 name ++ (info ∷ 0 ∷ bytes_of 2 shndx) ++ bytes_of 8 value ++ bytes_of 8 size

-- f: r0 = 5; exit. m: call f; exit. The names are "m" at 1 and "f" at 3.
abbrev text : List ℕ
text =
    bytes_of 8 (encode (instruction 0xb7 0 0 (pos 0) (pos 5)))
    ++ bytes_of 8 (encode (instruction 0x95 0 0 (pos 0) (pos 0)))
    ++ bytes_of 8 (encode (instruction 0x85 0 1 (pos 0) (negsuc 0)))
    ++ bytes_of 8 (encode (instruction 0x95 0 0 (pos 0) (pos 0)))

abbrev image : Elf
image =
    header
    ++ section 0 0 0 0 0 0
    ++ section 1 6 384 32 0 0
    ++ section 3 0 416 5 0 0
    ++ section 2 0 421 72 0 0
    ++ section 9 0 493 16 3 1
    ++ text
    ++ (0 ∷ 0x6d ∷ 0 ∷ 0x66 ∷ 0 ∷ [])
    ++ symbol 0 0 0 0 0
    ++ symbol 3 0x12 1 0 16
    ++ symbol 1 0x12 1 16 16
    ++ bytes_of 8 16
    ++ bytes_of 8 (2 ^ 32 + 10)

abbrev heap : Heap
heap = record { table = true; metadata = λ i. true; program = true }

-- Without a main function's name the image has none, since no section is called ".text".
no_main : load_elf limited_vm host heap image ≡ (limited_vm, elf_failed main_not_found)
unfolding load_elf
no_main = refl

-- m, then f, with the call one instruction on.
abbrev linked : List ℕ
linked =
    bytes_of 8 (encode (instruction 0x85 0 1 (pos 0) (pos 1)))
    ++ bytes_of 8 (encode (instruction 0x95 0 0 (pos 0) (pos 0)))
    ++ bytes_of 8 (encode (instruction 0xb7 0 0 (pos 0) (pos 5)))
    ++ bytes_of 8 (encode (instruction 0x95 0 0 (pos 0) (pos 0)))

abbrev linked_vm : Vm
unfolding finish
linked_vm = (finish limited_vm host (done linked)).0

-- The two functions of the image, and the table with m in front.
abbrev function : ℕ → ℕ → ℕ → RelocatedFunction
function name data_at start = record {
  name = 416 + name;
  shdr = 128;
  native_data = data_at;
  linked_data = 0;
  native_section_start = start;
  size = 16;
  landed = 0;
}

abbrev table : Functions
table = record {
  slots = some (function 1 400 16) ∷ some (function 3 384 0) ∷ none ∷ [];
  total = 2;
  program_size = 32;
}

table-Table : Table table (function 1 400 16) (function 3 384 0 ∷ [])
unfolding sizes
table-Table = record { used = refl; first = refl; fits = omega arith }

link-Placed_example :
    (functions : List RelocatedFunction) × (program : List ℕ) × (at : ℕ) × (link image heap table
      ≡ done (functions, program))
    × (length program ≡ 32)
    × (at ≡ sizes (take 1 (function 1 400 16 ∷ function 3 384 0 ∷ [])))
    × (get_elem? functions 1
        ≡ some (record (function 3 384 0) { landed = at / 8; linked_data = at }))
    × (take 16 (drop at program) ≡ body_of image (function 3 384 0))
unfolding bytes_of
link-Placed_example =
    link-Placed image heap table (function 1 400 16) (function 3 384 0 ∷ []) 1 (function 3 384 0)
      refl table-Table (omega arith, omega arith) refl

abbrev text_section : Section
text_section = record { shdr = 128; data_at = 384; size = 32 }

abbrev tables : Tables
tables = record {
  sections = record { shdr = 64; data_at = 0; size = 0 } ∷ text_section ∷ [];
  strtab = record { shdr = 192; data_at = 416; size = 5 };
  symtab = record { shdr = 256; data_at = 421; size = 72 };
}

abbrev f_symbol : Symbol
f_symbol = record { st_name = 3; st_shndx = 1; st_value = 0; st_size = 16 }

abbrev landed_functions : List RelocatedFunction
landed_functions =
    function 1 400 16 ∷ record (function 3 384 0) { landed = 2; linked_data = 16 } ∷ []

abbrev call_bytes : ℕ → List ℕ
call_bytes imm = 0x85 ∷ 0x10 ∷ 0 ∷ 0 ∷ bytes_of 4 imm

call-relocated :
    relocate_call tables landed_functions f_symbol 0 0 (call_bytes (2 ^ 32 - 1))
    ≡ done (call_bytes 1)
unfolding relocate_call bytes_of
call-relocated = refl

relocate_call-Lands_example :
    (s : Section) × (old imm : ℕ) × (target : RelocatedFunction) × (section_at tables.sections 1
      ≡ done s)
    × (read 4 (call_bytes (2 ^ 32 - 1)) 4 ≡ done old)
    × (target_function s.shdr (offset_in_target old) landed_functions ≡ some target)
    × (read 4 (call_bytes 1) 4 ≡ done imm)
    × ((0 + 1 + imm) % 2 ^ 32 ≡ target.landed % 2 ^ 32)
    × (get_elem? (call_bytes 1) 0 ≡ get_elem? (call_bytes (2 ^ 32 - 1)) 0)
relocate_call-Lands_example =
    relocate_call-Lands tables landed_functions f_symbol 0 0 0 (call_bytes (2 ^ 32 - 1))
      (call_bytes 1) call-relocated (inl (omega arith))
