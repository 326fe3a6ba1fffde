-- ===== src/Loader/Symbols.antt =====
-- vm/ubpf_loader.c, `ubpf_load_elf_ex`: the table of the functions, from the symbols.
use ubpf.Prelude.{
  ℕ, zero, suc, ◌+◌, ◌*◌, ◌/◌, ◌%◌, Bool, true, false, ◌&&◌, Option, none, some, List, length, set,
  replicate, ltb, leb, ◌==◌, if◌then◌else◌,
}
use mathlib.Core.Bool.{not}
use ubpf.Word.{u32, i32, to_u64}
use ubpf.Loader.{
  Elf, no_table_memory, bad_function_name, bad_function_section, no_metadata_memory, Loading, done,
  failed, fault, ◌>>=◌, read, string_at, section_at, has_kind, executable, sht_progbits,
}
use ubpf.Loader.Header.{Tables}

-- Whether the allocations succeed: of the table, of the record for a symbol, of the program.
pub record Heap : Type 0 where
  pub table : Bool
  pub metadata : ℕ → Bool
  pub program : Bool

-- `struct relocated_function`.
pub record RelocatedFunction : Type 0 where
  pub name : ℕ
  pub shdr : ℕ
  pub native_data : ℕ
  pub linked_data : ℕ
  pub native_section_start : ℕ
  pub size : ℕ
  pub landed : ℕ

-- `relocated_functions` (`none` for NULL), `total_functions` and `linked_program_size`.
pub record Functions : Type 0 where
  pub slots : List (Option RelocatedFunction)
  pub total : ℕ
  pub program_size : ℕ

-- The size of the string table is an int, which is compared as an unsigned number.
abbrev pub strtab_size : Tables → ℕ
strtab_size t = u32 t.strtab.size

-- The size of the symbol table is an int, which is divided as a number of 64 bits.
abbrev pub total_symbols : Tables → ℕ
total_symbols t = to_u64 (i32 t.symtab.size) / 24

-- ".text", as `string` reads it.
abbrev pub dot_text : ℕ
dot_text = 0x747865742e

-- `is_main_function || is_default_main_function`.
unfoldable pub is_main : Elf → Tables → Option ℕ → RelocatedFunction → Loading Bool
unfolding read string_at
is_main elf t (some main) f = do name ← string_at elf f.name; done (name == main)
is_main elf t none f = do
  sh_name ← read 4 elf f.shdr
  section ← string_at elf (t.strtab.data_at + sh_name)
  done ((section == dot_text) && (f.native_section_start == 0))

-- `relocated_functions[slot] = calloc(...)`, which the table may be too small for.
unfoldable pub store : Bool → ℕ → RelocatedFunction → Functions → Loading Functions
store allocated slot f fs =
    if leb (length fs.slots) slot
    then fault
    else if not allocated
    then failed no_metadata_memory
    else done (record fs { slots = set fs.slots slot (some f) })

unfoldable pub add_function : Bool → Bool → RelocatedFunction → Functions → Loading Functions
unfolding store
add_function allocated main f fs =
    let sized = record fs { program_size = u32 (fs.program_size + f.size) } in
    if main
    then store allocated 0 f sized
    else store allocated fs.total f (record sized { total = u32 (fs.total + 1) })

-- A symbol with STT_FUNC. The message about a section that is not executable formats the number
-- `st_name` as a string, so that branch is a fault.
unfoldable pub function_symbol :
    Elf → Heap → Tables → Option ℕ → ℕ → ℕ → Functions → Loading Functions
unfolding read section_at has_kind is_main add_function
function_symbol elf heap t main i at fs = do
  st_name ← read 4 elf at
  elim (leb (strtab_size t) st_name) [
    | true ↦ failed bad_function_name
    | false ↦ do
      st_shndx ← read 2 elf (at + 6)
      elim (ltb (length t.sections) st_shndx) [
        | true ↦ failed bad_function_section
        | false ↦ do
          s ← section_at t.sections st_shndx
          ok ← has_kind elf s sht_progbits executable
          elim ok [
            | false ↦ fault
            | true ↦ do
              st_value ← read 8 elf (at + 8)
              st_size ← read 8 elf (at + 16)
              let f : RelocatedFunction = record {
                name = t.strtab.data_at + st_name;
                shdr = s.shdr;
                native_data = s.data_at + st_value;
                linked_data = 0;
                native_section_start = st_value;
                size = st_size;
                landed = 0;
              }
              chosen ← is_main elf t main f
              add_function (heap.metadata i) chosen f fs
          ]
      ]
  ]

-- One round of the loop over the symbols; the low four bits of `st_info` are the type.
unfoldable pub add_symbol : Elf → Heap → Tables → Option ℕ → ℕ → Functions → Loading Functions
unfolding read function_symbol
add_symbol elf heap t main i fs = do
  st_info ← read 1 elf (t.symtab.data_at + 24 * i + 4)
  elim (st_info % 16 == 2) [
    | false ↦ done fs
    | true ↦ function_symbol elf heap t main i (t.symtab.data_at + 24 * i) fs
  ]

unfoldable pub add_symbols : Elf → Heap → Tables → Option ℕ → ℕ → ℕ → Functions → Loading Functions
unfolding add_symbol
add_symbols elf heap t main zero i fs = done fs
add_symbols elf heap t main (suc left) i fs = do
  more ← add_symbol elf heap t main i fs
  add_symbols elf heap t main left (i + 1) more

-- The table of the functions, with room for one function for each symbol.
unfoldable pub collect_functions : Elf → Heap → Tables → Option ℕ → Loading Functions
unfolding add_symbols
collect_functions elf heap t main =
    if not heap.table
    then failed no_table_memory
    else add_symbols elf heap t main (total_symbols t) 0
        (record { slots = replicate (total_symbols t) none; total = 1; program_size = 0 })
