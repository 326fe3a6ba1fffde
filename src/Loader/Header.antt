-- ===== src/Loader/Header.antt =====
-- vm/ubpf_loader.c, `ubpf_load_elf_ex`: the checks of the ELF header, the section headers, and the
-- search for the two tables.
use ubpf.Prelude.{
  ℕ, zero, suc, ◌+◌, true, false, ◌&&◌, Option, none, some, List, [], ◌∷◌, length, ltb, ◌==◌,
  if◌then◌else◌,
}
use mathlib.Core.Bool.{not}
use ubpf.Word.{u64}
use ubpf.Loader.{
  Elf, ElfError, no_header, wrong_magic, wrong_class, wrong_byte_order, wrong_version, wrong_os_abi,
  wrong_type, wrong_machine, too_many_sections, bad_section_header, bad_section, no_string_table,
  no_symbol_table, Loading, done, failed, ◌>>=◌, read, elf_bounds_check, Section,
}

abbrev pub max_sections : ℕ
max_sections = 32

-- The fields of `Elf64_Ehdr` that are used after the checks.
pub record Header : Type 0 where
  pub shoff : ℕ
  pub shentsize : ℕ
  pub shnum : ℕ

-- The checks, on the fields that they read.
unfoldable pub header_error : ℕ → ℕ → ℕ → ℕ → ℕ → ℕ → ℕ → ℕ → Option ElfError
header_error magic class encoding version os_abi type machine shnum =
    if not (magic == 0x464c457f)
    then some wrong_magic
    else if not (class == 2)
    then some wrong_class
    else if not (encoding == 1)
    then some wrong_byte_order
    else if not (version == 1)
    then some wrong_version
    else if not (os_abi == 0)
    then some wrong_os_abi
    else if not (type == 1)
    then some wrong_type
    else if not (machine == 0) && not (machine == 247)
    then some wrong_machine
    else if ltb max_sections shnum
    then some too_many_sections
    else none

unfoldable pub read_header : Elf → Loading Header
unfolding read elf_bounds_check header_error
read_header elf = elim (elf_bounds_check (length elf) 0 64) [
  | none ↦ failed no_header
  | some at ↦ do
    magic ← read 4 elf at
    class ← read 1 elf (at + 4)
    encoding ← read 1 elf (at + 5)
    version ← read 1 elf (at + 6)
    os_abi ← read 1 elf (at + 7)
    type ← read 2 elf (at + 16)
    machine ← read 2 elf (at + 18)
    shoff ← read 8 elf (at + 40)
    shentsize ← read 2 elf (at + 58)
    shnum ← read 2 elf (at + 60)
    elim (header_error magic class encoding version os_abi type machine shnum) [
      | some e ↦ failed e
      | none ↦ done (record { shoff = shoff; shentsize = shentsize; shnum = shnum })
    ]
]

-- The loop over the section headers: `left` of them, the next one at `offset`. The bound of a
-- header is the size of a pointer, so one that is cut off by the end of the image is a fault.
unfoldable pub parse_sections : Elf → ℕ → ℕ → ℕ → Loading (List Section)
unfolding read elf_bounds_check
parse_sections elf shentsize zero offset = done []
parse_sections elf shentsize (suc left) offset = elim (elf_bounds_check (length elf) offset 8) [
  | none ↦ failed bad_section_header
  | some shdr ↦ do
    sh_offset ← read 8 elf (shdr + 24)
    sh_size ← read 8 elf (shdr + 32)
    elim (elf_bounds_check (length elf) sh_offset sh_size) [
      | none ↦ failed bad_section
      | some data_at ↦ do
        rest ← parse_sections elf shentsize left (u64 (offset + shentsize))
        done (record { shdr = shdr; data_at = data_at; size = sh_size } ∷ rest)
    ]
]

-- The first section of a type: SHT_STRTAB is 3 and SHT_SYMTAB is 2.
unfoldable pub find_section : Elf → ℕ → List Section → Loading (Option Section)
unfolding read
find_section elf type [] = done none
find_section elf type (s ∷ ss) = do
  sh_type ← read 4 elf (s.shdr + 4)
  elim (sh_type == type) [ true ↦ done (some s) | false ↦ find_section elf type ss ]

-- What the rest of the loader works on.
pub record Tables : Type 0 where
  pub sections : List Section
  pub strtab : Section
  pub symtab : Section

unfoldable pub read_tables : Elf → Loading Tables
unfolding read_header parse_sections find_section
read_tables elf = do
  header ← read_header elf
  sections ← parse_sections elf header.shentsize header.shnum header.shoff
  strtab ← find_section elf 3 sections
  elim strtab [
    | none ↦ failed no_string_table
    | some names ↦ do
      symtab ← find_section elf 2 sections
      elim symtab [
        | none ↦ failed no_symbol_table
        | some symbols ↦ done (record { sections = sections; strtab = names; symtab = symbols })
      ]
  ]
