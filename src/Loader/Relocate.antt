-- ===== src/Loader/Relocate.antt =====
-- vm/ubpf_loader.c, `ubpf_load_elf_ex`: the relocations, on the bytes of the linked program.
use ubpf.Prelude.{
  ℕ, zero, suc, ◌+◌, ◌-◌, ◌*◌, ◌/◌, ◌%◌, ◌^◌, Bool, true, false, ◌&&◌, ◌||◌, Option, none, some,
  List, [], ◌∷◌, length, ltb, leb, ◌==◌, if◌then◌else◌,
}
use mathlib.Core.Bool.{not}
use ubpf.Word.{u32, u64}
use ubpf.Vm.{Vm}
use ubpf.Api.{lookup_registered_function}
use ubpf.Loader.{
  Elf, bad_symbol_table_index, bad_symbol_index, bad_symbol_name, bad_offset,
  bad_data_section_index, bad_data_section, bad_data_size, bad_instruction, no_data_relocation,
  unknown_target, helper_not_found, Loading, done, failed, ◌>>=◌, read, string_at, Section,
  section_at, has_kind, executable, writable, sht_progbits, put_bytes,
}
use ubpf.Loader.Header.{Tables}
use ubpf.Loader.Symbols.{RelocatedFunction, strtab_size}

-- `Elf64_Sym`.
pub record Symbol : Type 0 where
  pub st_name : ℕ
  pub st_shndx : ℕ
  pub st_value : ℕ
  pub st_size : ℕ

unfoldable pub read_symbol : Elf → ℕ → Loading Symbol
unfolding read
read_symbol elf at = do
  name ← read 4 elf at
  shndx ← read 2 elf (at + 6)
  value ← read 8 elf (at + 8)
  size ← read 8 elf (at + 16)
  done (record { st_name = name; st_shndx = shndx; st_value = value; st_size = size })

unfoldable pub bytes_of : ℕ → ℕ → List ℕ
bytes_of zero v = []
bytes_of (suc n) v = v % 256 ∷ bytes_of n (v / 256)

-- `inst->imm = v` for the instruction at `at`.
unfoldable pub put_imm : List ℕ → ℕ → ℕ → Loading (List ℕ)
unfolding put_bytes bytes_of
put_imm program at v = put_bytes program (at + 4) (bytes_of 4 v)

-- The first function of a section with the relocated instruction in it.
unfoldable pub covers : ℕ → ℕ → RelocatedFunction → Bool
covers shdr offset f =
    (shdr == f.shdr)
    && (leb f.native_section_start offset && ltb offset (u64 (f.native_section_start + f.size)))

unfoldable pub source_function : ℕ → ℕ → List RelocatedFunction → Option RelocatedFunction
unfolding covers
source_function shdr offset [] = none
source_function shdr offset (f ∷ fs) =
    let rest = source_function shdr offset fs in if covers shdr offset f then some f else rest

-- The first function of a section that starts at an offset.
unfoldable pub target_function : ℕ → ℕ → List RelocatedFunction → Option RelocatedFunction
target_function shdr offset [] = none
target_function shdr offset (f ∷ fs) =
    let rest = target_function shdr offset fs in
    if (shdr == f.shdr) && (offset == f.native_section_start) then some f else rest

-- Where the relocated instruction is in the linked program, in bytes and in instructions.
abbrev pub applies_to : RelocatedFunction → ℕ → ℕ
applies_to f offset = f.linked_data + (offset - f.native_section_start)

abbrev pub applies_to_index : RelocatedFunction → ℕ → ℕ
applies_to_index f offset = f.landed + (offset - f.native_section_start) / 8

-- R_BPF_64_64 after its checks: both halves of the constant.
unfoldable pub put_constant : List ℕ → ℕ → ℕ → Loading (List ℕ)
unfolding put_imm
put_constant program at imm = do
  low ← put_imm program at (u32 imm)
  put_imm low (at + 8) (u32 (imm / 2 ^ 32))

-- R_BPF_64_64.
unfoldable pub relocate_data :
    Vm → Elf → Tables → Section → Symbol → ℕ → ℕ → List ℕ → Loading (List ℕ)
unfolding read section_at has_kind put_constant
relocate_data vm elf t target sym offset at program = elim (ltb target.size (u64 (offset + 8))) [
  | true ↦ failed bad_offset
  | false ↦ elim (ltb (length t.sections) sym.st_shndx) [
    | true ↦ failed bad_data_section_index
    | false ↦ do
      data_section ← section_at t.sections sym.st_shndx
      ok ← has_kind elf data_section sht_progbits writable
      elim (not ok) [
        | true ↦ failed bad_data_section
        | false ↦ elim (ltb data_section.size (u64 (sym.st_size + sym.st_value))) [
          | true ↦ failed bad_data_size
          | false ↦ do
            opcode ← read 1 program at
            elim (not (opcode == 0x18)) [
              | true ↦ failed bad_instruction
              | false ↦ elim (ltb target.size (u64 (offset + 16))) [
                | true ↦ failed bad_offset
                | false ↦ elim vm.data_relocation_function [
                  | none ↦ failed no_data_relocation
                  | some resolve ↦
                      let name = t.strtab.data_at + sym.st_name in
                      put_constant program at (
                        resolve elf data_section.data_at data_section.size name sym.st_value
                          sym.st_size)
                ]
              ]
            ]
        ]
      ]
  ]
]

-- `(inst->imm + 1) * 8` as an unsigned int. (The sum wraps where C leaves it undefined.)
abbrev pub offset_in_target : ℕ → ℕ
offset_in_target imm = u32 ((imm + 1) * 8)

-- `target_function->landed - (applies_to_inst_index + 1)`, cut to the 32 bits of the field.
abbrev pub call_distance : RelocatedFunction → ℕ → ℕ
call_distance target index = u32 (u64 (target.landed + (2 ^ 64 - u64 (index + 1))))

-- A call with `src == 1`: the section's index is not checked.
unfoldable pub relocate_call :
    Tables → List RelocatedFunction → Symbol → ℕ → ℕ → List ℕ → Loading (List ℕ)
unfolding read section_at target_function put_imm
relocate_call t fs sym index at program = do
  section ← section_at t.sections sym.st_shndx
  imm ← read 4 program (at + 4)
  elim (target_function section.shdr (offset_in_target imm) fs) [
    | none ↦ failed unknown_target
    | some target ↦ put_imm program at (call_distance target index)
  ]

-- A call of a helper, by its name.
unfoldable pub relocate_helper : Vm → Elf → Tables → Symbol → ℕ → List ℕ → Loading (List ℕ)
unfolding string_at lookup_registered_function put_imm
relocate_helper vm elf t sym at program = do
  name ← string_at elf (t.strtab.data_at + sym.st_name)
  elim (lookup_registered_function vm name) [
    | none ↦ failed helper_not_found
    | some idx ↦ put_imm program at idx
  ]

-- The switch on the type; types 2 and 10 are R_BPF_64_32. Another type is skipped.
unfoldable pub relocate_in :
    Vm
    → Elf
    → Tables
    → List RelocatedFunction
    → Section
    → Symbol
    → ℕ
    → ℕ
    → RelocatedFunction
    → List ℕ
    → Loading (List ℕ)
unfolding read relocate_data relocate_call relocate_helper
relocate_in vm elf t fs target sym type offset f program =
    let at = applies_to f offset in
    elim (type == 1) [
      | true ↦ relocate_data vm elf t target sym offset at program
      | false ↦ elim ((type == 2) || (type == 10)) [
        | true ↦ do
          registers ← read 1 program (at + 1)
          elim (registers / 16 == 1) [
            | true ↦ relocate_call t fs sym (applies_to_index f offset) at program
            | false ↦ relocate_helper vm elf t sym at program
          ]
        | false ↦ done program
      ]
    ]

-- One entry of a relocation section, at `rel` in the image.
unfoldable pub relocate_entry :
    Vm → Elf → Tables → List RelocatedFunction → Section → Section → ℕ → List ℕ → Loading (List ℕ)
unfolding read read_symbol source_function relocate_in
relocate_entry vm elf t fs target symtab rel program = do
  offset ← read 8 elf rel
  info ← read 8 elf (rel + 8)
  elim (leb (u32 (symtab.size / 24)) (info / 2 ^ 32)) [
    | true ↦ failed bad_symbol_index
    | false ↦ do
      sym ← read_symbol elf (symtab.data_at + 24 * (info / 2 ^ 32))
      elim (leb (strtab_size t) sym.st_name) [
        | true ↦ failed bad_symbol_name
        | false ↦ elim (source_function target.shdr offset fs) [
          | none ↦ failed bad_symbol_name
          | some f ↦ relocate_in vm elf t fs target sym (u32 info) offset f program
        ]
      ]
  ]

unfoldable pub relocate_entries :
    Vm
    → Elf
    → Tables
    → List RelocatedFunction
    → Section
    → Section
    → ℕ
    → ℕ
    → List ℕ
    → Loading (List ℕ)
unfolding relocate_entry
relocate_entries vm elf t fs target symtab zero rel program = done program
relocate_entries vm elf t fs target symtab (suc left) rel program = do
  next ← relocate_entry vm elf t fs target symtab rel program
  relocate_entries vm elf t fs target symtab left (rel + 16) next

-- One section: only those with SHT_REL that apply to an executable section count. The index of
-- that section is not checked, and an index of a symbol table that is negative as an int passes.
unfoldable pub relocate_section :
    Vm → Elf → Tables → List RelocatedFunction → Section → List ℕ → Loading (List ℕ)
unfolding read section_at has_kind relocate_entries
relocate_section vm elf t fs s program = do
  sh_type ← read 4 elf (s.shdr + 4)
  elim (sh_type == 9) [
    | false ↦ done program
    | true ↦ do
      sh_info ← read 4 elf (s.shdr + 44)
      sh_link ← read 4 elf (s.shdr + 40)
      target ← section_at t.sections sh_info
      ok ← has_kind elf target sht_progbits executable
      elim ok [
        | false ↦ done program
        | true ↦ elim (ltb sh_link (2 ^ 31) && leb (length t.sections) sh_link) [
          | true ↦ failed bad_symbol_table_index
          | false ↦ do
            symtab ← section_at t.sections sh_link
            relocate_entries vm elf t fs target symtab (s.size / 16) s.data_at program
        ]
      ]
  ]

unfoldable pub relocate_sections :
    Vm → Elf → Tables → List RelocatedFunction → List Section → List ℕ → Loading (List ℕ)
unfolding relocate_section
relocate_sections vm elf t fs [] program = done program
relocate_sections vm elf t fs (s ∷ ss) program = do
  next ← relocate_section vm elf t fs s program
  relocate_sections vm elf t fs ss next
