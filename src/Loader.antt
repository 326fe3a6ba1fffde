-- ===== src/Loader.antt =====
-- vm/ubpf_loader.c: the ELF loader. An image is a list of bytes; a pointer into it is a position.
-- The layouts are those of ELF64, little-endian. What C leaves undefined (a read outside the image
-- or past the parsed sections, a write outside an array) is a `fault`.
pub mod Header
pub mod Symbols
pub mod Link
pub mod Relocate
pub mod Run
pub mod Copy
pub mod Linking
pub mod Words
pub mod Calls
pub mod Running
use ubpf.Prelude.{
  ℕ, zero, suc, ◌+◌, ◌*◌, ◌/◌, ◌%◌, Bool, ◌&&◌, ◌||◌, Option, none, some, List, [], ◌∷◌, ◌++◌,
  length, get_elem?, take, drop, ltb, leb, ◌==◌, if◌then◌else◌, true, false,
}
use ubpf.Word.{u64}
use ubpf.Memory.{mem_load}

abbrev pub Elf : Type 0
Elf = List ℕ

-- The messages of the loader, in the order of the code.
pub data ElfError : Type 0 where
  no_header wrong_magic wrong_class wrong_byte_order wrong_version wrong_os_abi : ElfError
  wrong_type wrong_machine too_many_sections : ElfError
  bad_section_header bad_section no_string_table no_symbol_table no_table_memory : ElfError
  bad_function_name bad_function_section no_metadata_memory main_not_found : ElfError
  no_program_memory bad_symbol_table_index bad_symbol_index bad_symbol_name : ElfError
  bad_offset bad_data_section_index bad_data_section bad_data_size bad_instruction : ElfError
  no_data_relocation unknown_target helper_not_found : ElfError

-- A stretch of the loader: its value, the message of a `goto error`, or undefined behaviour.
pub data Loading {ℓ} (A : Type ℓ) : Type ℓ where
  done : A → Loading A
  failed : ElfError → Loading A
  fault : Loading A

infixl 5 ◌>>=◌
abbrev pub ◌>>=◌ {ℓ κ} : {A : Type ℓ} {B : Type κ} → Loading A → (A → Loading B) → Loading B
done a >>= f = f a
failed e >>= f = failed e
fault >>= f = fault

-- A little-endian field of `n` bytes.
unfoldable pub read : ℕ → List ℕ → ℕ → Loading ℕ
unfolding mem_load
read n bytes at = elim (mem_load n (get_elem? bytes) at) [ none ↦ fault | some v ↦ done v ]

-- `bounds_check`: the sum is of 64 bits.
unfoldable pub elf_bounds_check : ℕ → ℕ → ℕ → Option ℕ
elf_bounds_check bounds offset size =
    if ltb bounds (u64 (offset + size)) || ltb (u64 (offset + size)) offset
    then none
    else some offset

-- A C string, as the number with its bytes for digits: its characters are not zero, so two strings
-- are the same number only if `strcmp` finds no difference.
unfoldable pub string : List ℕ → Loading ℕ
string [] = fault
string (b ∷ bs) = elim (b == 0) [
  | true ↦ done 0
  | false ↦ string bs >>= λ rest. done (b + 256 * rest)
]

unfoldable pub string_at : Elf → ℕ → Loading ℕ
unfolding string
string_at elf at = string (drop at elf)

-- `section`: the positions of the header and of the data.
pub record Section : Type 0 where
  pub shdr : ℕ
  pub data_at : ℕ
  pub size : ℕ

-- `sections[i]`, where only the parsed sections are set.
unfoldable pub section_at : List Section → ℕ → Loading Section
section_at sections i = elim (get_elem? sections i) [ none ↦ fault | some s ↦ done s ]

-- `shdr->sh_type != type || shdr->sh_flags != flags`, the other way round.
unfoldable pub has_kind : Elf → Section → ℕ → ℕ → Loading Bool
unfolding read
has_kind elf s type flags = do
  sh_type ← read 4 elf (s.shdr + 4)
  sh_flags ← read 8 elf (s.shdr + 8)
  done ((sh_type == type) && (sh_flags == flags))

-- SHF_ALLOC | SHF_EXECINSTR, and SHF_ALLOC | SHF_WRITE, of a section with SHT_PROGBITS.
abbrev pub executable : ℕ
executable = 6

abbrev pub writable : ℕ
writable = 3

abbrev pub sht_progbits : ℕ
sht_progbits = 1

-- `memcpy` into an array: the bytes overwrite those at `at`.
unfoldable pub put_bytes : List ℕ → ℕ → List ℕ → Loading (List ℕ)
put_bytes array at bytes =
    if leb (at + length bytes) (length array)
    then done (take at array ++ (bytes ++ drop (at + length bytes) array))
    else fault
