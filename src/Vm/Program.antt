-- ===== src/Vm/Program.antt =====
-- vm/ubpf_vm.c: instructions in memory. Each is a 64-bit word, stored under an exclusive or with
-- the address of the array and a secret (`ubpf_store_instruction`, `ubpf_fetch_instruction`).
pub mod RoundTrip
use Prim.Native.Nat.{bit_xor}
use ubpf.Prelude.{ℕ, ◌+◌, ◌*◌, ◌/◌, ◌%◌, ◌^◌, Option, none, some, List, get_elem?, set}
use ubpf.Prelude.Int.{ℤ}
use ubpf.Word.{pattern_of, signed}
use ubpf.Inst.{Inst}
use ubpf.Vm.{Vm}

-- `ebpf_encoded_inst`: the struct's fields in a little-endian word, bit fields from the low bits.
unfoldable pub encode : Inst → ℕ
encode i =
    i.opcode
    + 2 ^ 8
      * (i.dst + 2 ^ 4 * (i.src + 2 ^ 4 * (pattern_of 16 i.offset + 2 ^ 16 * pattern_of 32 i.imm)))

unfoldable pub decode_word : ℕ → Inst
decode_word x = record {
  opcode = x % 2 ^ 8;
  dst = x / 2 ^ 8 % 2 ^ 4;
  src = x / 2 ^ 12 % 2 ^ 4;
  offset = signed 15 (x / 2 ^ 16);
  imm = signed 31 (x / 2 ^ 32);
}

-- One exclusive or with the address and one with the secret.
unfoldable pub scramble : Vm → ℕ → ℕ
scramble vm x = bit_xor (bit_xor x vm.insts_base) vm.pointer_secret

-- An index past the array is a fault of the host.
unfoldable pub fetch_word : Vm → List ℕ → ℕ → Option Inst
unfolding decode_word scramble
fetch_word vm words pc = elim (get_elem? words pc) [
  | none ↦ none
  | some x ↦ some (decode_word (scramble vm x))
]

unfoldable pub fetch_instruction : Vm → ℕ → Option Inst
unfolding fetch_word
fetch_instruction vm pc = elim vm.insts [ none ↦ none | some words ↦ fetch_word vm words pc ]

unfoldable pub store_instruction : Vm → List ℕ → ℕ → Inst → List ℕ
unfolding encode scramble
store_instruction vm words pc i = set words pc (scramble vm (encode i))
