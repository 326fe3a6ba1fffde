-- ===== src/Memory.antt =====
-- vm/ubpf_vm.c: the loads and stores of the interpreter, on an explicit address space.
-- An address holds a byte or is not mapped. On a little-endian host the aligned access and the
-- `memcpy` of the unaligned one read and write the same bytes, so one recursion models both;
-- an access to an address that is not mapped is a fault of the host (`none`).
pub mod Frame
use Prim.Native.Nat.{bit_and, bit_or, bit_xor}
use ubpf.Prelude.{
  ℕ, zero, suc, ◌+◌, ◌*◌, ◌/◌, ◌%◌, ◌^◌, Bool, Option, none, some, ◌==◌, if◌then◌else◌,
}
use ubpf.Word.{u64, u32, to_u64, i32, i16, i8}
use ubpf.Inst.{Size, byte, half, word, double}

abbrev pub Memory : Type 0
Memory = ℕ → Option ℕ

abbrev pub size_of : Size → ℕ
size_of byte = 1
size_of half = 2
size_of word = 4
size_of double = 8

unfoldable pub write : Memory → ℕ → ℕ → Memory
write m a b x = if x == a then some b else m x

-- `ubpf_mem_load`, little-endian.
unfoldable pub mem_load : ℕ → Memory → ℕ → Option ℕ
mem_load zero m a = some 0
mem_load (suc n) m a = elim (m a) [
  | none ↦ none
  | some b ↦ elim (mem_load n m (a + 1)) [ none ↦ none | some rest ↦ some (b + 256 * rest) ]
]

-- `ubpf_mem_load_sx`; there is no sign-extending load of 8 bytes.
abbrev pub sign_extend : Size → ℕ → ℕ
sign_extend byte v = to_u64 (i8 v)
sign_extend half v = to_u64 (i16 v)
sign_extend word v = to_u64 (i32 v)
sign_extend double v = v

unfoldable pub mem_load_sx : Size → Memory → ℕ → Option ℕ
unfolding mem_load
mem_load_sx z m a = elim (mem_load (size_of z) m a) [
  | none ↦ none
  | some v ↦ some (sign_extend z v)
]

-- `ubpf_mem_store`.
unfoldable pub mem_store : ℕ → Memory → ℕ → ℕ → Option Memory
unfolding write
mem_store zero m a v = some m
mem_store (suc n) m a v = elim (m a) [
  | none ↦ none
  | some b ↦ mem_store n (write m a (v % 256)) (a + 1) (v / 256)
]
