-- ===== src/Vm/Program/RoundTrip.antt =====
-- A stored instruction is fetched as it was, whatever the secret.
use Prim.Native.Nat.{bit_xor}
use ubpf.Prelude.{
  ℕ, ◌^◌, ◌≤◌, ◌<◌, ◌≡◌, refl, arith, some, List, length, get_elem?-set_self, get_elem?-set_ne, ap,
  ◌≢◌,
}
use ubpf.Prelude.Int.{pos_part, neg_part}
use ubpf.Word.Bits.{bit_xor_twice, bit_xor-lt, bit_xor_right_comm}
use ubpf.Word.Casts.{signed_pattern16, signed_pattern32, pattern16-lt, pattern32-lt}
use ubpf.Inst.{Inst}
use ubpf.Vm.{Vm}
use ubpf.Vm.Program.{encode, decode_word, scramble, fetch_word, store_instruction}

-- The ranges of the fields of `struct ebpf_inst`.
pub record IsInst (i : Inst) : Type 0 where
  pub opcode_fits : i.opcode < 256
  pub dst_fits : i.dst < 16
  pub src_fits : i.src < 16
  pub offset_fits : (pos_part i.offset < 2 ^ 15) × (neg_part i.offset ≤ 2 ^ 15)
  pub imm_fits : (pos_part i.imm < 2 ^ 31) × (neg_part i.imm ≤ 2 ^ 31)

-- Every field of an instruction can be read back from its word.
pub decode_word-encode : (i : Inst) → IsInst i → decode_word (encode i) ≡ i
unfolding decode_word encode
decode_word-encode i fits = λ k. record {
  opcode = opcode_back k;
  dst = dst_back k;
  src = src_back k;
  offset = offset_back k;
  imm = imm_back k;
}
  where
    opcode_back : (decode_word (encode i)).opcode ≡ i.opcode
    opcode_back = omega (arith, fits.opcode_fits)

    dst_back : (decode_word (encode i)).dst ≡ i.dst
    dst_back = omega (arith, fits.opcode_fits, fits.dst_fits)

    src_back : (decode_word (encode i)).src ≡ i.src
    src_back = omega (arith, fits.opcode_fits, fits.dst_fits, fits.src_fits)

    offset_back : (decode_word (encode i)).offset ≡ i.offset
    offset_back =
        signed_pattern16 i.offset _ fits.offset_fits.0 fits.offset_fits.1
          (omega (arith, fits.opcode_fits, fits.dst_fits, fits.src_fits, pattern16-lt i.offset))

    imm_back : (decode_word (encode i)).imm ≡ i.imm
    imm_back = signed_pattern32 i.imm _ fits.imm_fits.0 fits.imm_fits.1 (
        omega (
          arith,
          fits.opcode_fits,
          fits.dst_fits,
          fits.src_fits,
          pattern16-lt i.offset,
          pattern32-lt i.imm,
        ))

encode-lt : (i : Inst) → IsInst i → encode i < 2 ^ 64
unfolding encode
encode-lt i fits = omega (
  arith,
  fits.opcode_fits,
  fits.dst_fits,
  fits.src_fits,
  pattern16-lt i.offset,
  pattern32-lt i.imm,
)

-- The two exclusive ors undo themselves.
scramble_twice :
    (vm : Vm) (x : ℕ)
    → vm.insts_base < 2 ^ 64
    → vm.pointer_secret < 2 ^ 64
    → x < 2 ^ 64
    → scramble vm (scramble vm x) ≡ x
unfolding scramble
scramble_twice vm x base secret h =
    let b = vm.insts_base in
    let s = vm.pointer_secret in
    rw
      (
        bit_xor_right_comm 64 (bit_xor x b) s b (bit_xor-lt 64 x b h base) secret base,
        bit_xor_twice 64 x b h base,
      )
      (bit_xor_twice 64 x s h secret)

-- A stored instruction with fields in range is fetched as it was, whatever the address of the
-- array and the secret.
pub fetch_word-store_instruction :
    (vm : Vm) (words : List ℕ) (pc : ℕ) (i : Inst)
    → IsInst i
    → vm.insts_base < 2 ^ 64
    → vm.pointer_secret < 2 ^ 64
    → pc < length words
    → fetch_word vm (store_instruction vm words pc i) pc ≡ some i
unfolding fetch_word store_instruction
fetch_word-store_instruction vm words pc i fits base secret h =
    rw
      (
        fetch_word,
        store_instruction,
        get_elem?-set_self words pc (scramble vm (encode i)) h,
        scramble_twice vm (encode i) base secret (encode-lt i fits),
      )
      (ap some (decode_word-encode i fits))

-- The other instructions are fetched as before.
pub fetch_word-store_other :
    (vm : Vm) (words : List ℕ) (pc other : ℕ) (i : Inst)
    → pc ≢ other
    → fetch_word vm (store_instruction vm words pc i) other ≡ fetch_word vm words other
unfolding fetch_word store_instruction
fetch_word-store_other vm words pc other i h =
    rw (fetch_word, store_instruction, get_elem?-set_ne words (scramble vm (encode i)) h) refl
