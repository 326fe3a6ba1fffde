-- ===== src/Alu/Range.antt =====
-- Every arithmetic case keeps a register within its width.
use ubpf.Prelude.{ℕ, ◌+◌, ◌*◌, ◌/◌, ◌%◌, ◌^◌, ◌<◌, ◌≤◌, zero, suc, arith}
use ubpf.Prelude.Int.{ℤ, pos, negsuc}
use ubpf.Word.{swap_bytes, shift_mask_64}
use native.Mathlib.Nat.{pow-suc}
use ubpf.Word.Bits.{bit_xor-lt, bit_or-lt, bit_and-lt}
use ubpf.Inst.{
  AluOp, add, sub, mul, div, or, and, lsh, rsh, modulo, xor, mov, arsh, Operand, from_imm, from_reg,
}
use ubpf.Alu.{
  signed_div64, signed_mod64, move64, alu32, alu64, to_big, to_little, negate64, negate32,
}
use ubpf.Word.{pattern_of}

pub pattern_of-lt64 : (z : ℤ) → pattern_of 64 z < 2 ^ 64
pattern_of-lt64 (pos n) = omega arith
pattern_of-lt64 (negsuc n) = omega arith

pub pattern_of-lt32 : (z : ℤ) → pattern_of 32 z < 2 ^ 32
pattern_of-lt32 (pos n) = omega arith
pattern_of-lt32 (negsuc n) = omega arith

div-le : (d v : ℕ) → d / v ≤ d
div-le d v = grind arith

mod-le : (d v : ℕ) → d % v ≤ d
mod-le d v = grind arith

signed_div64-lt : (d v : ℕ) → signed_div64 d v < 2 ^ 64
unfolding signed_div64
signed_div64-lt d v = ground arith

signed_mod64-lt : (d v : ℕ) → d < 2 ^ 64 → signed_mod64 d v < 2 ^ 64
unfolding signed_mod64
signed_mod64-lt d v h = ground arith

move64-lt : (offset : ℤ) (v : ℕ) → v < 2 ^ 64 → move64 offset v < 2 ^ 64
unfolding move64
move64-lt offset v h = ground arith

-- A 32-bit operation clears the upper half of its register.
pub alu32-lt : (op : AluOp) (k : Operand) (offset : ℤ) (d v : ℕ) → alu32 op k offset d v < 2 ^ 32
unfolding alu32
alu32-lt op k offset d v = omega arith

-- On words, every 64-bit operation gives a word.
pub alu64-lt :
    (op : AluOp) (k : Operand) (offset : ℤ) (d v : ℕ)
    → d < 2 ^ 64
    → v < 2 ^ 64
    → alu64 op k offset d v < 2 ^ 64
unfolding alu64
alu64-lt add k offset d v p q = omega arith
alu64-lt sub k offset d v p q = omega arith
alu64-lt mul k offset d v p q = omega arith
alu64-lt div k offset d v p q = ground (arith, signed_div64-lt d v, div-le d v)
alu64-lt or k offset d v p q = bit_or-lt 64 d v p q
alu64-lt and k offset d v p q = bit_and-lt 64 d v p q
alu64-lt lsh k offset d v p q = omega arith
alu64-lt rsh k offset d v p q = omega (arith, div-le d (2 ^ shift_mask_64 v))
alu64-lt modulo k offset d v p q = ground (arith, signed_mod64-lt d v p, mod-le d v)
alu64-lt xor k offset d v p q = bit_xor-lt 64 d v p q
alu64-lt mov from_imm offset d v p q = q
alu64-lt mov from_reg offset d v p q = move64-lt offset v q
alu64-lt arsh k offset d v p q = pattern_of-lt64 _

pub negate64-lt : (d : ℕ) → negate64 d < 2 ^ 64
unfolding negate64
negate64-lt d = omega arith

pub negate32-lt : (d : ℕ) → negate32 d < 2 ^ 32
unfolding negate32
negate32-lt d = omega arith

digit-lt : (c t r : ℕ) → c < 256 → r < t → c * t + r < t * 256
digit-lt c t r p q = grind arith

pub swap_bytes-lt : (n x : ℕ) → swap_bytes n x < 256 ^ n
unfolding swap_bytes
swap_bytes-lt zero x = omega arith
swap_bytes-lt (suc n) x =
    rw (pow-suc 256 n) (digit-lt (x % 256) (256 ^ n) _ (omega arith) (swap_bytes-lt n (x / 256)))

pub to_little-lt : (imm : ℤ) (d : ℕ) → d < 2 ^ 64 → to_little imm d < 2 ^ 64
unfolding to_little
to_little-lt imm d h = ground arith

pub to_big-lt : (imm : ℤ) (d : ℕ) → d < 2 ^ 64 → to_big imm d < 2 ^ 64
unfolding to_big
to_big-lt imm d h = ground (arith, swap_bytes-lt 2 d, swap_bytes-lt 4 d, swap_bytes-lt 8 d)
