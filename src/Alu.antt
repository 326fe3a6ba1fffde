-- ===== src/Alu.antt =====
-- vm/ubpf_vm.c, `ubpf_exec_ex`: the arithmetic cases of the instruction switch, as functions of
-- the destination `d`, the second operand `v` and the instruction's offset. For an immediate `v`
-- is `imm` sign-extended to 64 bits, as C converts an int32_t operand; a case that casts it to
-- 32 bits or masks a shift count reads the same bits of it.
pub mod Division
pub mod Range
pub mod Swap
use Prim.Native.Nat.{bit_and, bit_or, bit_xor}
use ubpf.Prelude.{ℕ, ◌+◌, ◌-◌, ◌*◌, ◌/◌, ◌%◌, ◌^◌, Bool, ◌&&◌, ◌==◌, if◌then◌else◌}
use ubpf.Prelude.Int.{ℤ, pos, negsuc}
use ubpf.Filter.{eq_ℤ}
use ubpf.Word.{
  to_u64, to_u32, u64, u32, i64, i32, i16, i8, shift_mask_32, shift_mask_64, quot, rem, shift_right,
  swap_bytes,
}
use ubpf.Inst.{
  AluOp, add, sub, mul, div, or, and, lsh, rsh, modulo, xor, mov, arsh, Operand, from_imm, from_reg,
}

abbrev int32_lowest : ℤ
int32_lowest = negsuc 0x7fff_ffff

abbrev int64_lowest : ℤ
int64_lowest = negsuc 0x7fff_ffff_ffff_ffff

abbrev minus_one : ℤ
minus_one = negsuc 0

-- EBPF_OP_DIV_IMM and _REG, offset 1: the signed division. Zero and overflow have fixed results.
unfoldable pub signed_div32 : ℕ → ℕ → ℕ
signed_div32 d v =
    let dividend = i32 d in
    let divisor = i32 v in
    if eq_ℤ divisor (pos 0)
    then 0
    else if eq_ℤ dividend int32_lowest && eq_ℤ divisor minus_one
    then to_u32 int32_lowest
    else to_u32 (quot dividend divisor)

unfoldable pub signed_mod32 : ℕ → ℕ → ℕ
signed_mod32 d v =
    let dividend = i32 d in
    let divisor = i32 v in
    if eq_ℤ divisor (pos 0)
    then d
    else if eq_ℤ dividend int32_lowest && eq_ℤ divisor minus_one
    then 0
    else to_u32 (rem dividend divisor)

unfoldable pub signed_div64 : ℕ → ℕ → ℕ
signed_div64 d v =
    let dividend = i64 d in
    let divisor = i64 v in
    if eq_ℤ divisor (pos 0)
    then 0
    else if eq_ℤ dividend int64_lowest && eq_ℤ divisor minus_one
    then to_u64 int64_lowest
    else to_u64 (quot dividend divisor)

unfoldable pub signed_mod64 : ℕ → ℕ → ℕ
signed_mod64 d v =
    let dividend = i64 d in
    let divisor = i64 v in
    if eq_ℤ divisor (pos 0)
    then d
    else if eq_ℤ dividend int64_lowest && eq_ℤ divisor minus_one
    then 0
    else to_u64 (rem dividend divisor)

-- EBPF_OP_MOV_REG and EBPF_OP_MOV64_REG, which sign-extend by the offset.
unfoldable pub move32 : ℤ → ℕ → ℕ
move32 offset v =
    if eq_ℤ offset (pos 8)
    then to_u64 (i8 v)
    else if eq_ℤ offset (pos 16)
    then to_u64 (i16 v)
    else v

unfoldable pub move64 : ℤ → ℕ → ℕ
move64 offset v =
    if eq_ℤ offset (pos 8)
    then to_u64 (i8 v)
    else if eq_ℤ offset (pos 16)
    then to_u64 (i16 v)
    else if eq_ℤ offset (pos 32)
    then to_u64 (i32 v)
    else v

-- The value that a 32-bit case has before its `reg[inst.dst] &= UINT32_MAX`.
unfoldable pub alu32_value : AluOp → Operand → ℤ → ℕ → ℕ → ℕ
alu32_value add k offset d v = u64 (d + v)
alu32_value sub k offset d v = u64 (d + 2 ^ 64 - v)
alu32_value mul k offset d v = u64 (d * v)
alu32_value div k offset d v =
    if eq_ℤ offset (pos 0)
    then (if u32 v == 0 then 0 else u32 d / u32 v)
    else if eq_ℤ offset (pos 1)
    then signed_div32 d v
    else d
alu32_value or k offset d v = bit_or d v
alu32_value and k offset d v = bit_and d v
alu32_value lsh k offset d v = u32 (u32 d * 2 ^ shift_mask_32 v)
alu32_value rsh k offset d v = u32 d / 2 ^ shift_mask_32 v
alu32_value modulo k offset d v =
    if eq_ℤ offset (pos 0)
    then (if u32 v == 0 then u32 d else u32 d % u32 v)
    else if eq_ℤ offset (pos 1)
    then signed_mod32 d v
    else d
alu32_value xor k offset d v = bit_xor d v
alu32_value mov from_imm offset d v = v
alu32_value mov from_reg offset d v = move32 offset v
alu32_value arsh k offset d v = to_u64 (shift_right (i32 d) (shift_mask_32 v))

unfoldable pub alu32 : AluOp → Operand → ℤ → ℕ → ℕ → ℕ
alu32 op k offset d v = u32 (alu32_value op k offset d v)

unfoldable pub alu64 : AluOp → Operand → ℤ → ℕ → ℕ → ℕ
alu64 add k offset d v = u64 (d + v)
alu64 sub k offset d v = u64 (d + 2 ^ 64 - v)
alu64 mul k offset d v = u64 (d * v)
alu64 div k offset d v =
    if eq_ℤ offset (pos 0)
    then (if v == 0 then 0 else d / v)
    else if eq_ℤ offset (pos 1)
    then signed_div64 d v
    else d
alu64 or k offset d v = bit_or d v
alu64 and k offset d v = bit_and d v
alu64 lsh k offset d v = u64 (d * 2 ^ shift_mask_64 v)
alu64 rsh k offset d v = d / 2 ^ shift_mask_64 v
alu64 modulo k offset d v =
    if eq_ℤ offset (pos 0)
    then (if v == 0 then d else d % v)
    else if eq_ℤ offset (pos 1)
    then signed_mod64 d v
    else d
alu64 xor k offset d v = bit_xor d v
alu64 mov from_imm offset d v = v
alu64 mov from_reg offset d v = move64 offset v
alu64 arsh k offset d v = to_u64 (shift_right (i64 d) (shift_mask_64 v))

-- EBPF_OP_NEG and EBPF_OP_NEG64.
unfoldable pub negate32 : ℕ → ℕ
negate32 d = u32 (u64 (2 ^ 64 - d))

unfoldable pub negate64 : ℕ → ℕ
negate64 d = u64 (2 ^ 64 - d)

-- EBPF_OP_LE, EBPF_OP_BE and EBPF_OP_BSWAP on a little-endian host; any other immediate leaves
-- the register alone.
unfoldable pub to_little : ℤ → ℕ → ℕ
to_little imm d =
    if eq_ℤ imm (pos 16)
    then d % 2 ^ 16
    else if eq_ℤ imm (pos 32)
    then d % 2 ^ 32
    else if eq_ℤ imm (pos 64)
    then u64 d
    else d

unfoldable pub to_big : ℤ → ℕ → ℕ
to_big imm d =
    if eq_ℤ imm (pos 16)
    then swap_bytes 2 d
    else if eq_ℤ imm (pos 32)
    then swap_bytes 4 d
    else if eq_ℤ imm (pos 64)
    then swap_bytes 8 d
    else d
