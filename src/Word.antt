-- ===== src/Word.antt =====
-- Machine words as the interpreter of vm/ubpf_vm.c uses them: casts between the signed and the
-- unsigned types of one width, shifts, truncated signed division and byte swaps.
-- A `uint64_t` is a native ℕ; an `int32_t`, `int64_t` or `int16_t` is the integer it stands for.
pub mod Bits
pub mod Casts
use ubpf.Prelude.{ℕ, zero, suc, ◌+◌, ◌-◌, ◌*◌, ◌/◌, ◌%◌, ◌^◌, Bool, ltb, leb, ◌==◌, if◌then◌else◌}
use ubpf.Prelude.Int.{ℤ, pos, negsuc, pos_part, neg_part}

-- The bit pattern of width `w` that a signed integer has, as a cast to `uintw_t` gives it.
abbrev pub pattern_of : ℕ → ℤ → ℕ
pattern_of w (pos n) = n % 2 ^ w
pattern_of w (negsuc n) = 2 ^ w - 1 - n % 2 ^ w

-- The signed integer that the low `w + 1` bits of a word stand for (two's complement).
abbrev pub signed : ℕ → ℕ → ℤ
signed w x =
    let low = x % 2 ^ suc w in if ltb low (2 ^ w) then pos low else negsuc (2 ^ suc w - 1 - low)

abbrev pub to_u64 : ℤ → ℕ
to_u64 z = pattern_of 64 z

abbrev pub to_u32 : ℤ → ℕ
to_u32 z = pattern_of 32 z

-- The cast `(uint64_t)x` of a sum or a product.
abbrev pub u64 : ℕ → ℕ
u64 x = x % 2 ^ 64

abbrev pub u32 : ℕ → ℕ
u32 x = x % 2 ^ 32

abbrev pub u16 : ℕ → ℕ
u16 x = x % 2 ^ 16

abbrev pub i32 : ℕ → ℤ
i32 x = signed 31 x

abbrev pub i64 : ℕ → ℤ
i64 x = signed 63 x

abbrev pub i16 : ℕ → ℤ
i16 x = signed 15 x

abbrev pub i8 : ℕ → ℤ
i8 x = signed 7 x

-- `SHIFT_MASK_32_BIT`, `SHIFT_MASK_64_BIT`: `x & 0x1f` and `x & 0x3f`.
abbrev pub shift_mask_32 : ℕ → ℕ
shift_mask_32 x = x % 32

abbrev pub shift_mask_64 : ℕ → ℕ
shift_mask_64 x = x % 64

abbrev pub negate : ℕ → ℤ
negate zero = pos 0
negate (suc n) = negsuc n

-- C's `/` and `%` on signed integers: towards zero, the remainder with the dividend's sign.
unfoldable pub quot : ℤ → ℤ → ℤ
quot (pos a) (pos b) = pos (a / b)
quot (pos a) (negsuc b) = negate (a / suc b)
quot (negsuc a) (pos b) = negate (suc a / b)
quot (negsuc a) (negsuc b) = pos (suc a / suc b)

unfoldable pub rem : ℤ → ℤ → ℤ
rem (pos a) (pos b) = pos (a % b)
rem (pos a) (negsuc b) = pos (a % suc b)
rem (negsuc a) (pos b) = negate (suc a % b)
rem (negsuc a) (negsuc b) = negate (suc a % suc b)

-- The arithmetic right shift.
unfoldable pub shift_right : ℤ → ℕ → ℤ
shift_right (pos n) k = pos (n / 2 ^ k)
shift_right (negsuc n) k = negsuc (n / 2 ^ k)

-- `htobe16` and the like on a little-endian host: the low bytes of `x`, in reverse order.
unfoldable pub swap_bytes : ℕ → ℕ → ℕ
swap_bytes zero x = 0
swap_bytes (suc n) x = x % 256 * 256 ^ n + swap_bytes n (x / 256)
