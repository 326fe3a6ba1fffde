-- ===== src/Alu/Swap.antt =====
-- vm/ubpf_vm.c: EBPF_OP_BE and EBPF_OP_BSWAP reverse the low bytes of a register.
use ubpf.Prelude.{ℕ, suc, zero, ◌-◌, ◌/◌, ◌%◌, ◌^◌, ◌<◌, ◌≡◌, arith}
use ubpf.Prelude.Int.{pos}
use ubpf.Word.{swap_bytes}
use ubpf.Alu.{to_big}
use ubpf.Alu.Range.{swap_bytes-lt}

-- The byte `k` of a number, from the lowest.
abbrev pub byte_at : ℕ → ℕ → ℕ
byte_at k d = d / 256 ^ k % 256

-- The number has `n` bytes, and they are the lowest `n` of `d` in reverse.
abbrev pub Reverses : ℕ → ℕ → ℕ → Type 0
Reverses n d x = (x < 256 ^ n) × ((k : ℕ) → k < n → byte_at k x ≡ byte_at (n - 1 - k) d)

bytes_2 : (d k : ℕ) → k < 2 → byte_at k (swap_bytes 2 d) ≡ byte_at (2 - 1 - k) d
unfolding swap_bytes
bytes_2 d zero h = omega arith
bytes_2 d (suc zero) h = omega arith
bytes_2 d (suc (suc k)) h = absurd (omega arith)

bytes_4 : (d k : ℕ) → k < 4 → byte_at k (swap_bytes 4 d) ≡ byte_at (4 - 1 - k) d
unfolding swap_bytes
bytes_4 d zero h = omega arith
bytes_4 d (suc zero) h = omega arith
bytes_4 d (suc (suc zero)) h = omega arith
bytes_4 d (suc (suc (suc zero))) h = omega arith
bytes_4 d (suc (suc (suc (suc k)))) h = absurd (omega arith)

bytes_8 : (d k : ℕ) → k < 8 → byte_at k (swap_bytes 8 d) ≡ byte_at (8 - 1 - k) d
unfolding swap_bytes
bytes_8 d zero h = omega arith
bytes_8 d (suc zero) h = omega arith
bytes_8 d (suc (suc zero)) h = omega arith
bytes_8 d (suc (suc (suc zero))) h = omega arith
bytes_8 d (suc (suc (suc (suc zero)))) h = omega arith
bytes_8 d (suc (suc (suc (suc (suc zero))))) h = omega arith
bytes_8 d (suc (suc (suc (suc (suc (suc zero)))))) h = omega arith
bytes_8 d (suc (suc (suc (suc (suc (suc (suc zero))))))) h = omega arith
bytes_8 d (suc (suc (suc (suc (suc (suc (suc (suc k)))))))) h = absurd (omega arith)

-- EBPF_OP_BE and EBPF_OP_BSWAP of 16, 32 or 64 bits leave so many bits of the register, in reverse
-- order of the bytes.
pub to_big-Reverses :
    (d : ℕ)
    → Reverses 2 d (to_big (pos 16) d)
      × Reverses 4 d (to_big (pos 32) d)
      × Reverses 8 d (to_big (pos 64) d)
unfolding to_big
to_big-Reverses d =
    ((swap_bytes-lt 2 d, bytes_2 d), (swap_bytes-lt 4 d, bytes_4 d), (swap_bytes-lt 8 d, bytes_8 d))
