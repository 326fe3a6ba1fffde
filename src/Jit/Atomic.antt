-- ===== src/Jit/Atomic.antt =====
-- vm/ubpf_jit_x86_64.c: the atomic operations, whose width is 1 for 64 bits and 0 for 32.
use ubpf.Prelude.{ℕ, ◌+◌, ◌-◌, ◌^◌, ◌==◌, if◌then◌else◌}
use ubpf.Prelude.Int.{ℤ}
use ubpf.Word.{u32}
use ubpf.Inst.{Size, word, double}
use ubpf.Jit.State.{JitState, emit1}
use ubpf.Jit.Emit.{
  emit_basic_rex, emit_modrm_and_displacement, emit_push, emit_pop, emit_mov, emit_load, emit_alu64,
}
use ubpf.Jit.Blinded.{r10, r11}

abbrev pub rax : ℕ
rax = 0

abbrev pub rcx : ℕ
rcx = 1

-- After the lock prefix.
unfoldable pub emit_atomic_alu : ℕ → ℕ → ℕ → ℕ → ℤ → JitState → JitState
unfolding emit1 emit_basic_rex emit_modrm_and_displacement
emit_atomic_alu opcode is_64bit src dst offset s =
    emit_modrm_and_displacement src dst offset
      (emit1 opcode (emit_basic_rex is_64bit src dst (emit1 0xf0 s)))

unfoldable pub emit_atomic_cmp_exch_with_rax : ℕ → ℕ → ℕ → ℤ → JitState → JitState
unfolding emit1 emit_basic_rex emit_modrm_and_displacement
emit_atomic_cmp_exch_with_rax is_64bit src dst offset s =
    emit_modrm_and_displacement src dst offset
      (emit1 0xb1 (emit1 0x0f (emit_basic_rex is_64bit src dst (emit1 0xf0 s))))

unfoldable pub emit_atomic_exchange : ℕ → ℕ → ℕ → ℤ → JitState → JitState
unfolding emit1 emit_basic_rex emit_modrm_and_displacement
emit_atomic_exchange is_64bit src dst offset s =
    emit_modrm_and_displacement src dst offset
      (emit1 0x87 (emit_basic_rex is_64bit src dst (emit1 0xf0 s)))

abbrev pub actual_source : ℕ → ℕ → ℕ
actual_source src dst = if src == rax then (if dst == r10 then r11 else r10) else src

abbrev pub width_of : ℕ → Size
width_of is_64bit = if is_64bit == 0 then word else double

-- What stands before the loop: RAX, or the register that takes its place, is saved.
unfoldable pub save_source : ℕ → ℕ → JitState → JitState
unfolding emit_push emit_mov
save_source src dst s =
    if src == rax
    then emit_mov src (actual_source src dst) (emit_push (actual_source src dst) s)
    else emit_push rax s

unfoldable pub restore_source : ℕ → ℕ → JitState → JitState
unfolding emit_pop emit_mov
restore_source src dst s =
    if src == rax then emit_pop (actual_source src dst) s else emit_pop rax (emit_mov rax src s)

-- `emit1(0x75)` and the distance back to the start of the loop, of 32 bits cut to a byte.
unfoldable pub emit_loop_back : ℕ → JitState → JitState
unfolding emit1
emit_loop_back loop_start s =
    let s₁ = emit1 0x75 s in emit1 (u32 (loop_start + (2 ^ 32 - u32 (s₁.offset + 1)))) s₁

unfoldable pub emit_atomic_fetch_alu : ℕ → ℕ → ℕ → ℕ → ℤ → JitState → JitState
unfolding save_source emit_load emit_mov emit_alu64 emit_atomic_cmp_exch_with_rax emit_loop_back
    restore_source
emit_atomic_fetch_alu is_64bit opcode src dst offset s =
    let s₁ = emit_load (width_of is_64bit) dst rax offset (save_source src dst s) in
    let s₂ = emit_alu64 opcode (actual_source src dst) rcx (emit_mov rax rcx s₁) in
    let s₃ = emit_atomic_cmp_exch_with_rax is_64bit rcx dst offset s₂ in
    restore_source src dst (emit_loop_back s₁.offset s₃)

-- The operations of the arithmetic atomics, by their opcodes.
pub data AtomicAlu : Type 0 where
  atomic_add atomic_or atomic_and atomic_xor : AtomicAlu

abbrev pub x64_alu : AtomicAlu → ℕ
x64_alu atomic_add = 0x01
x64_alu atomic_or = 0x09
x64_alu atomic_and = 0x21
x64_alu atomic_xor = 0x31

-- `emit_atomic_add64`, `emit_atomic_add32` and the like.
unfoldable pub emit_atomic : AtomicAlu → ℕ → ℕ → ℕ → ℤ → JitState → JitState
unfolding emit_atomic_alu
emit_atomic op is_64bit src dst offset s = emit_atomic_alu (x64_alu op) is_64bit src dst offset s

-- `emit_atomic_fetch_add64`, `emit_atomic_fetch_add32` and the like.
unfoldable pub emit_atomic_fetch : AtomicAlu → ℕ → ℕ → ℕ → ℤ → JitState → JitState
unfolding emit_atomic_fetch_alu
emit_atomic_fetch op is_64bit src dst offset s =
    emit_atomic_fetch_alu is_64bit (x64_alu op) src dst offset s
