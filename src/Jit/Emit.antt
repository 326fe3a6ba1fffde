-- ===== src/Jit/Emit.antt =====
-- vm/ubpf_jit_x86_64.c: the instructions that the back end writes. Registers are the machine's
-- numbers, 0 to 15. Where C joins bit fields that do not overlap, the fields are added.
use ubpf.Prelude.{ℕ, ◌+◌, ◌*◌, ◌/◌, ◌%◌, ◌^◌, Bool, false, ◌&&◌, ltb, leb, ◌==◌, if◌then◌else◌}
use mathlib.Core.Bool.{not}
use ubpf.Prelude.Int.{ℤ, negsuc, pos_part, neg_part}
use ubpf.Word.{to_u32, to_u64, pattern_of}
use ubpf.Inst.{Size, byte, half, word, double}
use ubpf.Jit.State.{
  JitState, PatchableTarget, special, regular, emit1, emit2, emit4, emit8, emit_jump_address_reloc,
}

-- Registers that some encodings treat apart.
abbrev pub rsp : ℕ
rsp = 4

abbrev pub rbp : ℕ
rbp = 5

abbrev pub r12 : ℕ
r12 = 12

abbrev pub r13 : ℕ
r13 = 13

-- The ModRM byte, of a mode that is a multiple of 64.
unfoldable pub emit_modrm : ℕ → ℕ → ℕ → JitState → JitState
unfolding emit1
emit_modrm mode r m s = emit1 (mode + r % 8 * 8 + m % 8) s

unfoldable pub emit_modrm_reg2reg : ℕ → ℕ → JitState → JitState
unfolding emit_modrm
emit_modrm_reg2reg r m s = emit_modrm 0xc0 r m s

-- `d >= -128 && d <= 127`.
abbrev pub is_near : ℤ → Bool
is_near d = ltb (pos_part d) 128 && leb (neg_part d) 128

abbrev pub is_zero : ℤ → Bool
is_zero d = pos_part d + neg_part d == 0

-- `rm != RSP && rm != RBP && rm != R12 && rm != R13`.
abbrev pub without_displacement : ℕ → Bool
without_displacement rm = not (rm == rsp) && not (rm == rbp) && not (rm == r12) && not (rm == r13)

unfoldable pub emit_modrm_and_displacement : ℕ → ℕ → ℤ → JitState → JitState
unfolding emit_modrm emit1 emit4
emit_modrm_and_displacement reg' rm' d s =
    let rm = rm' % 16 in
    let reg = reg' % 16 in
    if is_zero d && without_displacement rm
    then emit_modrm 0 reg rm s
    else let s₁ = emit_modrm (if is_near d then 0x40 else 0x80) reg rm s in
      let s₂ = if rm == r12 then emit1 0x24 s₁ else s₁ in
      if is_near d then emit1 (to_u32 d) s₂ else emit4 (to_u32 d) s₂

-- `!!(r & 8)` for a register: the top bit of its number.
abbrev pub top_bit : ℕ → ℕ
top_bit r = r / 8 % 2

unfoldable pub emit_rex : ℕ → ℕ → ℕ → ℕ → JitState → JitState
unfolding emit1
emit_rex w r x b s = emit1 (0x40 + w * 8 + r * 4 + x * 2 + b) s

unfoldable pub emit_basic_rex : ℕ → ℕ → ℕ → JitState → JitState
unfolding emit_rex
emit_basic_rex w src dst s =
    if not (w + top_bit src + top_bit dst == 0)
    then emit_rex w (top_bit src) 0 (top_bit dst) s
    else s

unfoldable pub emit_push : ℕ → JitState → JitState
unfolding emit_basic_rex emit1
emit_push r s = emit1 (0x50 + r % 8) (emit_basic_rex 0 0 r s)

unfoldable pub emit_pop : ℕ → JitState → JitState
unfolding emit_basic_rex emit1
emit_pop r s = emit1 (0x58 + r % 8) (emit_basic_rex 0 0 r s)

unfoldable pub emit_alu32 : ℕ → ℕ → ℕ → JitState → JitState
unfolding emit_basic_rex emit1 emit_modrm_reg2reg
emit_alu32 op src dst s = emit_modrm_reg2reg src dst (emit1 op (emit_basic_rex 0 src dst s))

unfoldable pub emit_alu32_imm32 : ℕ → ℕ → ℕ → ℤ → JitState → JitState
unfolding emit_alu32 emit4
emit_alu32_imm32 op src dst imm s = emit4 (to_u32 imm) (emit_alu32 op src dst s)

unfoldable pub emit_alu32_imm8 : ℕ → ℕ → ℕ → ℤ → JitState → JitState
unfolding emit_alu32 emit1
emit_alu32_imm8 op src dst imm s = emit1 (pattern_of 8 imm) (emit_alu32 op src dst s)

-- UINT32_MAX as an int32_t is -1.
unfoldable pub emit_truncate_u32 : ℕ → JitState → JitState
unfolding emit_alu32_imm32
emit_truncate_u32 destination s = emit_alu32_imm32 0x81 4 destination (negsuc 0) s

unfoldable pub emit_alu64 : ℕ → ℕ → ℕ → JitState → JitState
unfolding emit_basic_rex emit1 emit_modrm_reg2reg
emit_alu64 op src dst s = emit_modrm_reg2reg src dst (emit1 op (emit_basic_rex 1 src dst s))

unfoldable pub emit_alu64_imm32 : ℕ → ℕ → ℕ → ℤ → JitState → JitState
unfolding emit_alu64 emit4
emit_alu64_imm32 op src dst imm s = emit4 (to_u32 imm) (emit_alu64 op src dst s)

unfoldable pub emit_alu64_imm8 : ℕ → ℕ → ℕ → ℤ → JitState → JitState
unfolding emit_alu64 emit1
emit_alu64_imm8 op src dst imm s = emit1 (pattern_of 8 imm) (emit_alu64 op src dst s)

unfoldable pub emit_mov : ℕ → ℕ → JitState → JitState
unfolding emit_alu64
emit_mov src dst s = emit_alu64 0x89 src dst s

unfoldable pub emit_cmp_imm32 : ℕ → ℤ → JitState → JitState
unfolding emit_alu64_imm32
emit_cmp_imm32 dst imm s = emit_alu64_imm32 0x81 7 dst imm s

unfoldable pub emit_cmp32_imm32 : ℕ → ℤ → JitState → JitState
unfolding emit_alu32_imm32
emit_cmp32_imm32 dst imm s = emit_alu32_imm32 0x81 7 dst imm s

unfoldable pub emit_cmp : ℕ → ℕ → JitState → JitState
unfolding emit_alu64
emit_cmp src dst s = emit_alu64 0x39 src dst s

unfoldable pub emit_cmp32 : ℕ → ℕ → JitState → JitState
unfolding emit_alu32
emit_cmp32 src dst s = emit_alu32 0x39 src dst s

unfoldable pub emit_jcc : ℕ → PatchableTarget → JitState → ℕ × JitState
unfolding emit1 emit_jump_address_reloc
emit_jcc code target s = emit_jump_address_reloc target (emit1 code (emit1 0x0f s))

-- `size == S64`.
abbrev pub rex_w : Size → ℕ
rex_w double = 1
rex_w _ = 0

-- The opcode of `emit_load`.
unfoldable pub load_opcode : Size → JitState → JitState
unfolding emit1
load_opcode byte s = emit1 0xb6 (emit1 0x0f s)
load_opcode half s = emit1 0xb7 (emit1 0x0f s)
load_opcode _ s = emit1 0x8b s

unfoldable pub emit_load : Size → ℕ → ℕ → ℤ → JitState → JitState
unfolding emit_basic_rex emit_modrm_and_displacement load_opcode
emit_load size src dst offset s =
    emit_modrm_and_displacement dst src offset
      (load_opcode size (emit_basic_rex (rex_w size) dst src s))

unfoldable pub emit_load_sx : Size → ℕ → ℕ → ℤ → JitState → JitState
unfolding emit_basic_rex emit_modrm_and_displacement emit1
emit_load_sx byte src dst offset s =
    emit_modrm_and_displacement dst src offset
      (emit1 0xbe (emit1 0x0f (emit_basic_rex 1 dst src s)))
emit_load_sx half src dst offset s =
    emit_modrm_and_displacement dst src offset
      (emit1 0xbf (emit1 0x0f (emit_basic_rex 1 dst src s)))
emit_load_sx word src dst offset s =
    emit_modrm_and_displacement dst src offset (emit1 0x63 (emit_basic_rex 1 dst src s))
emit_load_sx double src dst offset s = s

-- `imm >= INT32_MIN && imm <= INT32_MAX`.
abbrev pub fits_32 : ℤ → Bool
fits_32 imm = ltb (pos_part imm) (2 ^ 31) && leb (neg_part imm) (2 ^ 31)

unfoldable pub emit_load_imm : ℕ → ℤ → JitState → JitState
unfolding emit_alu64_imm32 emit_basic_rex emit1 emit8
emit_load_imm dst imm s =
    if fits_32 imm
    then emit_alu64_imm32 0xc7 0 dst imm s
    else emit8 (to_u64 imm) (emit1 (0xb8 + dst % 8) (emit_basic_rex 1 0 dst s))

-- The prefixes and the opcode of `emit_store`.
unfoldable pub size_override : Size → JitState → JitState
unfolding emit1
size_override half s = emit1 0x66 s
size_override _ s = s

unfoldable pub store_rex : Size → ℕ → ℕ → JitState → JitState
unfolding emit_rex emit_basic_rex
store_rex byte src dst s = emit_rex 0 (top_bit src) 0 (top_bit dst) s
store_rex size src dst s = emit_basic_rex (rex_w size) src dst s

abbrev pub store_opcode : Size → ℕ
store_opcode byte = 0x88
store_opcode _ = 0x89

unfoldable pub emit_store : Size → ℕ → ℕ → ℤ → JitState → JitState
unfolding size_override store_rex emit1 emit_modrm_and_displacement
emit_store size src dst offset s =
    emit_modrm_and_displacement src dst offset
      (emit1 (store_opcode size) (store_rex size src dst (size_override size s)))

unfoldable pub store_immediate : Size → ℤ → JitState → JitState
unfolding emit1 emit2 emit4
store_immediate byte imm s = emit1 (to_u32 imm) s
store_immediate half imm s = emit2 (to_u32 imm) s
store_immediate _ imm s = emit4 (to_u32 imm) s

abbrev pub store_imm_opcode : Size → ℕ
store_imm_opcode byte = 0xc6
store_imm_opcode _ = 0xc7

unfoldable pub emit_store_imm32 : Size → ℕ → ℤ → ℤ → JitState → JitState
unfolding size_override emit_basic_rex emit1 emit_modrm_and_displacement store_immediate
emit_store_imm32 size dst offset imm s = store_immediate size imm (
    emit_modrm_and_displacement 0 dst offset
      (emit1 (store_imm_opcode size) (emit_basic_rex (rex_w size) 0 dst (size_override size s))))

unfoldable pub emit_ret : JitState → JitState
unfolding emit1
emit_ret s = emit1 0xc3 s

abbrev pub is_near_target : PatchableTarget → Bool
is_near_target (special t) = false
is_near_target (regular pc place near) = near

unfoldable pub emit_jmp : PatchableTarget → JitState → ℕ × JitState
unfolding emit1 emit_jump_address_reloc
emit_jmp target s =
    if is_near_target target
    then emit_jump_address_reloc target (emit1 0xeb s)
    else emit_jump_address_reloc target (emit1 0xe9 s)

unfoldable pub emit_call : PatchableTarget → JitState → ℕ × JitState
unfolding emit1 emit_jump_address_reloc
emit_call target s = let s₁ = emit1 0xe8 s in (s₁.offset, (emit_jump_address_reloc target s₁).1)

unfoldable pub emit_pause : JitState → JitState
unfolding emit1
emit_pause s = emit1 0x90 (emit1 0xf3 s)
