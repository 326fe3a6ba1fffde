-- ===== src/Tests/Words.antt =====
-- The theorems on opcodes, arithmetic, memory and lists at concrete inputs.
use ubpf.Prelude.{
  ℕ, ◌%◌, ◌^◌, ◌<◌, ◌≡◌, ◌≢◌, ◌⊎◌, ◌↔◌, inl, inr, refl, arith, true, false, none, some, List, [],
  ◌∷◌,
}
use ubpf.Prelude.Int.{pos, negsuc, ◌+ℤ◌, ◌*ℤ◌, ◌≤ℤ◌}
use ubpf.Word.{i32, i64}
use ubpf.Inst.{Inst, Opcode, code, decode, alu, w64, add, from_reg}
use ubpf.Inst.Decode.{decode-code}
use ubpf.Filter.{lookup_table}
use ubpf.Filter.Defs.{InstFilter}
use ubpf.Filter.Coverage.{lookup_table-decode}
use ubpf.Alu.{signed_div32, signed_mod32, signed_div64, signed_mod64, to_big}
use ubpf.Alu.Swap.{Reverses, to_big-Reverses}
use ubpf.Alu.Division.{signed_div32-mod32, signed_div64-mod64}
use ubpf.Memory.{Memory, mem_load, mem_store}
use ubpf.Memory.Frame.{mem_load-mem_store, mem_store-outside}
use ubpf.Interp.{update}
use ubpf.Interp.Bounds.{bounds_check}
use ubpf.Interp.Bounds.Exact.{Inside, bounds_check_iff}
use ubpf.Interp.Shadow.{instruction_class, mark_shadow_stack, check_shadow_stack}
use ubpf.Interp.Shadow.Marked.{check-mark_shadow_stack}
use ubpf.Validate.{accepted}
use ubpf.Validate.Subprograms.{deduplicate, check_subprograms}
use ubpf.Validate.Subprograms.Targets.{Increasing, member, deduplicate-Increasing}
use ubpf.Validate.Subprograms.Contained.{Jumps, jump_target, last, check_subprograms-Contained}
use ubpf.Tests.Setup.{instruction, limited_vm, limited_vm-settings, regions}

decode-code_example : decode (code (alu w64 add from_reg)) ≡ some (alu w64 add from_reg)
decode-code_example = decode-code (alu w64 add from_reg)

abbrev seven : ℕ
seven = 7

lookup_table-decode_example :
    ((f : InstFilter) → lookup_table 7 ≡ some f → seven ≢ 0 → (op : Opcode) × (decode 7 ≡ some op))
    × ((op : Opcode) → decode 7 ≡ some op → (f : InstFilter) × (lookup_table 7 ≡ some f))
lookup_table-decode_example = lookup_table-decode 7 (omega arith)

-- -7 by 2.
signed_div32-mod32_example :
    i32 2 *ℤ i32 (signed_div32 0xffff_fff9 2) +ℤ i32 (signed_mod32 0xffff_fff9 2) ≡ negsuc 6
signed_div32-mod32_example =
    signed_div32-mod32 0xffff_fff9 2 (λ p. absurd (ground arith)) (λ p. absurd (ground arith))

signed_div64-mod64_example :
    i64 2 *ℤ i64 (signed_div64 0xffff_ffff_ffff_fff9 2)
      +ℤ i64 (signed_mod64 0xffff_ffff_ffff_fff9 2)
    ≡ negsuc 6
signed_div64-mod64_example =
    signed_div64-mod64 0xffff_ffff_ffff_fff9 2 (λ p. absurd (ground arith))
      (λ p. absurd (ground arith))

to_big-Reverses_example :
    Reverses 2 0x12345 (to_big (pos 16) 0x12345)
    × Reverses 4 0x12345 (to_big (pos 32) 0x12345)
    × Reverses 8 0x12345 (to_big (pos 64) 0x12345)
to_big-Reverses_example = to_big-Reverses 0x12345

abbrev bytes : Memory
bytes = update (update (λ a. none) 100 (some 1)) 101 (some 2)

abbrev stored : Memory
stored = update (update bytes 100 (some 0x45)) 101 (some 0x23)

bytes-stored : mem_store 2 bytes 100 0x12345 ≡ some stored
unfolding mem_store
bytes-stored = refl

mem_load-mem_store_example : mem_load 2 stored 100 ≡ some (0x12345 % 256 ^ 2)
mem_load-mem_store_example = mem_load-mem_store 2 bytes stored 100 0x12345 bytes-stored

mem_store-outside_example : stored 102 ≡ bytes 102
mem_store-outside_example =
    mem_store-outside 2 bytes stored 100 0x12345 102 bytes-stored (inr (omega arith))

bounds_check_iff_example :
    (bounds_check limited_vm regions 4104 8 ≡ true)
    ↔ (((0 < 4096) × Inside 4096 16 4104 8) ⊎ Inside 8192 4096 4104 8)
bounds_check_iff_example =
    bounds_check_iff limited_vm regions 4104 8 limited_vm-settings.0 limited_vm-settings.1
      (omega arith) (omega arith)

check-mark_shadow_stack_example :
    (check_shadow_stack limited_vm regions
        (mark_shadow_stack limited_vm regions (λ n. false) 8200 8)
        8200
        8
      ≡ true)
    × ((b width : ℕ)
        → check_shadow_stack limited_vm regions (λ n. false) b width ≡ true
        → check_shadow_stack limited_vm regions
            (mark_shadow_stack limited_vm regions (λ n. false) 8200 8)
            b
            width
          ≡ true)
check-mark_shadow_stack_example = check-mark_shadow_stack limited_vm regions (λ n. false) 8200 8

deduplicate-Increasing_example :
    Increasing (deduplicate 4 (9 ∷ 4 ∷ 0 ∷ []))
    × ((v : ℕ) → member v (deduplicate 4 (9 ∷ 4 ∷ 0 ∷ [])) ≡ member v (4 ∷ 9 ∷ 4 ∷ 0 ∷ []))
deduplicate-Increasing_example = deduplicate-Increasing 4 (9 ∷ 4 ∷ 0 ∷ [])

-- goto 2; exit; exit
abbrev jumping : List Inst
jumping =
    instruction 0x05 0 0 (pos 1) (pos 0)
    ∷ instruction 0x95 0 0 (pos 0) (pos 0)
    ∷ instruction 0x95 0 0 (pos 0) (pos 0)
    ∷ []

abbrev goto : Inst
goto = instruction 0x05 0 0 (pos 1) (pos 0)

jumping-subprograms : check_subprograms jumping (0 ∷ []) ≡ accepted
unfolding check_subprograms
jumping-subprograms = refl

goto-Jumps : Jumps goto
unfolding instruction_class code
goto-Jumps = (inl (omega arith), λ p. absurd (ground arith), λ p. absurd (ground arith))

check_subprograms-Contained_example : (pos 0 ≤ℤ jump_target 0 goto) × (jump_target 0 goto ≤ℤ pos 2)
check_subprograms-Contained_example =
    check_subprograms-Contained jumping (0 ∷ []) 0 3 jumping-subprograms last 0 goto (omega arith)
      (omega arith) refl goto-Jumps
