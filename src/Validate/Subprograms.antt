-- ===== src/Validate/Subprograms.antt =====
-- vm/ubpf_vm.c: `check_for_self_contained_sub_programs` and its helpers. A sub-program runs from
-- one call target (or 0) to the next one, or to the end of the program.
pub mod Targets
pub mod Contained
use mathlib.Core.Bool.{not}
use mathlib.Core.List.{foldr}
use ubpf.Prelude.{
  ℕ, zero, suc, ◌+◌, ◌-◌, ◌^◌, Bool, true, false, ◌&&◌, ◌||◌, Option, none, some, List, [], ◌∷◌,
  ◌++◌, length, get_elem?, ltb, leb, ◌==◌, if◌then◌else◌,
}
use ubpf.Prelude.Int.{ℤ, pos, ◌+ℤ◌, ltb_ℤ}
use ubpf.Word.{pattern_of}
use ubpf.Inst.{Inst, Opcode, ja, ja32, call, exit, code}
use ubpf.Interp.Shadow.{instruction_class}
use ubpf.Validate.{Verdict, accepted, rejected, reject_if, opcode_at, leaves_subprogram, no_exit}

-- `insts[i].opcode == EBPF_OP_CALL && insts[i].src == 1`.
unfoldable pub is_local_call : Inst → Bool
unfolding code
is_local_call i = i.opcode == code call && i.src == 1

unfoldable pub is_empty : List ℕ → Bool
is_empty [] = true
is_empty (x ∷ xs) = false

-- The targets of the local calls, in the order of the calls.
unfoldable pub call_targets : ℕ → List Inst → List ℕ
unfolding is_local_call ◌+ℤ◌
call_targets i [] = []
call_targets i (x ∷ xs) =
    let rest = call_targets (i + 1) xs in
    if is_local_call x then pattern_of 32 (pos (i + 1) +ℤ x.imm) ∷ rest else rest

-- `qsort` with `compare_uint32_t`: a total order, so every sort gives the same array.
unfoldable pub insert : ℕ → List ℕ → List ℕ
insert x [] = x ∷ []
insert x (y ∷ ys) = if leb x y then x ∷ y ∷ ys else y ∷ insert x ys

unfoldable pub sort : List ℕ → List ℕ
unfolding insert
sort [] = []
sort (x ∷ xs) = insert x (sort xs)

-- The loop of `deduplicate_array_of_uint32`, with the last value written.
unfoldable pub drop_repeats : ℕ → List ℕ → List ℕ
drop_repeats last [] = []
drop_repeats last (x ∷ xs) = let rest = drop_repeats x xs in if x == last then rest else x ∷ rest

-- The values of an array of one element at least, up to the count that
-- `deduplicate_array_of_uint32` leaves: the count is never 0, and its only call passes at least two.
unfoldable pub deduplicate : ℕ → List ℕ → List ℕ
unfolding sort drop_repeats
deduplicate first rest = elim (sort (first ∷ rest)) [ [] ↦ [] | y ∷ ys ↦ y ∷ drop_repeats y ys ]

-- Whether a jump at `j` leaves [start, end).
unfoldable pub leaves : ℕ → ℕ → ℕ → Inst → Bool
unfolding instruction_class ◌+ℤ◌ code
leaves start end j x =
    let class = instruction_class x.opcode in
    let target = pos (j + 1) +ℤ (if x.opcode == code ja32 then x.imm else x.offset) in
    (class == 0x05 || class == 0x06)
    && not (x.opcode == code call)
    && not (x.opcode == code exit)
    && (ltb_ℤ target (pos start) || ltb_ℤ (pos (end - 1)) target)

-- The loop over the instructions of one sub-program: `left` of them, from `j` on.
unfoldable pub check_jumps : List Inst → ℕ → ℕ → ℕ → ℕ → Verdict
unfolding leaves
check_jumps insts start end zero j = accepted
check_jumps insts start end (suc left) j = elim (get_elem? insts j) [
  | none ↦ accepted
  | some x ↦
      if leaves start end j x
      then rejected leaves_subprogram
      else check_jumps insts start end left (j + 1)
]

unfoldable pub ends_well : List Inst → ℕ → ℕ → Bool
unfolding opcode_at code
ends_well insts start end =
    opcode_at insts (end - 1) == code exit
    || (leb (start + 2) end
        && (opcode_at insts (end - 2) == code ja || opcode_at insts (end - 2) == code ja32))

unfoldable pub check_subprogram : List Inst → ℕ → ℕ → Verdict
unfolding check_jumps ends_well
check_subprogram insts start end = elim (check_jumps insts start end (end - start) start) [
  | accepted ↦ reject_if (not (ends_well insts start end)) no_exit accepted
  | rejected m ↦ rejected m
]

-- The loop over the sub-programs: each ends where the next one starts.
unfoldable pub check_subprograms : List Inst → List ℕ → Verdict
unfolding check_subprogram
check_subprograms insts [] = accepted
check_subprograms insts (start ∷ []) = check_subprogram insts start (length insts)
check_subprograms insts (start ∷ next ∷ starts) =
    let rest = check_subprograms insts (next ∷ starts) in
    elim (check_subprogram insts start next) [ accepted ↦ rest | rejected m ↦ rejected m ]

-- The array has one element more than there are calls, which stays 0: the main program.
unfoldable pub check_for_self_contained_sub_programs : List Inst → Verdict
unfolding call_targets deduplicate check_subprograms
check_for_self_contained_sub_programs insts = elim (call_targets 0 insts) [
  | [] ↦ accepted
  | t ∷ ts ↦ check_subprograms insts (deduplicate t (ts ++ 0 ∷ []))
]
