-- ===== src/Validate/Program.antt =====
-- vm/ubpf_vm.c, `validate`: the loop over the instructions, and the checks round it. The `i++`
-- that passes over the second half of an LDDW is the flag of `check_from`.
use ubpf.Prelude.{ℕ, ◌+◌, Bool, true, false, List, [], ◌∷◌, length, leb, ◌==◌, if◌then◌else◌}
use ubpf.Inst.{Inst, lddw, code}
use ubpf.Vm.{Vm, max_insts}
use ubpf.Validate.{Verdict, accepted, rejected, UsageTable, and_then, too_many_instructions}
use ubpf.Validate.Usage.{calculate_stack_usage_for_local_func}
use ubpf.Validate.Instruction.{check_instruction}
use ubpf.Validate.Subprograms.{check_for_self_contained_sub_programs}

unfoldable pub check_from :
    Vm → List Inst → Bool → ℕ → List Inst → UsageTable → UsageTable × Verdict
unfolding code
check_from vm insts second i [] t = (t, accepted)
check_from vm insts true i (x ∷ rest) t = check_from vm insts false (i + 1) rest t
check_from vm insts false i (x ∷ rest) t =
    and_then (check_instruction vm insts i x t)
      (check_from vm insts (x.opcode == code lddw) (i + 1) rest)

unfoldable pub validate : Vm → List Inst → UsageTable × Verdict
unfolding check_from
validate vm insts =
    let t = vm.local_func_stack_usage in
    if leb max_insts (length insts)
    then (t, rejected too_many_instructions)
    else and_then (calculate_stack_usage_for_local_func vm 0 t) λ t₁.
      and_then (check_from vm insts false 0 insts t₁)
        λ t₂. (t₂, check_for_self_contained_sub_programs insts)
