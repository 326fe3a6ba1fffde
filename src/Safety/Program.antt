-- ===== src/Safety/Program.antt =====
-- A program that `validate` accepts is checked at every index.
use ubpf.Prelude.{
  ℕ, zero, suc, ◌+◌, ◌<◌, ◌≡◌, refl, ap, ◌∙◌, arith, Bool, true, false, none, some, ◌⊎◌, inl, inr,
  Bool-cases, ==_iff, List, [], ◌∷◌, length, get_elem?, leb, ◌==◌,
}
use mathlib.Core.Path.{subst}
use ubpf.Inst.{Inst, Opcode, lddw, code, decode}
use ubpf.Inst.Decode.{decode-code}
use ubpf.Vm.{Vm}
use ubpf.Validate.{accepted, UsageTable}
use ubpf.Validate.Instruction.{check_lddw, check_opcode, check_instruction}
use ubpf.Validate.Usage.{calculate_stack_usage_for_local_func}
use ubpf.Validate.Program.{check_from, validate}
use ubpf.Safety.Checks.{Needs, and_then-accepted, check_instruction-Needs}

-- A word that the interpreter does not know, of opcode 0, behind an LDDW.
abbrev pub SecondHalf : List Inst → ℕ → Inst → Type 0
SecondHalf insts i x =
    (decode x.opcode ≡ none)
    × (x.opcode ≡ 0)
    × ((k : ℕ) × (first : Inst) × (i ≡ k + 1)
        × (get_elem? insts k ≡ some first)
        × (first.opcode ≡ code lddw))

-- The second half of an LDDW, or an instruction that the interpreter can rely on.
abbrev pub CheckedAt : Vm → List Inst → ℕ → Inst → Type 0
CheckedAt vm insts i x =
    SecondHalf insts i x ⊎ ((op : Opcode) × (decode x.opcode ≡ some op) × Needs vm insts i x op)

abbrev pub Checked : Vm → List Inst → Type 0
Checked vm insts = (i : ℕ) (x : Inst) → get_elem? insts i ≡ some x → CheckedAt vm insts i x

decode-zero : decode 0 ≡ none
unfolding decode
decode-zero = refl

-- After an LDDW that passes stands its second half.
lddw-second :
    (vm : Vm) (insts : List Inst) (i : ℕ) (x : Inst) (t : UsageTable)
    → (x.opcode == code lddw) ≡ true
    → get_elem? insts i ≡ some x
    → (check_instruction vm insts i x t).1 ≡ accepted
    → (y : Inst) → get_elem? insts (i + 1) ≡ some y
    → SecondHalf insts (i + 1) y
unfolding check_instruction check_opcode check_lddw
lddw-second vm insts i x t e at_i h y next =
    let d : decode x.opcode ≡ some lddw = rw ((==_iff _ _).0 e) (decode-code lddw) in
    let passed : check_lddw insts i x ≡ accepted =
      (and_then-accepted (check_opcode vm insts i x lddw t) _ (rw (d, check_instruction) at h)).0 in
    let zero_code : y.opcode ≡ 0 = ground arith in
    (rw zero_code decode-zero, zero_code, (i, x, refl, at_i, (==_iff _ _).0 e))

module _ (vm : Vm) (insts : List Inst) (small : length insts < 65536) where
  -- The suffix `xs` of the program starts at the index `i`.
  abbrev StartsAt : ℕ → List Inst → Type 0
  StartsAt i xs = (k j : ℕ) → j ≡ i + k → get_elem? insts j ≡ get_elem? xs k

  StartsAt-tail : (i : ℕ) (y : Inst) (ys : List Inst) → StartsAt i (y ∷ ys) → StartsAt (i + 1) ys
  StartsAt-tail i y ys here k j e = here (suc k) j (omega arith)

  check_from-Checked :
      (second : Bool) (i : ℕ) (xs : List Inst) (t : UsageTable)
      → StartsAt i xs
      → (second ≡ true → (y : Inst) → get_elem? insts i ≡ some y → SecondHalf insts i y)
      → (check_from vm insts second i xs t).1 ≡ accepted
      → (k j : ℕ) (x : Inst) → j ≡ i + k
      → get_elem? xs k ≡ some x
      → CheckedAt vm insts j x
  unfolding check_from
  check_from-Checked second i [] t here half h k j x e at_k = absurd (ground arith)
  check_from-Checked true i (y ∷ ys) t here half h zero j x e at_k =
      let same : i ≡ j = omega arith in
      subst (λ m. CheckedAt vm insts m x) same (inl (half refl x (here 0 i (omega arith) ∙ at_k)))
  check_from-Checked true i (y ∷ ys) t here half h (suc k) j x e at_k =
      check_from-Checked false (i + 1) ys t (StartsAt-tail i y ys here) (λ f. absurd (ground arith))
        h k j x (omega arith) at_k
  check_from-Checked false i (y ∷ ys) t here half h zero j x e at_k =
      let (first, rest) = and_then-accepted (check_instruction vm insts i y t) _ h in
      let same : i ≡ j = omega arith in
      let same_inst : y ≡ x = cc in
      subst (CheckedAt vm insts j) same_inst (
        subst (λ m. CheckedAt vm insts m y) same
          (inr (check_instruction-Needs vm insts i y t small first)))
  check_from-Checked false i (y ∷ ys) t here half h (suc k) j x e at_k =
      let (first, rest) = and_then-accepted (check_instruction vm insts i y t) _ h in
      check_from-Checked (y.opcode == code lddw) (i + 1) ys _ (StartsAt-tail i y ys here)
        (λ f z next. lddw-second vm insts i y t f (here 0 i (omega arith)) first z next) rest k j x
        (omega arith) at_k

-- Every instruction of an accepted program is checked, or is the second half of an LDDW.
pub validate-Checked :
    (vm : Vm) (insts : List Inst)
    → (validate vm insts).1 ≡ accepted
    → (length insts < 65536) × Checked vm insts
unfolding validate
validate-Checked vm insts h = elim (Bool-cases (leb 65536 (length insts))) [
  | inl e ↦ absurd (ground arith)
  | inr e ↦
      let small : length insts < 65536 = ground arith in
      let (_, looped) =
        and_then-accepted (calculate_stack_usage_for_local_func vm 0 vm.local_func_stack_usage) _
          (rw (e, validate) at h) in
      let (passed, _) = and_then-accepted (check_from vm insts false 0 insts _) _ looped in
      (
        small,
        λ i x at_i.
            check_from-Checked vm insts small false 0 insts _
              (λ k j same. ap (get_elem? insts) (omega arith)) (λ f. absurd (ground arith)) passed i
              i x (omega arith) at_i,
      )
]
