-- ===== src/Validate/Subprograms/Contained.antt =====
-- vm/ubpf_vm.c: in a sub-program that `check_for_self_contained_sub_programs` takes, no jump
-- leads out.
use ubpf.Prelude.{
  ℕ, zero, suc, ◌+◌, ◌-◌, ◌≤◌, ◌<◌, ◌≡◌, ◌≢◌, ◌∙◌, ◌⊎◌, refl, arith, ap, Bool, true, false, ◌||◌,
  ◌==◌, if◌then◌else◌, List, [], ◌∷◌, some, get_elem?, length, Bool-cases, inl, inr, ==_iff,
  get_elem?-lt, get_elem?-some,
}
use ubpf.Prelude.Int.{ℤ, pos, ◌+ℤ◌, ◌≤ℤ◌, ltb_ℤ}
use ubpf.Inst.{Inst, ja32, call, exit, code}
use mathlib.Core.Path.{subst}
use ubpf.Interp.Shadow.{instruction_class}
use ubpf.Validate.{Verdict, accepted, rejected}
use ubpf.Validate.Subprograms.{leaves, check_jumps, check_subprogram, check_subprograms}

check_jumps-stays :
    (insts : List Inst) (start end left j k : ℕ) (x : Inst)
    → check_jumps insts start end left j ≡ accepted
    → j ≤ k
    → k < j + left
    → get_elem? insts k ≡ some x
    → leaves start end k x ≡ false
unfolding check_jumps
check_jumps-stays insts start end zero j k x h low high at_k = absurd (omega arith)
check_jumps-stays insts start end (suc left) j k x h low high at_k =
    let (y, at_j) = get_elem?-some insts j (omega (arith, get_elem?-lt insts k x at_k)) in
    elim (Bool-cases (leaves start end j y)) [
      | inl e ↦ absurd (ground arith)
      | inr e ↦
          let rest : check_jumps insts start end left (j + 1) ≡ accepted = ground arith in
          elim (Bool-cases (k == j)) [
            | inl same ↦
                let at_same : get_elem? insts k ≡ some y =
                  ap (get_elem? insts) ((==_iff k j).0 same) ∙ at_j in
                let same_inst : y ≡ x = cc in
                ap (λ i. leaves start end i x) ((==_iff k j).0 same)
                ∙ subst (λ z. leaves start end j z ≡ false) same_inst e
            | inr other ↦
                check_jumps-stays insts start end left (j + 1) k x rest
                  (ground (arith, (==_iff k j).1)) (omega arith) at_k
          ]
    ]

-- The instructions that the check is about, and where they lead.
abbrev pub Jumps : Inst → Type 0
Jumps x =
    ((instruction_class x.opcode ≡ 5) ⊎ (instruction_class x.opcode ≡ 6))
    × (x.opcode ≢ code call)
    × (x.opcode ≢ code exit)

abbrev pub jump_target : ℕ → Inst → ℤ
jump_target k x = pos (k + 1) +ℤ (if x.opcode == code ja32 then x.imm else x.offset)

-- Every jump in [start, end) stays there.
abbrev pub Contained : List Inst → ℕ → ℕ → Type 0
Contained insts start end =
    (k : ℕ) (x : Inst)
    → start ≤ k
    → k < end
    → get_elem? insts k ≡ some x
    → Jumps x
    → (pos start ≤ℤ jump_target k x) × (jump_target k x ≤ℤ pos (end - 1))

is_not : (a b : ℕ) → a ≢ b → (a == b) ≡ false
is_not a b h = ground (arith, ==_iff a b)

is_same : (a b : ℕ) → a ≡ b → (a == b) ≡ true
is_same a b h = ground (arith, ==_iff a b)

not-ltb_ℤ : (a b : ℤ) → ltb_ℤ a b ≡ false → b ≤ℤ a
not-ltb_ℤ a b h = ground arith

leaves-class :
    (start end k : ℕ) (x : Inst)
    → Jumps x
    → leaves start end k x ≡ false
    → (ltb_ℤ (jump_target k x) (pos start) || ltb_ℤ (pos (end - 1)) (jump_target k x)) ≡ false
unfolding leaves
leaves-class start end k x (inl c, n, m) h =
    rw (leaves, is_same _ _ c, is_not _ _ n, is_not _ _ m) at h
leaves-class start end k x (inr c, n, m) h = rw (leaves, c, is_not _ _ n, is_not _ _ m) at h

neither : (a b : Bool) → (a || b) ≡ false → (a ≡ false) × (b ≡ false)
neither true b h = absurd (ground arith)
neither false b h = (refl, h)

both_checked :
    (v w : Verdict)
    → elim v as (λ x. Verdict) [ accepted ↦ w | rejected m ↦ rejected m ] ≡ accepted
    → (v ≡ accepted) × (w ≡ accepted)
both_checked accepted w h = (refl, h)
both_checked (rejected m) w h = absurd (ground arith)

jumps-accepted :
    (insts : List Inst) (start end : ℕ)
    → check_subprogram insts start end ≡ accepted
    → check_jumps insts start end (end - start) start ≡ accepted
unfolding check_subprogram
jumps-accepted insts start end h =
    (both_checked (check_jumps insts start end (end - start) start) _ h).0

check_subprogram-Contained :
    (insts : List Inst) (start end : ℕ)
    → check_subprogram insts start end ≡ accepted
    → Contained insts start end
unfolding check_subprogram
check_subprogram-Contained insts start end h k x low high at_k jumps =
    let stays =
      check_jumps-stays insts start end (end - start) start k x (jumps-accepted insts start end h)
        low (omega arith) at_k in
    let (a, b) = neither _ _ (leaves-class start end k x jumps stays) in
    (not-ltb_ℤ (jump_target k x) (pos start) a, not-ltb_ℤ (pos (end - 1)) (jump_target k x) b)

-- The sub-programs between the starts: each ends where the next one starts.
pub data Piece (n : ℕ) : List ℕ → ℕ → ℕ → Type 0 where
  last : {s : ℕ} → Piece n (s ∷ []) s n
  next : {s t : ℕ} {ts : List ℕ} → Piece n (s ∷ t ∷ ts) s t
  later : {s t a b : ℕ} {ts : List ℕ} → Piece n (t ∷ ts) a b → Piece n (s ∷ t ∷ ts) a b

-- In a program that passes, every jump of every sub-program leads into the same sub-program.
pub check_subprograms-Contained :
    (insts : List Inst) (starts : List ℕ) (start end : ℕ)
    → check_subprograms insts starts ≡ accepted
    → Piece (length insts) starts start end
    → Contained insts start end
unfolding check_subprograms
check_subprograms-Contained insts _ start end h last = check_subprogram-Contained insts start end h
check_subprograms-Contained insts _ start end h next =
    check_subprogram-Contained insts start end (both_checked _ _ h).0
check_subprograms-Contained insts _ start end h (later p) =
    check_subprograms-Contained insts _ start end (both_checked _ _ h).1 p
