-- ===== src/Safety/Checks.antt =====
-- What an accepted check of the validator says of the instruction.
use ubpf.Prelude.{
  ℕ, ◌+◌, ◌<◌, ◌≡◌, refl, arith, Bool, false, some, ◌⊎◌, inl, inr, Bool-cases, Option-cases, List,
  length, get_elem?,
}
use ubpf.Prelude.Int.{ℤ, pos, negsuc, ◌+ℤ◌, pos_part}
use ubpf.Word.{pattern_of}
use ubpf.Inst.{Inst, Opcode, lddw, jump, ja, ja32, call, decode}
use ubpf.Vm.{Vm, Helper}
use ubpf.Interp.Jump.{add_pc}
use ubpf.Interp.Call.{external_function}
use ubpf.Validate.{Verdict, accepted, rejected, UsageTable, and_then, reject_if, Message}
use ubpf.Validate.Instruction.{
  outside, check_lddw, check_jump, no_function, check_external, check_local, check_call,
  check_opcode, check_instruction,
}

pub Verdict-cases : (v : Verdict) → (v ≡ accepted) ⊎ ((m : Message) × (v ≡ rejected m))
Verdict-cases accepted = inl refl
Verdict-cases (rejected m) = inr (m, refl)

-- A check that accepts has passed its test, and the rest accepts.
pub reject_if-accepted :
    (b : Bool) (m : Message) (rest : Verdict)
    → reject_if b m rest ≡ accepted
    → (b ≡ false) × (rest ≡ accepted)
reject_if-accepted b m rest h = ground arith

pub and_then-accepted :
    (first : UsageTable × Verdict) (f : UsageTable → UsageTable × Verdict)
    → (and_then first f).1 ≡ accepted
    → (first.1 ≡ accepted) × ((f first.0).1 ≡ accepted)
and_then-accepted (t, accepted) f h = (refl, h)
and_then-accepted (t, rejected m) f h = absurd (ground arith)

outside-pc :
    (z : ℤ) (n : ℕ)
    → n < 65536
    → outside z n ≡ false
    → (pattern_of 16 z ≡ pos_part z) × (pos_part z < n)
unfolding outside
outside-pc (pos k) n small h = ground arith
outside-pc (negsuc k) n small h = absurd (ground arith)

-- A jump that passes lands on an instruction of the program.
pub check_jump-lands :
    (insts : List Inst) (i : ℕ) (offset : ℤ)
    → length insts < 65536
    → check_jump insts i offset ≡ accepted
    → add_pc (i + 1) offset < length insts
unfolding check_jump add_pc
check_jump-lands insts i offset small h =
    let stays : outside (pos (i + 1) +ℤ offset) (length insts) ≡ false = ground arith in
    omega (arith, outside-pc (pos (i + 1) +ℤ offset) (length insts) small stays)

pub check_lddw-next :
    (insts : List Inst) (i : ℕ) (x : Inst)
    → check_lddw insts i x ≡ accepted
    → (next : Inst) × (get_elem? insts (i + 1) ≡ some next)
unfolding check_lddw
check_lddw-next insts i x h = elim (Option-cases (get_elem? insts (i + 1))) [
  | inl e ↦ absurd (ground arith)
  | inr found ↦ found
]

check_external-found :
    (vm : Vm) (imm : ℤ)
    → check_external vm imm ≡ accepted
    → (f : Helper) × (external_function vm imm ≡ some f)
unfolding check_external external_function no_function
check_external-found vm (negsuc k) h = absurd (ground arith)
check_external-found vm (pos k) h = elim (Option-cases vm.dispatcher) [
  | inl nobody ↦ elim (Option-cases (vm.ext_funcs k)) [
    | inl e ↦ absurd (ground arith)
    | inr (f, e) ↦ (f, ground arith)
  ]
  | inr (d, e) ↦ (d k, ground arith)
]

check_local-lands :
    (vm : Vm) (insts : List Inst) (i : ℕ) (imm : ℤ) (t : UsageTable)
    → length insts < 65536
    → (check_local vm insts i imm t).1 ≡ accepted
    → add_pc (i + 1) imm < length insts
unfolding check_local add_pc
check_local-lands vm insts i imm t small h =
    elim (Bool-cases (outside (pos (i + 1) +ℤ imm) (length insts))) [
      | inl e ↦ absurd (ground arith)
      | inr e ↦ omega (arith, outside-pc (pos (i + 1) +ℤ imm) (length insts) small e)
    ]

-- What the interpreter relies on at an instruction.
abbrev pub Needs : Vm → List Inst → ℕ → Inst → Opcode → Type 0
Needs vm insts i x lddw = (next : Inst) × (get_elem? insts (i + 1) ≡ some next)
Needs vm insts i x (jump w op k) = add_pc (i + 1) x.offset < length insts
Needs vm insts i x ja = add_pc (i + 1) x.offset < length insts
Needs vm insts i x ja32 = add_pc (i + 1) x.imm < length insts
Needs vm insts i x call =
    (x.src ≡ 0 → (f : Helper) × (external_function vm x.imm ≡ some f))
    × (x.src ≡ 1 → add_pc (i + 1) x.imm < length insts)
Needs vm insts i x _ = Unit

check_call-Needs :
    (vm : Vm) (insts : List Inst) (i : ℕ) (x : Inst) (t : UsageTable)
    → length insts < 65536
    → (check_call vm insts i x t).1 ≡ accepted
    → Needs vm insts i x call
unfolding check_call
check_call-Needs vm insts i x t small h = (
  λ src. check_external-found vm x.imm (ground arith),
  λ src. check_local-lands vm insts i x.imm t small (ground arith),
)

check_opcode-Needs :
    (vm : Vm) (insts : List Inst) (i : ℕ) (x : Inst) (op : Opcode) (t : UsageTable)
    → length insts < 65536
    → (check_opcode vm insts i x op t).1 ≡ accepted
    → Needs vm insts i x op
unfolding check_opcode
check_opcode-Needs vm insts i x lddw t small h = check_lddw-next insts i x h
check_opcode-Needs vm insts i x (jump w op k) t small h = check_jump-lands insts i x.offset small h
check_opcode-Needs vm insts i x ja t small h = check_jump-lands insts i x.offset small h
check_opcode-Needs vm insts i x ja32 t small h = check_jump-lands insts i x.imm small h
check_opcode-Needs vm insts i x call t small h = check_call-Needs vm insts i x t small h
check_opcode-Needs vm insts i x _ t small h = tt

-- An instruction that passes has a known opcode, and what the interpreter needs there.
pub check_instruction-Needs :
    (vm : Vm) (insts : List Inst) (i : ℕ) (x : Inst) (t : UsageTable)
    → length insts < 65536
    → (check_instruction vm insts i x t).1 ≡ accepted
    → (op : Opcode) × (decode x.opcode ≡ some op) × Needs vm insts i x op
unfolding check_instruction
check_instruction-Needs vm insts i x t small h = elim (Option-cases (decode x.opcode)) [
  | inl e ↦ absurd (ground arith)
  | inr (op, e) ↦ (
    op,
    e,
    check_opcode-Needs vm insts i x op t small
        (and_then-accepted (check_opcode vm insts i x op t) _ (rw (e, check_instruction) at h)).0,
  )
]
