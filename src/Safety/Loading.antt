-- ===== src/Safety/Loading.antt =====
-- A program that `ubpf_load` (vm/ubpf_vm.c) takes is in the array of the virtual machine as it was
-- given, and is checked: the interpreter may run it.
use ubpf.Prelude.{
  ℕ, ◌*◌, ◌/◌, ◌^◌, ◌<◌, ◌≡◌, ◌∙◌, refl, sym, arith, true, none, some, List, length, replicate,
  length-replicate, Option-cases, inl, inr,
}
use ubpf.Prelude.Int.{ℤ, pos, negsuc}
use ubpf.Inst.{Inst, Opcode, lddw, call, ja, ja32, jump}
use ubpf.Vm.{Vm, Helper}
use ubpf.Vm.Program.{fetch_word, fetch_instruction, store_instruction, scramble}
use ubpf.Interp.{Regions}
use ubpf.Interp.Call.{external_function}
use ubpf.Validate.{accepted, rejected, UsageTable, Verdict}
use ubpf.Validate.Program.{validate}
use ubpf.Api.Load.{Host, loaded, store_from, filled, install, after_validate, load}
use ubpf.Api.Load.Fetches.{AllInst, store_from-fetches}
use ubpf.Safety.{Loaded, ShadowFits, Defined}
use ubpf.Memory.{Memory}
use ubpf.Safety.Checks.{Needs}
use mathlib.Core.Path.{subst}
use ubpf.Safety.Control.{KeepsMemory}
use ubpf.Safety.Step.{Guarded}
use ubpf.Safety.Program.{Checked, validate-Checked}

-- The filled array holds the program.
pub filled-Loaded :
    (vm : Vm) (host : Host) (code : List Inst) (code_len base : ℕ)
    → AllInst code
    → code_len ≡ 8 * length code
    → length code < 65536
    → base < 2 ^ 64
    → vm.pointer_secret < 2 ^ 64
    → Loaded (filled vm host code code_len base) code
unfolding filled fetch_instruction fetch_word scramble store_from store_instruction
filled-Loaded vm host code code_len base fits len small base_fits secret = record {
  fetches =
      store_from-fetches (filled vm host code code_len base) base_fits secret code
        (replicate (code_len / 8) 0) fits (length-replicate _ _ ∙ omega arith);
  count = omega arith;
  small = small;
}

-- `Needs` looks at the functions of the host alone.
Needs-same :
    (vm vm' : Vm) (insts : List Inst) (i : ℕ) (x : Inst) (op : Opcode)
    → ((imm : ℤ) → external_function vm' imm ≡ external_function vm imm)
    → Needs vm insts i x op
    → Needs vm' insts i x op
Needs-same vm vm' insts i x call same (ext, loc) =
    (λ e. let (f, found) = ext e in (f, same x.imm ∙ found), loc)
Needs-same vm vm' insts i x lddw same h = h
Needs-same vm vm' insts i x (jump w op k) same h = h
Needs-same vm vm' insts i x ja same h = h
Needs-same vm vm' insts i x ja32 same h = h
Needs-same vm vm' insts i x _ same h = tt

pub Checked-same :
    (vm vm' : Vm) (insts : List Inst)
    → ((imm : ℤ) → external_function vm' imm ≡ external_function vm imm)
    → Checked vm insts
    → Checked vm' insts
Checked-same vm vm' insts same h i x at_i = elim (h i x at_i) [
  | inl e ↦ inl e
  | inr (op, e, needs) ↦ inr (op, e, Needs-same vm vm' insts i x op same needs)
]

pub external_function-filled :
    (vm : Vm) (host : Host) (code : List Inst) (code_len base : ℕ) (imm : ℤ)
    → external_function (filled vm host code code_len base) imm ≡ external_function vm imm
unfolding external_function filled
external_function-filled vm host code code_len base (pos n) = refl
external_function-filled vm host code code_len base (negsuc n) = refl

pub usage-external :
    (vm : Vm) (t : UsageTable) (imm : ℤ)
    → external_function (record vm { local_func_stack_usage = t }) imm ≡ external_function vm imm
unfolding external_function
usage-external vm t (pos n) = refl
usage-external vm t (negsuc n) = refl

-- A load that succeeds has filled the array.
install-filled :
    (vm vm' : Vm) (host : Host) (code : List Inst) (code_len : ℕ)
    → install vm host code code_len ≡ (vm', loaded)
    → (base : ℕ) × (host.array ≡ some base) × (vm' ≡ filled vm host code code_len base)
unfolding install
install-filled vm vm' host code code_len h = elim (Option-cases host.array) [
  | inl e ↦ absurd (ground arith)
  | inr (base, e) ↦ (base, e, ground arith)
]

after_validate-installs :
    (vm vm' : Vm) (host : Host) (code : List Inst) (code_len : ℕ) (v : UsageTable × Verdict)
    → after_validate vm host code code_len v ≡ (vm', loaded)
    → (v.1 ≡ accepted)
      × (install (record vm { local_func_stack_usage = v.0 }) host code code_len ≡ (vm', loaded))
unfolding after_validate
after_validate-installs vm vm' host code code_len (t, accepted) h = (refl, h)
after_validate-installs vm vm' host code code_len (t, rejected m) h = absurd (ground arith)

load-validates :
    (vm vm' : Vm) (host : Host) (code : List Inst) (code_len : ℕ)
    → load vm host code code_len ≡ (vm', loaded)
    → after_validate vm host code code_len (validate vm code) ≡ (vm', loaded)
unfolding load
load-validates vm vm' host code code_len h = ground arith

-- What a load that succeeds leaves behind.
pub load-filled :
    (vm vm' : Vm) (host : Host) (code : List Inst) (code_len : ℕ)
    → load vm host code code_len ≡ (vm', loaded)
    → ((validate vm code).1 ≡ accepted)
      × ((base : ℕ) × (host.array ≡ some base)
          × (vm'
              ≡ filled
                  (record vm { local_func_stack_usage = (validate vm code).0 })
                  host
                  code
                  code_len
                  base))
load-filled vm vm' host code code_len h =
    let (passed, installed) =
      after_validate-installs vm vm' host code code_len (validate vm code)
        (load-validates vm vm' host code code_len h) in
    (passed, install-filled _ vm' host code code_len installed)

filled-Guarded :
    (vm : Vm) (t : UsageTable) (host : Host) (code : List Inst) (code_len base : ℕ) (r : Regions)
    → (validate vm code).1 ≡ accepted
    → AllInst code
    → code_len ≡ 8 * length code
    → base < 2 ^ 64
    → vm.pointer_secret < 2 ^ 64
    → vm.bounds_check_enabled ≡ true
    → vm.bounds_check_function ≡ none
    → ShadowFits vm r
    → Defined r.target code
    → ((imm : ℤ) (f : Helper) → external_function vm imm ≡ some f → KeepsMemory r f)
    → Guarded (filled (record vm { local_func_stack_usage = t }) host code code_len base) code r
unfolding filled
filled-Guarded vm t host code code_len base r passed fits e base_fits secret on alone shadow defined
      helpers =
    let (small, checked) = validate-Checked vm code passed in
    let vm₁ = record vm { local_func_stack_usage = t } in
    let same : (imm : ℤ)
        → external_function (filled vm₁ host code code_len base) imm ≡ external_function vm imm =
      λ imm. external_function-filled vm₁ host code code_len base imm ∙ usage-external vm t imm in
    record {
      bounds_checked = on;
      no_other_check = alone;
      shadow_fits = shadow;
      defined = defined;
      loaded = filled-Loaded vm₁ host code code_len base fits e small base_fits secret;
      checked = Checked-same vm _ code same checked;
      helpers = λ imm f found. helpers imm f (sym (same imm) ∙ found);
    }

-- A program that a load takes can be run safely, if the bounds check is on and stands alone, the
-- length of the stack is a multiple of 8 or the undefined-behaviour check is off, the target defines
-- what the program uses, and the functions of the host keep to the regions: it can be fetched as it
-- was given, and is checked at every index.
pub load-Guarded :
    (vm vm' : Vm) (host : Host) (code : List Inst) (code_len : ℕ) (r : Regions)
    → load vm host code code_len ≡ (vm', loaded)
    → AllInst code
    → code_len ≡ 8 * length code
    → ((base : ℕ) → host.array ≡ some base → base < 2 ^ 64)
    → vm.pointer_secret < 2 ^ 64
    → vm.bounds_check_enabled ≡ true
    → vm.bounds_check_function ≡ none
    → ShadowFits vm r
    → Defined r.target code
    → ((imm : ℤ) (f : Helper) → external_function vm imm ≡ some f → KeepsMemory r f)
    → Guarded vm' code r
load-Guarded vm vm' host code code_len r h fits e addresses secret on alone shadow defined helpers =
    let (passed, (base, at_base, same)) = load-filled vm vm' host code code_len h in
    subst (λ v. Guarded v code r) (sym same)
      (filled-Guarded vm (validate vm code).0 host code code_len base r passed fits e
        (addresses base at_base) secret on alone shadow defined helpers)
