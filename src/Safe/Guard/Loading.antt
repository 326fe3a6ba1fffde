-- ===== src/Safe/Guard/Loading.antt =====
-- From `ubpf_load` (vm/ubpf_vm.c) to a run in the safe profile (vm/ubpf_safe.c).
use mathlib.Core.Path.{subst}
use ubpf.Prelude.{ℕ, ◌*◌, ◌^◌, ◌<◌, ◌≡◌, ◌∙◌, sym, refl, true, some, List, length}
use ubpf.Prelude.Int.{ℤ, pos_part}
use ubpf.Inst.{Inst}
use ubpf.Memory.{Memory}
use ubpf.Vm.{Vm, Helper, safe}
use ubpf.Interp.{Regions}
use ubpf.Interp.Call.{external_function}
use ubpf.Interp.Step.{limited}
use ubpf.Validate.{accepted}
use ubpf.Validate.Program.{validate}
use ubpf.Validate.{UsageTable}
use ubpf.Api.Load.{Host, loaded, load, filled}
use ubpf.Api.Load.Fetches.{AllInst}
use ubpf.Safety.{Defined}
use ubpf.Safety.Control.{Keeps}
use ubpf.Safety.Program.{validate-Checked}
use ubpf.Safety.Loading.{
  filled-Loaded, Checked-same, external_function-filled, usage-external, load-filled,
}
use ubpf.Safe.{SafeOutcome}
use ubpf.Safe.Run.{finished, in_safe, execute}
use ubpf.Safe.Guard.{Granted, SafeMemory, SafeEnds}
use ubpf.Safe.Guard.Step.{SafeGuarded}
use ubpf.Safe.Guard.Run.{AllMapped, execute-IsSafe}

filled-SafeGuarded :
    (vm : Vm) (t : UsageTable) (host : Host) (code : List Inst) (code_len base : ℕ) (r : Regions)
    (m : Memory)
    → (validate vm code).1 ≡ accepted
    → AllInst code
    → code_len ≡ 8 * length code
    → base < 2 ^ 64
    → vm.pointer_secret < 2 ^ 64
    → Defined r.target code
    → ((imm : ℤ) (f : Helper) → external_function vm imm ≡ some f → Keeps (SafeMemory vm r m) f)
    → SafeGuarded
        (filled (record vm { local_func_stack_usage = t }) host code code_len base)
        code
        r
        m
unfolding filled
filled-SafeGuarded vm t host code code_len base r m passed fits e base_fits secret defined helpers =
    let (small, checked) = validate-Checked vm code passed in
    let vm₁ = record vm { local_func_stack_usage = t } in
    let same : (imm : ℤ)
        → external_function (filled vm₁ host code code_len base) imm ≡ external_function vm imm =
      λ imm. external_function-filled vm₁ host code code_len base imm ∙ usage-external vm t imm in
    record {
      defined = defined;
      loaded = filled-Loaded vm₁ host code code_len base fits e small base_fits secret;
      checked = Checked-same vm _ code same checked;
      helpers = λ imm f found. helpers imm f (sym (same imm) ∙ found);
    }

-- A program that a load takes is what the invariant asks for.
pub load-SafeGuarded :
    (vm vm' : Vm) (host : Host) (code : List Inst) (code_len : ℕ) (r : Regions) (m : Memory)
    → load vm host code code_len ≡ (vm', loaded)
    → AllInst code
    → code_len ≡ 8 * length code
    → ((base : ℕ) → host.array ≡ some base → base < 2 ^ 64)
    → vm.pointer_secret < 2 ^ 64
    → Defined r.target code
    → ((imm : ℤ) (f : Helper) → external_function vm imm ≡ some f → Keeps (SafeMemory vm r m) f)
    → SafeGuarded vm' code r m
load-SafeGuarded vm vm' host code code_len r m h fits e addresses secret defined helpers =
    let (passed, (at, at_base, same)) = load-filled vm vm' host code code_len h in
    subst (λ v. SafeGuarded v code r m) (sym same)
      (filled-SafeGuarded vm (validate vm code).0 host code code_len at r m passed fits e
        (addresses at at_base) secret defined helpers)

-- A safe run of the machine, to its end.
abbrev pub RunsSafely : ℕ → Vm → Regions → (ℕ → ℕ) → Memory → Type 0
RunsSafely fuel vm r junk m =
    (end : SafeOutcome) × (execute fuel vm r junk m ≡ in_safe (finished (some end)))
    × SafeEnds (λ s. SafeMemory vm r m s.core.memory × ((k : ℕ) → Granted vm r (s.tags k))) end

-- A program that a load takes into a machine of the safe profile can be run: with an instruction
-- limit, and whatever the bounds check is set to, the run comes to an end, it is no fault, and no
-- byte has changed but in the caller's memory, in the stack and in the regions that permit stores.
-- At its end each register that the tags take for a pointer has a tag of which each byte, from `base`
-- on, is in the caller's memory, in the stack or in a registered region, and in one that permits
-- stores if the tag does; nothing is said of the value of the register, which each access compares
-- with those bounds. The functions of the host that can be called keep to the bytes that the program
-- can write, all of them are mapped, and the target defines atomic operations at any address if the
-- program has one, and negation that wraps if it has NEG.
pub load-execute-IsSafe :
    (vm vm' : Vm) (host : Host) (code : List Inst) (code_len : ℕ) (r : Regions) (junk : ℕ → ℕ)
    (m : Memory) (fuel : ℕ)
    → load vm host code code_len ≡ (vm', loaded)
    → AllInst code
    → code_len ≡ 8 * length code
    → ((base : ℕ) → host.array ≡ some base → base < 2 ^ 64)
    → vm.pointer_secret < 2 ^ 64
    → vm.execution_profile ≡ safe
    → Defined r.target code
    → ((imm : ℤ) (f : Helper) → external_function vm imm ≡ some f → Keeps (SafeMemory vm r m) f)
    → AllMapped vm r m
    → r.mem < 2 ^ 64
    → r.mem_len < 2 ^ 64
    → ((k : ℕ) → junk k < 2 ^ 64)
    → limited vm ≡ true
    → pos_part vm.instruction_limit < fuel
    → RunsSafely fuel vm' r junk m
unfolding filled
load-execute-IsSafe vm vm' host code code_len r junk m fuel h fits e addresses secret profile
      defined helpers mapped base len words limit enough =
    let (passed, (at, at_base, same)) = load-filled vm vm' host code code_len h in
    let t = (validate vm code).0 in
    let vm₂ = filled (record vm { local_func_stack_usage = t }) host code code_len at in
    subst (λ v. RunsSafely fuel v r junk m) (sym same)
      (execute-IsSafe vm₂ code r junk m _ fuel
        (filled-SafeGuarded vm t host code code_len at r m passed fits e (addresses at at_base)
          secret defined helpers)
        profile refl mapped base len words limit enough)
