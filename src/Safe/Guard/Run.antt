-- ===== src/Safe/Guard/Run.antt =====
-- Every run of a validated program in the safe profile is safe (vm/ubpf_safe.c,
-- `ubpf_exec_ex_safe`, and the choice of the profile in `ubpf_exec_ex`).
use mathlib.Core.Bool.{not}
use mathlib.Core.Path.{subst}
use mathlib.Core.Option.{some-injective}
use ubpf.Prelude.{
  ℕ, zero, suc, ◌^◌, ◌<◌, ◌≡◌, ◌∙◌, ap, refl, arith, true, some, inl, inr, ◌==◌, ◌&&◌, List, length,
  if_both, if_cases, ltb,
}
use ubpf.Prelude.Int.{pos_part}
use ubpf.Inst.{Inst}
use ubpf.Memory.{Memory}
use ubpf.Vm.{Vm, safe}
use ubpf.Interp.{Regions}
use ubpf.Interp.Step.{limited}
use ubpf.Interp.Run.{initial_state}
use ubpf.Safety.{IsByte}
use ubpf.Safety.Run.{initial_state-Keeps}
use ubpf.Safe.{SafeState, SafeOutcome, running, returned, failed, fault}
use ubpf.Safe.Step.{safe_step}
use ubpf.Safe.Run.{
  safe_run, input_tag, stack_tag, initial_tags, initial_safe_state, finished, exec_ex_safe, in_safe,
  execute,
}
use ubpf.Safe.Limit.{safe_run-ends}
use ubpf.Safe.Guard.{Reachable, Granted, SafeMemory, SafeInv, SafeEnds, goes_on, stops, fails}
use ubpf.Safe.Guard.Tags.{number-Granted, SafeEnds-map}
use ubpf.Safe.Guard.Step.{SafeGuarded, safe_step-Ends}

module _ (vm : Vm) (prog : List Inst) (r : Regions) (start : Memory)
    (g : SafeGuarded vm prog r start) where
  abbrev Good : SafeState → Type 0
  Good = SafeInv vm r start (length prog)

  -- What the loop makes of the outcome of a round.
  settles :
      (fuel : ℕ) (s : SafeState) (out end : SafeOutcome)
      → safe_step vm r s ≡ out
      → SafeEnds Good out
      → ((t : SafeState) → Good t → safe_run fuel vm r t ≡ some end → SafeEnds Good end)
      → safe_run (suc fuel) vm r s ≡ some end
      → SafeEnds Good end
  unfolding safe_run
  settles fuel s (running t) end e (goes_on inv) rest h = rest t inv (rw (e, safe_run) at h)
  settles fuel s (returned v t) end e (stops inv) rest h =
      subst (SafeEnds Good) (some-injective _ _ (rw (e, safe_run) at h)) (stops inv)
  settles fuel s (failed x t) end e (fails inv) rest h =
      subst (SafeEnds Good) (some-injective _ _ (rw (e, safe_run) at h)) (fails inv)
  settles fuel s fault end e bad rest h = elim bad [ ]

  pub safe_run-Ends :
      (fuel : ℕ) (s : SafeState) (end : SafeOutcome)
      → Good s
      → safe_run fuel vm r s ≡ some end
      → SafeEnds Good end
  unfolding safe_run
  safe_run-Ends zero s end inv h = absurd (ground arith)
  safe_run-Ends (suc fuel) s end inv h =
      settles fuel s (safe_step vm r s) end refl (safe_step-Ends vm prog r start g s inv)
        (λ t good e. safe_run-Ends fuel t end good e) h

-- What the host maps: every byte that the program can reach.
abbrev pub AllMapped : Vm → Regions → Memory → Type 0
AllMapped vm r m = (a : ℕ) → Reachable vm r a → IsByte (m a)

input_tag-Granted : (vm : Vm) (r : Regions) → 0 < r.mem → Granted vm r (input_tag r)
input_tag-Granted vm r there points k low high =
    (inl (inl (there, low, high)), λ can. inl (inl (there, low, high)))

stack_tag-Granted : (vm : Vm) (r : Regions) → Granted vm r (stack_tag r)
stack_tag-Granted vm r points k low high = (inl (inr (low, high)), λ can. inl (inr (low, high)))

initial_tags-Granted : (vm : Vm) (r : Regions) (k : ℕ) → Granted vm r (initial_tags r k)
unfolding initial_tags
initial_tags-Granted vm r k =
    let G = Granted vm r in
    if_both G (k == 10) (stack_tag-Granted vm r) (
      if_both G (k == 1)
        (if_cases G (not (r.mem == 0) && ltb 0 r.mem_len)
          (λ e. input_tag-Granted vm r (ground arith)) (λ e. number-Granted vm r))
        (number-Granted vm r))

-- The invariant holds before the first instruction.
pub initial_safe_state-Inv :
    (vm : Vm) (r : Regions) (junk : ℕ → ℕ) (m : Memory) (n : ℕ)
    → AllMapped vm r m
    → r.mem < 2 ^ 64
    → r.mem_len < 2 ^ 64
    → ((k : ℕ) → junk k < 2 ^ 64)
    → SafeInv vm r m n (initial_safe_state vm r junk m)
unfolding initial_safe_state
initial_safe_state-Inv vm r junk m n mapped base len words =
    let G = number-Granted vm r in
    record {
      core_inv =
          initial_state-Keeps vm r junk m n (SafeMemory vm r m)
            (record { mapped = mapped; unchanged = λ a out. refl }) base len words;
      tags_granted = initial_tags-Granted vm r;
      slots_granted = λ k. tt;
      saved_granted = λ k. (G, G, G, G);
    }

execute-run :
    (vm : Vm) (r : Regions) (junk : ℕ → ℕ) (m : Memory) (words : List ℕ) (fuel : ℕ)
    → vm.execution_profile ≡ safe
    → vm.insts ≡ some words
    → execute fuel vm r junk m
      ≡ in_safe (finished (safe_run fuel vm r (initial_safe_state vm r junk m)))
unfolding execute exec_ex_safe
execute-run vm r junk m words fuel profile h = ground arith

-- In the safe profile, with an instruction limit, a validated program comes to an end whatever the
-- bounds check is set to: it returns a value or -1, it is no fault, and no byte outside those that
-- permit a store has changed; each byte that the tag of a pointer covers at the end is in the
-- caller's memory, the stack or a registered region. Functions of the host that the program can call
-- are assumed to keep to those bytes, the bytes to be mapped, and the target to define what the
-- program uses.
pub execute-IsSafe :
    (vm : Vm) (prog : List Inst) (r : Regions) (junk : ℕ → ℕ) (m : Memory) (words : List ℕ)
    (fuel : ℕ)
    → SafeGuarded vm prog r m
    → vm.execution_profile ≡ safe
    → vm.insts ≡ some words
    → AllMapped vm r m
    → r.mem < 2 ^ 64
    → r.mem_len < 2 ^ 64
    → ((k : ℕ) → junk k < 2 ^ 64)
    → limited vm ≡ true
    → pos_part vm.instruction_limit < fuel
    → (end : SafeOutcome) × (execute fuel vm r junk m ≡ in_safe (finished (some end)))
      × SafeEnds (λ s. SafeMemory vm r m s.core.memory × ((k : ℕ) → Granted vm r (s.tags k))) end
unfolding initial_safe_state initial_state
execute-IsSafe vm prog r junk m words fuel g profile loaded mapped base len junk_words limit
      enough =
    let first = initial_safe_state vm r junk m in
    let (end, e) = safe_run-ends vm r limit fuel first enough in
    (
      end,
      execute-run vm r junk m words fuel profile loaded ∙ ap (λ o. in_safe (finished o)) e,
      SafeEnds-map (λ s inv. (inv.core_inv.kept, inv.tags_granted))
          (safe_run-Ends vm prog r m g fuel first end
            (initial_safe_state-Inv vm r junk m (length prog) mapped base len junk_words) e),
    )
