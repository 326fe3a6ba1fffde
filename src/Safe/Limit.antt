-- ===== src/Safe/Limit.antt =====
-- With an instruction limit the loop of the safe profile ends, whatever the program does
-- (vm/ubpf_safe.c, `ubpf_exec_ex_safe`).
pub mod Rounds
use mathlib.Core.Bool.{not}
use ubpf.Prelude.{
  ℕ, zero, suc, ◌<◌, ◌≡◌, refl, arith, true, false, ◌&&◌, Option, some, Bool-cases, inl, inr,
  if_both, leb,
}
use ubpf.Prelude.Int.{ℤ, pos, ◌-ℤ◌, ltb_ℤ, pos_part}
use ubpf.Vm.{Vm}
use ubpf.Interp.{Regions, pc_out_of_range, limit_exceeded}
use ubpf.Interp.Call.{enter_function}
use ubpf.Interp.Step.{limited, count_down}
use ubpf.Interp.Limit.{count_down_budget, counted}
use ubpf.Safe.{SafeState, SafeOutcome, SafeError, running, returned, failed, fault, stopped}
use ubpf.Safe.Step.{safe_fetch, safe_step}
use ubpf.Safe.Run.{safe_run}
use Rounds.{SafeLeft, goes_on, stops, fails, faults, safe_fetch-Left}

-- What the loop does with the outcome of a round.
rest_ends :
    (vm : Vm) (r : Regions) (b : ℤ) (fuel : ℕ) (s : SafeState) (out : SafeOutcome)
    → safe_step vm r s ≡ out
    → SafeLeft b out
    → ((t : SafeState)
        → t.core.budget ≡ b
        → (end : SafeOutcome) × (safe_run fuel vm r t ≡ some end))
    → (end : SafeOutcome) × (safe_run (suc fuel) vm r s ≡ some end)
unfolding safe_run
rest_ends vm r b fuel s (running t) e (goes_on h) rest =
    let (end, found) = rest t h in (end, rw (e, safe_run) found)
rest_ends vm r b fuel s (returned v t) e stops rest = (returned v t, rw (e, safe_run))
rest_ends vm r b fuel s (failed x t) e fails rest = (failed x t, rw (e, safe_run))
rest_ends vm r b fuel s fault e faults rest = (fault, rw (e, safe_run))

last_round :
    (vm : Vm) (r : Regions) (fuel : ℕ) (s : SafeState) (e : SafeError)
    → safe_step vm r s ≡ failed e s
    → safe_run (suc fuel) vm r s ≡ some (failed e s)
unfolding safe_run
last_round vm r fuel s e h = rw (h, safe_run)

module _ (vm : Vm) (r : Regions) (limit : limited vm ≡ true) where
  safe_step-Left : (s : SafeState) → SafeLeft (s.core.budget -ℤ pos 1) (safe_step vm r s)
  unfolding safe_step
  safe_step-Left s =
      let L = SafeLeft (s.core.budget -ℤ pos 1) in
      if_both L (leb vm.num_insts s.core.pc) fails (
        if_both L (limited vm && not (ltb_ℤ (pos 0) s.core.budget)) fails (
          safe_fetch-Left vm r _ (record s { core = enter_function vm (count_down vm s.core) })
            (counted vm r limit s.core)))

  -- Without a round left, the step is the last.
  safe_step_exhausted :
      (s : SafeState)
      → ltb_ℤ (pos 0) s.core.budget ≡ false
      → (e : SafeError) × (safe_step vm r s ≡ failed e s)
  unfolding safe_step
  safe_step_exhausted s h = elim (Bool-cases (leb vm.num_insts s.core.pc)) [
    | inl e ↦ (stopped pc_out_of_range, rw e)
    | inr e ↦ (stopped limit_exceeded, rw (e, limit, h))
  ]

  -- With an instruction limit, the loop of the safe profile comes to an end for any program in any
  -- state, if the fuel is above the rounds left.
  pub safe_run-ends :
      (fuel : ℕ) (s : SafeState)
      → pos_part s.core.budget < fuel
      → (end : SafeOutcome) × (safe_run fuel vm r s ≡ some end)
  safe_run-ends zero s h = absurd (omega arith)
  safe_run-ends (suc fuel) s h = elim (Bool-cases (ltb_ℤ (pos 0) s.core.budget)) [
    | inl more ↦
        rest_ends vm r (s.core.budget -ℤ pos 1) fuel s (safe_step vm r s) refl (safe_step-Left s)
          λ t e. safe_run-ends fuel t (rw e (omega (arith, count_down_budget s.core.budget more)))
    | inr over ↦
        let (e, last) = safe_step_exhausted s over in (failed e s, last_round vm r fuel s e last)
  ]
