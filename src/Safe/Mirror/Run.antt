-- ===== src/Safe/Mirror/Run.antt =====
-- vm/ubpf_safe.c: whole runs against those of vm/ubpf_vm.c.
use ubpf.Prelude.{ℕ, zero, suc, ◌≡◌, refl, ◌∙◌, sym, ap, arith, false, some}
use mathlib.Core.Path.{subst}
use mathlib.Core.Option.{some-injective}
use ubpf.Vm.{Vm}
use ubpf.Interp.{Regions, Outcome}
use ubpf.Interp.Step.{step}
use ubpf.Interp.Run.{run}
use ubpf.Safe.{SafeState, SafeOutcome, running, returned, failed, fault}
use ubpf.Safe.Step.{safe_step}
use ubpf.Safe.Run.{safe_run}
use ubpf.Safe.Mirror.{Mirrors, both_run, both_return, gives_up, both_fault}
use ubpf.Safe.Mirror.Step.{safe_step-Mirrors}

-- The legacy outcome of the same value and core.
abbrev legacy_of : SafeOutcome → Outcome
legacy_of (running s) = Outcome.running s.core
legacy_of (returned v s) = Outcome.returned v s.core
legacy_of (failed e s) = Outcome.fault
legacy_of fault = Outcome.fault

module _ (vm : Vm) (r : Regions) where
  follows :
      (fuel : ℕ) (s : SafeState) (out : SafeOutcome) (out' : Outcome) (v : ℕ) (t : SafeState)
      → safe_step vm r s ≡ out
      → step vm r s.core ≡ out'
      → Mirrors out out'
      → ((u : SafeState)
          → safe_run fuel vm r u ≡ some (returned v t)
          → run fuel vm r u.core ≡ some (Outcome.returned v t.core))
      → safe_run (suc fuel) vm r s ≡ some (returned v t)
      → run (suc fuel) vm r s.core ≡ some (Outcome.returned v t.core)
  unfolding safe_run run
  follows fuel s out out' v t e f (both_run {s = a} h) rest done =
      rw (f, run)
        (subst (λ c. run fuel vm r c ≡ some (Outcome.returned v t.core)) h
          (rest a (rw (e, safe_run) at done)))
  follows fuel s out out' v t e f (both_return {v = w} h) rest done =
      let same = some-injective _ _ (rw (e, safe_run) at done) in
      rw (f, run) (ap some (ap (Outcome.returned w) (sym h) ∙ ap legacy_of same))
  follows fuel s out out' v t e f gives_up rest done = absurd (ground arith)
  follows fuel s out out' v t e f both_fault rest done = absurd (ground arith)

  -- With the bounds check and the undefined-behaviour check off, a program that returns a value in
  -- the safe profile returns that value in the legacy profile, with the same registers, frames and
  -- memory: the safe profile refuses programs, but changes none.
  pub safe_run-run :
      (fuel : ℕ) (s t : SafeState) (v : ℕ)
      → vm.bounds_check_enabled ≡ false
      → vm.undefined_behavior_check_enabled ≡ false
      → safe_run fuel vm r s ≡ some (returned v t)
      → run fuel vm r s.core ≡ some (Outcome.returned v t.core)
  unfolding safe_run
  safe_run-run zero s t v off unmarked h = absurd (ground arith)
  safe_run-run (suc fuel) s t v off unmarked h =
      follows fuel s (safe_step vm r s) (step vm r s.core) v t refl refl
        (safe_step-Mirrors vm r off unmarked s) (λ u e. safe_run-run fuel u t v off unmarked e) h
