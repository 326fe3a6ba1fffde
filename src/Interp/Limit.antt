-- ===== src/Interp/Limit.antt =====
-- With an instruction limit the interpreter's loop ends, whatever the program does
-- (vm/ubpf_vm.c, `ubpf_exec_ex`).
pub mod Rounds
use mathlib.Core.Bool.{not}
use ubpf.Prelude.{
  ℕ, zero, suc, ◌+◌, ◌<◌, ◌≡◌, refl, arith, true, false, ◌&&◌, Option, none, some, Bool-cases,
  Option-cases, inl, inr, if_both, leb, ltb, ◌==◌,
}
use ubpf.Prelude.Int.{ℤ, pos, negsuc, ◌-ℤ◌, ltb_ℤ, pos_part}
use ubpf.Inst.{
  Inst, Opcode, Width, w32, w64, alu, neg, ldx, ldxbsx, ldxhsx, ldxwsx, st, stx, lddw, jump, call,
  exit, atomic, decode,
}
use ubpf.Memory.{Memory, mem_load, mem_store}
use ubpf.Vm.{Vm}
use ubpf.Vm.Program.{fetch_instruction}
use ubpf.Interp.{
  Regions, State, Outcome, Error, running, returned, failed, fault, pc_out_of_range, limit_exceeded,
  ◌>>=◌,
}
use ubpf.Interp.Bounds.{bounds_check, effective_address, Address-cases}
use ubpf.Interp.Jump.{jump_by}
use ubpf.Interp.Shadow.{validate_shadow_register, check_shadow_stack}
use ubpf.Interp.Access.{
  shadow_load, put, load_at, exec_load, shadow_store, checked_store, leave, store_value, exec_store,
  fetched, fetches, atomic_with, atomic_at, exec_atomic, width_bytes,
}
use ubpf.Interp.Call.{
  enter_function, run_helper, external_function, after_helper, call_external, call_local, exec_call,
  return_to, exec_exit,
}
use ubpf.Interp.Step.{
  jump_if, load_wide, exec_opcode, clear_upper, exec_switch, exec_inst, fetch_and_exec, limited,
  count_down, step,
}
use ubpf.Interp.Run.{run}
use Rounds.{Left, goes_on, stops, fails, faults, fetch_and_exec-Left}

pub count_down_budget : (z : ℤ) → ltb_ℤ (pos 0) z ≡ true → pos_part (z -ℤ pos 1) + 1 ≡ pos_part z
unfolding ◌-ℤ◌
count_down_budget (pos n) h = ground arith
count_down_budget (negsuc n) h = ground arith

-- What the loop does with the outcome of a round.
rest_ends :
    (vm : Vm) (r : Regions) (b : ℤ) (fuel : ℕ) (s : State) (out : Outcome)
    → step vm r s ≡ out
    → Left b out
    → ((t : State) → t.budget ≡ b → (end : Outcome) × (run fuel vm r t ≡ some end))
    → (end : Outcome) × (run (suc fuel) vm r s ≡ some end)
unfolding run
rest_ends vm r b fuel s (running t) e (goes_on h) rest =
    let (end, found) = rest t h in (end, rw (e, run) found)
rest_ends vm r b fuel s (returned v t) e stops rest = (returned v t, rw (e, run))
rest_ends vm r b fuel s (failed x t) e fails rest = (failed x t, rw (e, run))
rest_ends vm r b fuel s fault e faults rest = (fault, rw (e, run))

last_round :
    (vm : Vm) (r : Regions) (fuel : ℕ) (s : State) (e : Error)
    → step vm r s ≡ failed e s
    → run (suc fuel) vm r s ≡ some (failed e s)
unfolding run
last_round vm r fuel s e h = rw (h, run)

module _ (vm : Vm) (r : Regions) (limit : limited vm ≡ true) where
  pub counted : (s : State) → (enter_function vm (count_down vm s)).budget ≡ s.budget -ℤ pos 1
  unfolding count_down enter_function
  counted s = rw limit (if_both (λ (t : State). t.budget ≡ s.budget -ℤ pos 1) _ refl refl)

  step-Left : (s : State) → Left (s.budget -ℤ pos 1) (step vm r s)
  unfolding step
  step-Left s = if_both (Left (s.budget -ℤ pos 1)) (leb vm.num_insts s.pc) fails (
      if_both (Left (s.budget -ℤ pos 1)) (limited vm && not (ltb_ℤ (pos 0) s.budget)) fails
        (fetch_and_exec-Left vm r _ (enter_function vm (count_down vm s)) (counted s)))

  -- Without a round left, the step is the last.
  step_exhausted :
      (s : State) → ltb_ℤ (pos 0) s.budget ≡ false → (e : Error) × (step vm r s ≡ failed e s)
  unfolding step
  step_exhausted s h = elim (Bool-cases (leb vm.num_insts s.pc)) [
    | inl e ↦ (pc_out_of_range, rw e)
    | inr e ↦ (limit_exceeded, rw (e, limit, h))
  ]

  -- With an instruction limit, the loop comes to an end for any program in any state, if the fuel is
  -- above the rounds left.
  pub run-ends :
      (fuel : ℕ) (s : State)
      → pos_part s.budget < fuel
      → (end : Outcome) × (run fuel vm r s ≡ some end)
  run-ends zero s h = absurd (omega arith)
  run-ends (suc fuel) s h = elim (Bool-cases (ltb_ℤ (pos 0) s.budget)) [
    | inl more ↦
        rest_ends vm r (s.budget -ℤ pos 1) fuel s (step vm r s) refl (step-Left s)
          λ t e. run-ends fuel t (rw e (omega (arith, count_down_budget s.budget more)))
    | inr over ↦
        let (e, last) = step_exhausted s over in (failed e s, last_round vm r fuel s e last)
  ]
