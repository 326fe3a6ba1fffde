-- ===== src/Safety/Run.antt =====
-- Every run of a validated program is safe (vm/ubpf_vm.c, `ubpf_exec_ex`).
use ubpf.Prelude.{
  ℕ, zero, suc, ◌^◌, ◌<◌, ◌≡◌, ◌∙◌, ap, refl, arith, true, some, ◌==◌, List, length, if_both,
}
use ubpf.Prelude.Int.{pos_part}
use mathlib.Core.Path.{subst}
use mathlib.Core.Option.{some-injective}
use ubpf.Inst.{Inst}
use ubpf.Memory.{Memory}
use ubpf.Vm.{Vm}
use ubpf.Interp.{Regions, State, Outcome, running, returned, failed, fault}
use ubpf.Interp.Step.{limited, step}
use ubpf.Interp.Run.{run, initial_registers, initial_state, exec_ex, finished}
use ubpf.Interp.Limit.{run-ends}
use ubpf.Safety.{Ends, goes_on, stops, fails, InRegion, IsByte, MemoryKept, Inv}
use ubpf.Safety.Invariant.{Ends-map}
use ubpf.Safety.Step.{Guarded, step-Ends}

module _ (vm : Vm) (prog : List Inst) (r : Regions) (start : Memory) (g : Guarded vm prog r) where
  abbrev Good : State → Type 0
  Good = Inv (MemoryKept r start) (length prog)

  -- What the loop makes of the outcome of a round.
  settles :
      (fuel : ℕ) (s : State) (out end : Outcome)
      → step vm r s ≡ out
      → Ends Good out
      → ((t : State) → Good t → run fuel vm r t ≡ some end → Ends Good end)
      → run (suc fuel) vm r s ≡ some end
      → Ends Good end
  unfolding run
  settles fuel s (running t) end e (goes_on inv) rest h = rest t inv (rw (e, run) at h)
  settles fuel s (returned v t) end e (stops inv) rest h =
      subst (Ends Good) (some-injective _ _ (rw (e, run) at h)) (stops inv)
  settles fuel s (failed x t) end e (fails inv) rest h =
      subst (Ends Good) (some-injective _ _ (rw (e, run) at h)) (fails inv)
  settles fuel s fault end e bad rest h = elim bad [ ]

  pub run-Ends :
      (fuel : ℕ) (s : State) (end : Outcome) → Good s → run fuel vm r s ≡ some end → Ends Good end
  unfolding run
  run-Ends zero s end inv h = absurd (ground arith)
  run-Ends (suc fuel) s end inv h =
      settles fuel s (step vm r s) end refl (step-Ends vm prog r start g s inv)
        (λ t good e. run-Ends fuel t end good e) h

-- Each byte of the two regions is mapped.
abbrev pub Mapped : Regions → Memory → Type 0
Mapped r m = (a : ℕ) → InRegion r a → IsByte (m a)

-- The invariant holds before the first instruction, for any condition on the memory that holds.
pub initial_state-Keeps :
    (vm : Vm) (r : Regions) (junk : ℕ → ℕ) (m : Memory) (n : ℕ) (Keep : Memory → Type 0)
    → Keep m
    → r.mem < 2 ^ 64
    → r.mem_len < 2 ^ 64
    → ((k : ℕ) → junk k < 2 ^ 64)
    → Inv Keep n (initial_state vm r junk m)
unfolding initial_state initial_registers
initial_state-Keeps vm r junk m n Keep kept base len words =
    let IsWord = λ (x : ℕ). x < 2 ^ 64 in
    record {
      pc_in = omega arith;
      depth = omega arith;
      frames = λ k. (omega arith, omega arith, omega arith, omega arith, omega arith);
      words = λ k.
          if_both IsWord (k == 10) (omega arith)
            (if_both IsWord (k == 2) len (if_both IsWord (k == 1) base (words k)));
      kept = kept;
    }

pub initial_state-Inv :
    (vm : Vm) (r : Regions) (junk : ℕ → ℕ) (m : Memory) (n : ℕ)
    → Mapped r m
    → r.mem < 2 ^ 64
    → r.mem_len < 2 ^ 64
    → ((k : ℕ) → junk k < 2 ^ 64)
    → Inv (MemoryKept r m) n (initial_state vm r junk m)
initial_state-Inv vm r junk m n mapped base len words =
    initial_state-Keeps vm r junk m n (MemoryKept r m)
      (record { mapped = mapped; unchanged = λ a out. refl }) base len words

exec_ex-run :
    (vm : Vm) (r : Regions) (junk : ℕ → ℕ) (m : Memory) (words : List ℕ) (fuel : ℕ)
    → vm.insts ≡ some words
    → exec_ex fuel vm r junk m ≡ finished (run fuel vm r (initial_state vm r junk m))
unfolding exec_ex
exec_ex-run vm r junk m words fuel h = ground arith

-- With an instruction limit, a validated program run under the bounds check comes to an end: it
-- returns a value or -1, it is no fault, and outside the two regions that the caller passed no
-- byte of the memory has changed. Functions of the host that the program can call are assumed to
-- keep to the regions, the regions to be mapped, the shadow stack to have a bit for each byte of the
-- stack, and the target to define what the program uses.
pub exec_ex-IsSafe :
    (vm : Vm) (prog : List Inst) (r : Regions) (junk : ℕ → ℕ) (m : Memory) (words : List ℕ)
    (fuel : ℕ)
    → Guarded vm prog r
    → vm.insts ≡ some words
    → Mapped r m
    → r.mem < 2 ^ 64
    → r.mem_len < 2 ^ 64
    → ((k : ℕ) → junk k < 2 ^ 64)
    → limited vm ≡ true
    → pos_part vm.instruction_limit < fuel
    → (end : Outcome) × (exec_ex fuel vm r junk m ≡ finished (some end))
      × Ends (λ s. MemoryKept r m s.memory) end
unfolding exec_ex
exec_ex-IsSafe vm prog r junk m words fuel g loaded mapped base len junk_words limit enough =
    let first = initial_state vm r junk m in
    let (end, e) = run-ends vm r limit fuel first enough in
    (
      end,
      exec_ex-run vm r junk m words fuel loaded ∙ ap finished e,
      Ends-map (λ s inv. inv.kept)
          (run-Ends vm prog r m g fuel first end
            (initial_state-Inv vm r junk m (length prog) mapped base len junk_words) e),
    )
