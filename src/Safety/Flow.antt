-- ===== src/Safety/Flow.antt =====
-- vm/ubpf_vm.c, `ubpf_exec_ex`: the instructions that leave the memory alone keep the invariant.
use mathlib.Core.Bool.{not}
use ubpf.Prelude.{
  ℕ, ◌^◌, ◌≤◌, ◌<◌, ◌≡◌, ◌==◌, ◌&&◌, refl, arith, Bool, true, some, if_both, if_cases,
}
use ubpf.Prelude.Int.{ℤ}
use ubpf.Inst.{Inst, Operand, from_imm, from_reg}
use ubpf.Alu.Range.{pattern_of-lt64, pattern_of-lt32}
use ubpf.Memory.{Memory}
use ubpf.Vm.{Vm}
use ubpf.Interp.{Regions, State}
use ubpf.Interp.Jump.{add_pc, jump_by}
use ubpf.Interp.Call.{enter_function}
use ubpf.Interp.Step.{operand, jump_if, load_wide, exec_neg, clear_upper, limited, count_down}
use ubpf.Safety.{Ends, goes_on, Inv}
use ubpf.Safety.Invariant.{Inv-set_reg, Inv-set_pc, Inv-set_budget}

pub to_word : {v : ℕ} → v < 2 ^ 32 → v < 2 ^ 64
to_word h = omega arith

pub count_down-pc : (vm : Vm) (s : State) → (enter_function vm (count_down vm s)).pc ≡ s.pc
unfolding count_down enter_function
count_down-pc vm s =
    if_both (λ (t : State). t.pc ≡ s.pc) _
      (if_both (λ (t : State). t.pc ≡ s.pc) (limited vm) refl refl)
      (if_both (λ (t : State). t.pc ≡ s.pc) (limited vm) refl refl)

module _ (Keep : Memory → Type 0) (n : ℕ) where
  abbrev Good : State → Type 0
  Good = Inv Keep n

  pub operand-lt : (k : Operand) (i : Inst) (s : State) → Good s → operand k i s < 2 ^ 64
  operand-lt from_imm i s inv = pattern_of-lt64 i.imm
  operand-lt from_reg i s inv = inv.words i.src

  pub jump_if-Inv :
      (taken : Bool) (offset : ℤ) (s : State)
      → add_pc s.pc offset ≤ n
      → Good s
      → Good (jump_if taken offset s)
  unfolding jump_if jump_by
  jump_if-Inv taken offset s h inv = if_both Good taken (Inv-set_pc inv _ h) inv

  pub load_wide-Ends :
      n < 65536
      → (i next : Inst) (s : State) → s.pc < n
      → Good s
      → Ends Good (load_wide i (some next) s)
  unfolding load_wide
  load_wide-Ends small i next s h inv = goes_on (
      Inv-set_reg (Inv-set_pc inv _ (omega (arith, small))) i.dst _
        (omega (arith, pattern_of-lt32 i.imm, pattern_of-lt32 next.imm)))

  pub clear_upper-Ends : (i : Inst) (s : State) → Good s → Ends Good (clear_upper i s)
  unfolding clear_upper
  clear_upper-Ends i s inv = goes_on (if_both Good _ (Inv-set_reg inv i.dst _ (omega arith)) inv)

  pub count_down-Inv : (vm : Vm) (s : State) → Good s → Good (count_down vm s)
  unfolding count_down
  count_down-Inv vm s inv = if_both Good _ (Inv-set_budget inv _) inv

  pub exec_neg-Ends :
      (r : Regions) (i : Inst) (negate : ℕ → ℕ) (s : State)
      → r.target.wrapping_negation ≡ true
      → negate (s.reg i.dst) < 2 ^ 64
      → Good s
      → Ends Good (exec_neg r i negate s)
  unfolding exec_neg
  exec_neg-Ends r i negate s wraps small inv =
      if_cases (Ends Good) (s.reg i.dst == 2 ^ 63 && not r.target.wrapping_negation)
        (λ e. absurd (ground arith)) (λ e. goes_on (Inv-set_reg inv i.dst _ small))
