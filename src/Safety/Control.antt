-- ===== src/Safety/Control.antt =====
-- Calls, returns and jumps keep the invariant.
use ubpf.Prelude.{
  ℕ, ◌+◌, ◌-◌, ◌^◌, ◌≤◌, ◌<◌, ◌≡◌, arith, some, inl, inr, Bool-cases, if_both, ltb, leb, ◌==◌,
}
use ubpf.Prelude.Int.{ℤ}
use ubpf.Inst.{Inst}
use ubpf.Memory.{Memory}
use ubpf.Vm.{Vm, Helper}
use ubpf.Interp.{Regions, State, StackFrame}
use ubpf.Interp.Jump.{add_pc, jump_by}
use ubpf.Interp.Call.{
  entered_frame, enter_function, run_helper, external_function, after_helper, call_external,
  saved_frame, call_local, restore, return_to, exec_exit,
}
use ubpf.Safety.{Ends, goes_on, stops, fails, MemoryKept, FrameIn, Inv}
use ubpf.Safety.Invariant.{Inv-set_reg, Inv-set_pc, Inv-set_memory, Inv-set_frame, Inv-set_depth}

-- A function of the host keeps a condition on the memory, whatever its arguments.
abbrev pub Keeps : (Memory → Type 0) → Helper → Type 0
Keeps Keep f =
    (a₁ a₂ a₃ a₄ a₅ cookie : ℕ) (m : Memory) → Keep m → Keep (f a₁ a₂ a₃ a₄ a₅ cookie m).1

-- What the model assumes of a function of the host: it writes to the two regions only, and leaves
-- them mapped.
abbrev pub KeepsMemory : Regions → Helper → Type 0
KeepsMemory r f = (start : Memory) → Keeps (MemoryKept r start) f

module _ (vm : Vm) (r : Regions) (Keep : Memory → Type 0) (n : ℕ) where
  abbrev Good : State → Type 0
  Good = Inv Keep n

  pub enter_function-Inv : (s : State) → Good s → Good (enter_function vm s)
  unfolding enter_function entered_frame
  enter_function-Inv s inv =
      if_both Good _ (Inv-set_frame inv _ _ (inv.frames s.stack_frame_index)) inv

  pub jump_by-Inv :
      (offset : ℤ) (s : State) → add_pc s.pc offset ≤ n → Good s → Good (jump_by offset s)
  unfolding jump_by
  jump_by-Inv offset s h inv = Inv-set_pc inv _ h

  run_helper-Inv :
      (f : Helper) (cookie : ℕ) (s : State) → Keeps Keep f → Good s → Good (run_helper f cookie s)
  unfolding run_helper
  run_helper-Inv f cookie s keeps inv =
      Inv-set_memory (Inv-set_reg inv 0 _ (omega arith)) _
        (keeps _ _ _ _ _ cookie s.memory inv.kept)

  after_helper-Ends : (i : Inst) (s : State) → Good s → Ends Good (after_helper vm i s)
  unfolding after_helper
  after_helper-Ends i s inv = if_both (Ends Good) _ (stops inv) (goes_on inv)

  pub call_external-Ends :
      (i : Inst) (s : State) (f : Helper)
      → external_function vm i.imm ≡ some f
      → Keeps Keep f
      → Good s
      → Ends Good (call_external vm r i s)
  unfolding call_external
  call_external-Ends i s f e keeps inv =
      rw (e, call_external) (after_helper-Ends i _ (run_helper-Inv f r.mem s keeps inv))

  pub call_local-Ends :
      (i : Inst) (s : State) → add_pc s.pc i.imm ≤ n → Good s → Ends Good (call_local i s)
  unfolding call_local saved_frame
  call_local-Ends i s target inv = elim (Bool-cases (leb 8 s.stack_frame_index)) [
    | inl e ↦ rw e (fails inv)
    | inr e ↦ rw e (
        goes_on (
          jump_by-Inv i.imm _ target (
            Inv-set_depth
              (Inv-set_reg
                (Inv-set_frame inv s.stack_frame_index (saved_frame s)
                  (inv.pc_in, inv.words 6, inv.words 7, inv.words 8, inv.words 9))
                10 _ (omega arith))
              (s.stack_frame_index + 1) (ground arith))))
  ]

  restore-words :
      (f : StackFrame) (reg : ℕ → ℕ)
      → FrameIn n f
      → ((k : ℕ) → reg k < 2 ^ 64)
      → (k : ℕ) → restore f reg k < 2 ^ 64
  unfolding restore
  restore-words f reg (_, h₆, h₇, h₈, h₉) h k =
      let Word = λ (x : ℕ). x < 2 ^ 64 in
      if_both Word (k == 10) (omega arith) (
        if_both Word (k == 9) h₉
          (if_both Word (k == 8) h₈ (if_both Word (k == 7) h₇ (if_both Word (k == 6) h₆ (h k)))))

  pub exec_exit-Ends : (s : State) → Good s → Ends Good (exec_exit s)
  unfolding exec_exit return_to
  exec_exit-Ends s inv =
      let frame = s.stack_frames (s.stack_frame_index - 1) in
      if_both (Ends Good) (ltb 0 s.stack_frame_index)
        (goes_on (record {
          pc_in = (inv.frames (s.stack_frame_index - 1)).0;
          depth = omega (arith, inv.depth);
          frames = inv.frames;
          words = restore-words frame s.reg (inv.frames (s.stack_frame_index - 1)) inv.words;
          kept = inv.kept;
        }))
        (stops inv)
