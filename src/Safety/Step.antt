-- ===== src/Safety/Step.antt =====
-- One round of the interpreter's loop keeps the invariant, and is no fault.
use mathlib.Core.Bool.{not}
use ubpf.Prelude.{
  ℕ, ◌+◌, ◌≤◌, ◌<◌, ◌≡◌, arith, true, none, some, inl, inr, Bool-cases, ==_iff, get_elem?-lt,
  get_elem?-some, ◌∙◌, Option-cases, if_both, List, length, leb, ◌==◌, ◌&&◌,
}
use ubpf.Prelude.Int.{ℤ, pos, ltb_ℤ}
use ubpf.Inst.{
  Inst, w32, w64, byte, half, word, Opcode, alu, neg, le, be, bswap, ldx, ldxbsx, ldxhsx, ldxwsx,
  st, stx, lddw, jump, ja, ja32, call, exit, atomic, decode,
}
use ubpf.Alu.{negate32, negate64}
use ubpf.Alu.Range.{alu32-lt, alu64-lt, negate32-lt, negate64-lt, to_little-lt, to_big-lt}
use ubpf.Memory.{Memory, size_of}
use ubpf.Vm.{Vm, Helper}
use ubpf.Vm.Program.{fetch_instruction}
use ubpf.Interp.{Regions, State}
use ubpf.Interp.Jump.{add_pc}
use ubpf.Interp.Shadow.{validate_shadow_register}
use ubpf.Interp.Call.{external_function, exec_call}
use ubpf.Interp.Step.{exec_opcode, exec_switch, exec_inst, fetch_and_exec, limited, step}
use ubpf.Safety.{
  Ends, goes_on, fails, InRegion, MemoryKept, Inv, Loaded, ShadowFits, Defined, DefinedFor,
}
use ubpf.Safety.Invariant.{Inv-set_reg, Inv-set_pc, Inv-set_shadow_registers, Ends-bind}
use ubpf.Safety.Effects.{mem_load-Reads, mem_load_sx-Reads}
use ubpf.Safety.Flow.{
  operand-lt, to_word, jump_if-Inv, load_wide-Ends, exec_neg-Ends, clear_upper-Ends, count_down-Inv,
  count_down-pc,
}
use ubpf.Safety.Transfer.{exec_load-Ends, exec_store-Ends, exec_atomic-Ends}
use ubpf.Safety.Control.{
  KeepsMemory, enter_function-Inv, jump_by-Inv, call_external-Ends, call_local-Ends, exec_exit-Ends,
}
use ubpf.Safety.Checks.{Needs}
use ubpf.Safety.Program.{Checked, CheckedAt}

-- What a caller has to provide for a program to run safely: the bounds check is on and stands
-- alone, the shadow stack has a bit for each byte, the target defines what the program uses, the
-- program is loaded and validated, and the functions of the host keep to the regions.
pub record Guarded (vm : Vm) (prog : List Inst) (r : Regions) : Type 0 where
  pub bounds_checked : vm.bounds_check_enabled ≡ true
  pub no_other_check : vm.bounds_check_function ≡ none
  pub shadow_fits : ShadowFits vm r
  pub defined : Defined r.target prog
  pub loaded : Loaded vm prog
  pub checked : Checked vm prog
  pub helpers : (imm : ℤ) (f : Helper) → external_function vm imm ≡ some f → KeepsMemory r f

module _ (vm : Vm) (prog : List Inst) (r : Regions) (start : Memory) (g : Guarded vm prog r) where
  abbrev Good : State → Type 0
  Good = Inv (MemoryKept r start) (length prog)

  exec_call-Ends :
      (i : Inst) (s : State) (at_pc : ℕ)
      → s.pc ≡ at_pc + 1
      → Needs vm prog at_pc i call
      → Good s
      → Ends Good (exec_call vm r i s)
  unfolding exec_call
  exec_call-Ends i s at_pc here needs inv = elim (Bool-cases (i.src == 0)) [
    | inl external ↦
        let (f, found) = needs.0 ((==_iff i.src 0).0 external) in
        rw external (
          call_external-Ends vm r (MemoryKept r start) _ i s f found (g.helpers i.imm f found start)
            inv)
    | inr e₀ ↦ elim (Bool-cases (i.src == 1)) [
      | inl local ↦
          let target : add_pc s.pc i.imm ≤ length prog =
            rw here (omega (arith, needs.1 ((==_iff i.src 1).0 local))) in
          rw (e₀, local) (call_local-Ends vm r (MemoryKept r start) _ i s target inv)
      | inr e₁ ↦ rw (e₀, e₁) (if_both (Ends Good) (i.src == 2) (fails inv) (goes_on inv))
    ]
  ]

  exec_opcode-Ends :
      (i : Inst) (op : Opcode) (s : State) (at_pc : ℕ)
      → s.pc ≡ at_pc + 1
      → Needs vm prog at_pc i op
      → DefinedFor r.target op
      → Good s
      → Ends Good (exec_opcode vm r i op s)
  unfolding exec_opcode
  exec_opcode-Ends i (alu w32 op k) s at_pc here needs defined inv =
      goes_on (Inv-set_reg inv _ _ (to_word (alu32-lt op k i.offset _ _)))
  exec_opcode-Ends i (alu w64 op k) s at_pc here needs defined inv = goes_on (
      Inv-set_reg inv _ _ (
        alu64-lt op k i.offset _ _ (inv.words i.dst) (operand-lt (MemoryKept r start) _ k i s inv)))
  exec_opcode-Ends i (neg w32) s at_pc here needs defined inv =
      exec_neg-Ends (MemoryKept r start) _ r i negate32 s defined (to_word (negate32-lt _)) inv
  exec_opcode-Ends i (neg w64) s at_pc here needs defined inv =
      exec_neg-Ends (MemoryKept r start) _ r i negate64 s defined (negate64-lt _) inv
  exec_opcode-Ends i le s at_pc here needs defined inv =
      goes_on (Inv-set_reg inv _ _ (to_little-lt i.imm _ (inv.words i.dst)))
  exec_opcode-Ends i be s at_pc here needs defined inv =
      goes_on (Inv-set_reg inv _ _ (to_big-lt i.imm _ (inv.words i.dst)))
  exec_opcode-Ends i bswap s at_pc here needs defined inv =
      goes_on (Inv-set_reg inv _ _ (to_big-lt i.imm _ (inv.words i.dst)))
  exec_opcode-Ends i (ldx z) s at_pc here needs defined inv =
      exec_load-Ends vm r start _ g.bounds_checked g.no_other_check g.shadow_fits i _ _ s
        (mem_load-Reads (InRegion r) (InRegion r) start z) inv
  exec_opcode-Ends i ldxbsx s at_pc here needs defined inv =
      exec_load-Ends vm r start _ g.bounds_checked g.no_other_check g.shadow_fits i 1 _ s
        (mem_load_sx-Reads (InRegion r) (InRegion r) start byte) inv
  exec_opcode-Ends i ldxhsx s at_pc here needs defined inv =
      exec_load-Ends vm r start _ g.bounds_checked g.no_other_check g.shadow_fits i 2 _ s
        (mem_load_sx-Reads (InRegion r) (InRegion r) start half) inv
  exec_opcode-Ends i ldxwsx s at_pc here needs defined inv =
      exec_load-Ends vm r start _ g.bounds_checked g.no_other_check g.shadow_fits i 4 _ s
        (mem_load_sx-Reads (InRegion r) (InRegion r) start word) inv
  exec_opcode-Ends i (st z) s at_pc here needs defined inv =
      exec_store-Ends vm r start _ g.bounds_checked g.no_other_check g.shadow_fits i (size_of z) _ s
        inv
  exec_opcode-Ends i (stx z) s at_pc here needs defined inv =
      exec_store-Ends vm r start _ g.bounds_checked g.no_other_check g.shadow_fits i (size_of z) _ s
        inv
  exec_opcode-Ends i lddw s at_pc here needs defined inv =
      let (next, e) = needs in
      let found : fetch_instruction vm s.pc ≡ some next = g.loaded.fetches s.pc ∙ (rw here e) in
      rw found (
        load_wide-Ends (MemoryKept r start) _ g.loaded.small i next s
          (rw here (get_elem?-lt prog (at_pc + 1) next e)) inv)
  exec_opcode-Ends i (jump w op k) s at_pc here needs defined inv =
      goes_on (jump_if-Inv (MemoryKept r start) _ _ i.offset s (rw here (omega (arith, needs))) inv)
  exec_opcode-Ends i ja s at_pc here needs defined inv =
      goes_on
        (jump_by-Inv vm r (MemoryKept r start) _ i.offset s (rw here (omega (arith, needs))) inv)
  exec_opcode-Ends i ja32 s at_pc here needs defined inv =
      goes_on (jump_by-Inv vm r (MemoryKept r start) _ i.imm s (rw here (omega (arith, needs))) inv)
  exec_opcode-Ends i call s at_pc here needs defined inv = exec_call-Ends i s at_pc here needs inv
  exec_opcode-Ends i exit s at_pc here needs defined inv =
      exec_exit-Ends vm r (MemoryKept r start) _ s inv
  exec_opcode-Ends i (atomic w) s at_pc here needs defined inv =
      exec_atomic-Ends vm r start _ g.bounds_checked g.no_other_check g.shadow_fits i w s defined
        inv

  abbrev Uses : Inst → Type 0
  Uses i = (op : Opcode) → decode i.opcode ≡ some op → DefinedFor r.target op

  exec_switch-Ends :
      (i : Inst) (s : State) (at_pc : ℕ)
      → s.pc ≡ at_pc + 1
      → CheckedAt vm prog at_pc i
      → Uses i
      → Good s
      → Ends Good (exec_switch vm r i s)
  unfolding exec_switch
  exec_switch-Ends i s at_pc here (inl behind) uses inv = rw (behind.0, exec_switch) (fails inv)
  exec_switch-Ends i s at_pc here (inr (op, e, needs)) uses inv =
      rw (e, exec_switch)
        (Ends-bind (exec_opcode-Ends i op s at_pc here needs (uses op e) inv)
          (clear_upper-Ends (MemoryKept r start) _ i))

  exec_inst-Ends :
      (i : Inst) (s : State) (at_pc : ℕ)
      → s.pc ≡ at_pc + 1
      → CheckedAt vm prog at_pc i
      → Uses i
      → Good s
      → Ends Good (exec_inst vm r i s)
  unfolding exec_inst
  exec_inst-Ends i s at_pc here c uses inv =
      elim (Option-cases (validate_shadow_register vm s.shadow_registers i)) [
        | inl e ↦ rw (e, exec_inst) (fails inv)
        | inr (mask, e) ↦
            rw (e, exec_inst)
              (exec_switch-Ends i _ at_pc here c uses (Inv-set_shadow_registers inv mask))
      ]

  fetch_and_exec-Ends :
      (s : State) → s.pc < length prog → Good s → Ends Good (fetch_and_exec vm r s)
  unfolding fetch_and_exec
  fetch_and_exec-Ends s inside inv =
      let (i, at_i) = get_elem?-some prog s.pc inside in
      let found : fetch_instruction vm s.pc ≡ some i = g.loaded.fetches s.pc ∙ at_i in
      rw (found, fetch_and_exec)
        (exec_inst-Ends i _ s.pc (omega (arith, g.loaded.small)) (g.checked s.pc i at_i)
          (λ op. g.defined s.pc i op at_i) (Inv-set_pc inv _ (omega (arith, g.loaded.small))))

  -- A round from a state with the invariant is no fault, and leaves the invariant: on a machine with
  -- the bounds check on, a loaded and validated program, functions of the host that keep to the
  -- regions, a shadow stack with a bit for each byte of the stack, and a target that defines what the
  -- program uses.
  pub step-Ends : (s : State) → Good s → Ends Good (step vm r s)
  unfolding step
  step-Ends s inv = elim (Bool-cases (leb vm.num_insts s.pc)) [
    | inl e ↦ rw e (fails inv)
    | inr e ↦
        let inside : s.pc < length prog = ground (arith, g.loaded.count) in
        rw e (
          if_both (Ends Good) (limited vm && not (ltb_ℤ (pos 0) s.budget)) (fails inv) (
            fetch_and_exec-Ends _ (rw (count_down-pc vm s) inside) (
              enter_function-Inv vm r (MemoryKept r start) _ _
                (count_down-Inv (MemoryKept r start) _ vm s inv))))
  ]
