-- ===== src/Safe/Guard/Step.antt =====
-- vm/ubpf_safe.c: one round of the loop of `ubpf_exec_ex_safe` keeps every pointer granted and the
-- memory safe, and is no fault.
use mathlib.Core.Bool.{not}
use ubpf.Prelude.{
  ℕ, ◌+◌, ◌^◌, ◌<◌, ◌≡◌, arith, true, some, inl, inr, Bool-cases, get_elem?-lt, get_elem?-some, ◌∙◌,
  Option-cases, if_both, List, length, leb, ◌&&◌,
}
use ubpf.Prelude.Int.{ℤ, pos, ltb_ℤ}
use ubpf.Inst.{
  Inst, w32, w64, byte, half, word, Opcode, alu, neg, le, be, bswap, ldx, ldxbsx, ldxhsx, ldxwsx,
  st, stx, lddw, jump, ja, ja32, call, exit, atomic, decode,
}
use ubpf.Alu.{negate32, negate64}
use ubpf.Alu.Range.{alu32-lt, alu64-lt, negate32-lt, negate64-lt, to_little-lt, to_big-lt}
use ubpf.Memory.{Memory}
use ubpf.Vm.{Vm, Helper}
use ubpf.Vm.Program.{fetch_instruction}
use ubpf.Interp.{Regions, State, set_reg}
use ubpf.Interp.Shadow.{validate_shadow_register}
use ubpf.Interp.Call.{external_function}
use ubpf.Interp.Step.{exec_neg, limited}
use ubpf.Safety.{Inv, Loaded, Defined, DefinedFor}
use ubpf.Safety.Invariant.{Inv-set_reg, Inv-set_pc, Inv-set_shadow_registers}
use ubpf.Safety.Effects.{mem_load-Reads, mem_load_sx-Reads}
use ubpf.Safety.Flow.{
  operand-lt, to_word, jump_if-Inv, load_wide-Ends, exec_neg-Ends, clear_upper-Ends, count_down-Inv,
  count_down-pc,
}
use ubpf.Safety.Control.{Keeps, enter_function-Inv, jump_by-Inv}
use ubpf.Safety.Checks.{Needs}
use ubpf.Safety.Program.{Checked, CheckedAt}
use ubpf.Safe.{Tag, scalar_tag, SafeState, under_tags}
use ubpf.Safe.Alu.{Tagged}
use ubpf.Safe.Alu.Origin.{Makes, makes, refuses}
use ubpf.Safe.Step.{
  exec_alu32, exec_alu64, exec_little, exec_big, exec_jump, with_core, safe_wide, safe_opcode,
  is_arithmetic, retag, settle_tag, clear_tagged, safe_switch, safe_inst, safe_fetch, safe_step,
}
use ubpf.Safe.Guard.{Granted, SafeMemory, SafeInv, SafeEnds, goes_on, fails}
use ubpf.Safe.Guard.Tags.{
  number-Granted, apply_alu-Granted, SafeInv-set_core, SafeInv-set_tag, under_tags-Ends,
  SafeEnds-bind,
}
use ubpf.Safe.Guard.Transfer.{safe_load-Ends, safe_store-Ends, safe_atomic-Ends}
use ubpf.Safe.Guard.Call.{safe_call-Ends, safe_exit-Ends}

-- What the host provides for the safe profile: a target that defines what the program uses, a loaded
-- program that the validator accepted, and functions that keep to what the program can write. No bounds check is needed.
pub record SafeGuarded (vm : Vm) (prog : List Inst) (r : Regions) (start : Memory) : Type 0 where
  pub defined : Defined r.target prog
  pub loaded : Loaded vm prog
  pub checked : Checked vm prog
  pub helpers :
      (imm : ℤ) (f : Helper) → external_function vm imm ≡ some f → Keeps (SafeMemory vm r start) f

module _ (vm : Vm) (prog : List Inst) (r : Regions) (start : Memory)
    (g : SafeGuarded vm prog r start) where
  abbrev Good : SafeState → Type 0
  Good = SafeInv vm r start (length prog)

  abbrev Sane : State → Type 0
  Sane = Inv (SafeMemory vm r start) (length prog)

  with_core-Ends : (s : SafeState) (t : State) → Good s → Sane t → SafeEnds Good (with_core s t)
  unfolding with_core
  with_core-Ends s t inv h = goes_on (SafeInv-set_core inv t h)

  set_reg-Ends :
      (s : SafeState) (d v : ℕ)
      → v < 2 ^ 64
      → Good s
      → SafeEnds Good (with_core s (set_reg s.core d v))
  set_reg-Ends s d v h inv = with_core-Ends s _ inv (Inv-set_reg inv.core_inv d v h)

  safe_wide-Ends :
      (i : Inst) (s : SafeState) (at_pc : ℕ)
      → s.core.pc ≡ at_pc + 1
      → Needs vm prog at_pc i lddw
      → Good s
      → SafeEnds Good (safe_wide vm i s)
  unfolding safe_wide
  safe_wide-Ends i s at_pc here (next, e) inv =
      let found : fetch_instruction vm s.core.pc ≡ some next =
        g.loaded.fetches s.core.pc ∙ (rw here e) in
      rw found (
        under_tags-Ends (SafeInv-set_tag inv i.dst scalar_tag (number-Granted vm r)) (
          load_wide-Ends (SafeMemory vm r start) (length prog) g.loaded.small i next s.core
            (rw here (get_elem?-lt prog (at_pc + 1) next e)) inv.core_inv))

  negated-Ends :
      (i : Inst) (negate : ℕ → ℕ) (s : SafeState)
      → r.target.wrapping_negation ≡ true
      → negate (s.core.reg i.dst) < 2 ^ 64
      → Good s
      → SafeEnds Good (under_tags s (exec_neg r i negate s.core))
  negated-Ends i negate s wraps small inv =
      under_tags-Ends inv
        (exec_neg-Ends (SafeMemory vm r start) _ r i negate s.core wraps small inv.core_inv)

  safe_opcode-Ends :
      (i : Inst) (op : Opcode) (s : SafeState) (at_pc : ℕ)
      → s.core.pc ≡ at_pc + 1
      → Needs vm prog at_pc i op
      → DefinedFor r.target op
      → Good s
      → SafeEnds Good (safe_opcode vm r i op s)
  unfolding safe_opcode exec_alu32 exec_alu64 exec_little exec_big exec_jump
  safe_opcode-Ends i (alu w32 op k) s at_pc here needs defined inv =
      set_reg-Ends s i.dst _ (to_word (alu32-lt op k i.offset _ _)) inv
  safe_opcode-Ends i (alu w64 op k) s at_pc here needs defined inv =
      set_reg-Ends s i.dst _
        (alu64-lt op k i.offset _ _ (inv.core_inv.words i.dst)
          (operand-lt (SafeMemory vm r start) (length prog) k i s.core inv.core_inv))
        inv
  safe_opcode-Ends i (neg w32) s at_pc here needs defined inv =
      negated-Ends i negate32 s defined (to_word (negate32-lt _)) inv
  safe_opcode-Ends i (neg w64) s at_pc here needs defined inv =
      negated-Ends i negate64 s defined (negate64-lt _) inv
  safe_opcode-Ends i le s at_pc here needs defined inv =
      set_reg-Ends s i.dst _ (to_little-lt i.imm _ (inv.core_inv.words i.dst)) inv
  safe_opcode-Ends i be s at_pc here needs defined inv =
      set_reg-Ends s i.dst _ (to_big-lt i.imm _ (inv.core_inv.words i.dst)) inv
  safe_opcode-Ends i bswap s at_pc here needs defined inv =
      set_reg-Ends s i.dst _ (to_big-lt i.imm _ (inv.core_inv.words i.dst)) inv
  safe_opcode-Ends i (ldx z) s at_pc here needs defined inv =
      safe_load-Ends vm r start _ i _ _ _ s (mem_load-Reads _ _ start z) inv
  safe_opcode-Ends i ldxbsx s at_pc here needs defined inv =
      safe_load-Ends vm r start _ i 1 _ _ s (mem_load_sx-Reads _ _ start byte) inv
  safe_opcode-Ends i ldxhsx s at_pc here needs defined inv =
      safe_load-Ends vm r start _ i 2 _ _ s (mem_load_sx-Reads _ _ start half) inv
  safe_opcode-Ends i ldxwsx s at_pc here needs defined inv =
      safe_load-Ends vm r start _ i 4 _ _ s (mem_load_sx-Reads _ _ start word) inv
  safe_opcode-Ends i (st z) s at_pc here needs defined inv =
      safe_store-Ends vm r start _ i _ _ _ s inv
  safe_opcode-Ends i (stx z) s at_pc here needs defined inv =
      safe_store-Ends vm r start _ i _ _ _ s inv
  safe_opcode-Ends i lddw s at_pc here needs defined inv = safe_wide-Ends i s at_pc here needs inv
  safe_opcode-Ends i (jump w op k) s at_pc here needs defined inv = with_core-Ends s _ inv (
      jump_if-Inv (SafeMemory vm r start) (length prog) _ i.offset s.core
        (rw here (omega (arith, needs))) inv.core_inv)
  safe_opcode-Ends i ja s at_pc here needs defined inv = with_core-Ends s _ inv (
      jump_by-Inv vm r (SafeMemory vm r start) (length prog) i.offset s.core
        (rw here (omega (arith, needs))) inv.core_inv)
  safe_opcode-Ends i ja32 s at_pc here needs defined inv = with_core-Ends s _ inv (
      jump_by-Inv vm r (SafeMemory vm r start) (length prog) i.imm s.core
        (rw here (omega (arith, needs))) inv.core_inv)
  safe_opcode-Ends i call s at_pc here needs defined inv =
      safe_call-Ends vm r start (length prog) i s
        (λ e. let (f, found) = needs.0 e in (f, found, g.helpers i.imm f found))
        (λ e. rw here (omega (arith, needs.1 e))) inv
  safe_opcode-Ends i exit s at_pc here needs defined inv = safe_exit-Ends vm r start _ s inv
  safe_opcode-Ends i (atomic w) s at_pc here needs defined inv =
      safe_atomic-Ends vm r start _ i w s defined inv

  retag-Ends :
      (i : Inst) (x : Tagged) (s : SafeState)
      → Makes (Granted vm r) x
      → Good s
      → SafeEnds Good (retag i x s)
  unfolding retag
  retag-Ends i x s (makes {t = t} h) inv = goes_on (SafeInv-set_tag inv i.dst t h)
  retag-Ends i x s refuses inv = fails inv

  settle_tag-Ends :
      (i : Inst) (before : ℕ → Tag) (s : SafeState)
      → ((k : ℕ) → Granted vm r (before k))
      → Good s
      → SafeEnds Good (settle_tag i before s)
  unfolding settle_tag
  settle_tag-Ends i before s h inv =
      if_both (SafeEnds Good) (is_arithmetic i)
        (retag-Ends i _ s (apply_alu-Granted vm r i _ _ _ (h i.dst) (h i.src)) inv) (goes_on inv)

  clear_tagged-Ends : (i : Inst) (s : SafeState) → Good s → SafeEnds Good (clear_tagged i s)
  unfolding clear_tagged
  clear_tagged-Ends i s inv =
      under_tags-Ends inv
        (clear_upper-Ends (SafeMemory vm r start) (length prog) i s.core inv.core_inv)

  abbrev Uses : Inst → Type 0
  Uses i = (op : Opcode) → decode i.opcode ≡ some op → DefinedFor r.target op

  safe_switch-Ends :
      (i : Inst) (s : SafeState) (at_pc : ℕ)
      → s.core.pc ≡ at_pc + 1
      → CheckedAt vm prog at_pc i
      → Uses i
      → Good s
      → SafeEnds Good (safe_switch vm r i s)
  unfolding safe_switch
  safe_switch-Ends i s at_pc here (inl behind) uses inv = rw (behind.0, safe_switch) (fails inv)
  safe_switch-Ends i s at_pc here (inr (op, e, needs)) uses inv =
      rw (e, safe_switch)
        (SafeEnds-bind
          (SafeEnds-bind (safe_opcode-Ends i op s at_pc here needs (uses op e) inv)
            (λ t good. settle_tag-Ends i s.tags t inv.tags_granted good))
          (clear_tagged-Ends i))

  safe_inst-Ends :
      (i : Inst) (s : SafeState) (at_pc : ℕ)
      → s.core.pc ≡ at_pc + 1
      → CheckedAt vm prog at_pc i
      → Uses i
      → Good s
      → SafeEnds Good (safe_inst vm r i s)
  unfolding safe_inst
  safe_inst-Ends i s at_pc here c uses inv =
      elim (Option-cases (validate_shadow_register vm s.core.shadow_registers i)) [
        | inl e ↦ rw (e, safe_inst) (fails inv)
        | inr (mask, e) ↦
            rw (e, safe_inst)
              (safe_switch-Ends i _ at_pc here c uses
                (SafeInv-set_core inv _ (Inv-set_shadow_registers inv.core_inv mask)))
      ]

  safe_fetch-Ends :
      (s : SafeState) → s.core.pc < length prog → Good s → SafeEnds Good (safe_fetch vm r s)
  unfolding safe_fetch
  safe_fetch-Ends s inside inv =
      let (i, at_i) = get_elem?-some prog s.core.pc inside in
      let found : fetch_instruction vm s.core.pc ≡ some i = g.loaded.fetches s.core.pc ∙ at_i in
      rw (found, safe_fetch)
        (safe_inst-Ends i _ s.core.pc (omega (arith, g.loaded.small)) (g.checked s.core.pc i at_i)
          (λ op. g.defined s.core.pc i op at_i)
          (SafeInv-set_core inv _ (Inv-set_pc inv.core_inv _ (omega (arith, g.loaded.small)))))

  pub safe_step-Ends : (s : SafeState) → Good s → SafeEnds Good (safe_step vm r s)
  unfolding safe_step
  safe_step-Ends s inv = elim (Bool-cases (leb vm.num_insts s.core.pc)) [
    | inl e ↦ rw e (fails inv)
    | inr e ↦
        let inside : s.core.pc < length prog = ground (arith, g.loaded.count) in
        rw e (
          if_both (SafeEnds Good) (limited vm && not (ltb_ℤ (pos 0) s.core.budget)) (fails inv) (
            safe_fetch-Ends _ (rw (count_down-pc vm s.core) inside) (
              SafeInv-set_core inv _ (
                enter_function-Inv vm r (SafeMemory vm r start) _ _
                  (count_down-Inv (SafeMemory vm r start) (length prog) vm s.core inv.core_inv)))))
  ]
