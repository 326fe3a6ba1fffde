-- ===== src/Interp/Limit/Rounds.antt =====
-- No instruction gives rounds back to the interpreter's loop (vm/ubpf_vm.c, `ubpf_exec_ex`).
use mathlib.Core.Bool.{not}
use ubpf.Prelude.{
  ℕ, ◌%◌, ◌^◌, ◌&&◌, ◌||◌, ◌≡◌, Option, none, some, Option-cases, inl, inr, if_both, leb, ltb, ◌==◌,
}
use ubpf.Prelude.Int.{ℤ}
use ubpf.Inst.{
  Inst, Opcode, Width, w32, w64, alu, neg, ldx, ldxbsx, ldxhsx, ldxwsx, st, stx, lddw, jump, call,
  exit, atomic, decode,
}
use ubpf.Alu.{negate32, negate64}
use ubpf.Memory.{Memory, mem_load, mem_store}
use ubpf.Vm.{Vm}
use ubpf.Vm.Program.{fetch_instruction}
use ubpf.Interp.{Regions, State, Outcome, Error, running, returned, failed, fault, ◌>>=◌}
use ubpf.Interp.Bounds.{bounds_check, effective_address, Address-cases}
use ubpf.Interp.Jump.{jump_by}
use ubpf.Interp.Shadow.{validate_shadow_register, check_shadow_stack, reads_past, marks_past}
use ubpf.Interp.Access.{
  shadow_load, put, load_at, exec_load, shadow_store, checked_store, leave, store_value, exec_store,
  fetched, fetches, atomic_with, atomic_at, exec_atomic, atomic_access, width_bytes,
}
use ubpf.Interp.Call.{
  run_helper, external_function, after_helper, call_external, call_local, exec_call, return_to,
  exec_exit,
}
use ubpf.Interp.Step.{
  jump_if, exec_neg, load_wide, exec_opcode, clear_upper, exec_switch, exec_inst, fetch_and_exec,
}

-- Where the loop goes on, so many rounds are left.
pub data Left (b : ℤ) : Outcome → Type 0 where
  goes_on : {s : State} → s.budget ≡ b → Left b (running s)
  stops : {v : ℕ} {s : State} → Left b (returned v s)
  fails : {e : Error} {s : State} → Left b (failed e s)
  faults : Left b fault

module _ (vm : Vm) (r : Regions) (b : ℤ) where
  abbrev Same : State → Type 0
  Same s = s.budget ≡ b

  pub put-Left : (dst : ℕ) (s : State) (o : Option ℕ) → Same s → Left b (put dst s o)
  unfolding put
  put-Left dst s none h = faults
  put-Left dst s (some v) h = goes_on h

  pub leave-Left : (s : State) (m : Option Memory) → Same s → Left b (leave s m)
  unfolding leave
  leave-Left s none h = faults
  leave-Left s (some m) h = goes_on h

  load_at-Left :
      (i : Inst) (size : ℕ) (read : Memory → ℕ → Option ℕ) (s : State) (a : ℕ)
      → Same s
      → Left b (load_at vm r i size read s a)
  unfolding load_at shadow_load
  load_at-Left i size read s a h =
      let after : Same (shadow_load vm r i.dst size a s) =
        if_both Same (check_shadow_stack vm r s.shadow_stack a size) h h in
      if_both (Left b) (reads_past vm r s.shadow_stack a size) faults (
        if_both (Left b) (not (bounds_check vm r a size)) fails (
          put-Left i.dst (shadow_load vm r i.dst size a s)
            (read (shadow_load vm r i.dst size a s).memory a) after))

  exec_load-Left :
      (i : Inst) (size : ℕ) (read : Memory → ℕ → Option ℕ) (s : State)
      → Same s
      → Left b (exec_load vm r i size read s)
  unfolding exec_load
  exec_load-Left i size read s h = elim (Address-cases (effective_address (s.reg i.src) i.offset)) [
    | inl (a, e) ↦ rw (e, exec_load) (load_at-Left i size read s a h)
    | inr (x, e) ↦ rw (e, exec_load) fails
  ]

  checked_store-Left :
      (i : Inst) (size : ℕ) (act : ℕ → State → Outcome) (s : State)
      → ((a : ℕ) (t : State) → Same t → Left b (act a t))
      → Same s
      → Left b (checked_store vm r i size act s)
  unfolding checked_store shadow_store
  checked_store-Left i size act s acts h =
      elim (Address-cases (effective_address (s.reg i.dst) i.offset)) [
        | inl (a, e) ↦
            rw (e, checked_store)
              (if_both (Left b) (not (bounds_check vm r a size)) fails (
                if_both (Left b) (marks_past vm r a size) faults
                  (acts a (shadow_store vm r size a s) h)))
        | inr (x, e) ↦ rw (e, checked_store) fails
      ]

  exec_store-Left :
      (i : Inst) (size v : ℕ) (s : State) → Same s → Left b (exec_store vm r i size v s)
  unfolding exec_store store_value
  exec_store-Left i size v s h =
      checked_store-Left i size (store_value size v) s
        (λ a t same. leave-Left t (mem_store size t.memory a v) same) h

  fetched-Left :
      (w : Width) (i : Inst) (old : ℕ) (out : Outcome) → Left b out → Left b (fetched w i old out)
  unfolding fetched
  fetched-Left w i old (running s) (goes_on h) = goes_on (if_both Same (fetches w i.imm) h h)
  fetched-Left w i old (returned v s) h = stops
  fetched-Left w i old (failed e s) h = fails
  fetched-Left w i old fault h = faults

  atomic_with-Left :
      (w : Width) (i : Inst) (a : ℕ) (s : State) (old : ℕ) (new : Option ℕ)
      → Same s
      → Left b (atomic_with w i a s old new)
  unfolding atomic_with
  atomic_with-Left w i a s old none h = fails
  atomic_with-Left w i a s old (some new) h = fetched-Left w i old _ (leave-Left s _ h)

  pub atomic_at-Left :
      (w : Width) (i : Inst) (a : ℕ) (s : State) → Same s → Left b (atomic_at w i a s)
  unfolding atomic_at
  atomic_at-Left w i a s h = elim (Option-cases (mem_load (width_bytes w) s.memory a)) [
    | inl e ↦ rw (e, atomic_at) faults
    | inr (old, e) ↦ rw (e, atomic_at) (atomic_with-Left w i a s old _ h)
  ]

  pub atomic_access-Left :
      (w : Width) (i : Inst) (a : ℕ) (s : State) → Same s → Left b (atomic_access r w i a s)
  unfolding atomic_access
  atomic_access-Left w i a s h =
      if_both (Left b) (a % width_bytes w == 0 || r.target.unaligned_atomics)
        (atomic_at-Left w i a s h) faults

  pub call_external-Left : (i : Inst) (s : State) → Same s → Left b (call_external vm r i s)
  unfolding call_external after_helper run_helper
  call_external-Left i s h = elim (Option-cases (external_function vm i.imm)) [
    | inl e ↦ rw (e, call_external) faults
    | inr (f, e) ↦ rw (e, call_external) (if_both (Left b) _ stops (goes_on h))
  ]

  exec_call-Left : (i : Inst) (s : State) → Same s → Left b (exec_call vm r i s)
  unfolding exec_call call_local jump_by
  exec_call-Left i s h = if_both (Left b) (i.src == 0) (call_external-Left i s h) (
      if_both (Left b) (i.src == 1) (if_both (Left b) (leb 8 s.stack_frame_index) fails (goes_on h))
        (if_both (Left b) (i.src == 2) fails (goes_on h)))

  pub load_wide-Left : (i : Inst) (o : Option Inst) (s : State) → Same s → Left b (load_wide i o s)
  unfolding load_wide
  load_wide-Left i none s h = faults
  load_wide-Left i (some x) s h = goes_on h

  pub exec_neg-Left :
      (i : Inst) (negate : ℕ → ℕ) (s : State) → Same s → Left b (exec_neg r i negate s)
  unfolding exec_neg
  exec_neg-Left i negate s h =
      if_both (Left b) (s.reg i.dst == 2 ^ 63 && not r.target.wrapping_negation) faults (goes_on h)

  exec_opcode-Left :
      (i : Inst) (op : Opcode) (s : State) → Same s → Left b (exec_opcode vm r i op s)
  unfolding exec_opcode jump_if jump_by exec_exit return_to exec_atomic
  exec_opcode-Left i (alu w32 op k) s h = goes_on h
  exec_opcode-Left i (alu w64 op k) s h = goes_on h
  exec_opcode-Left i (neg w32) s h = exec_neg-Left i negate32 s h
  exec_opcode-Left i (neg w64) s h = exec_neg-Left i negate64 s h
  exec_opcode-Left i (ldx z) s h = exec_load-Left i _ _ s h
  exec_opcode-Left i ldxbsx s h = exec_load-Left i _ _ s h
  exec_opcode-Left i ldxhsx s h = exec_load-Left i _ _ s h
  exec_opcode-Left i ldxwsx s h = exec_load-Left i _ _ s h
  exec_opcode-Left i (st z) s h = exec_store-Left i _ _ s h
  exec_opcode-Left i (stx z) s h = exec_store-Left i _ _ s h
  exec_opcode-Left i lddw s h = load_wide-Left i (fetch_instruction vm s.pc) s h
  exec_opcode-Left i (jump w op k) s h = goes_on (if_both Same _ h h)
  exec_opcode-Left i call s h = exec_call-Left i s h
  exec_opcode-Left i exit s h = if_both (Left b) (ltb 0 s.stack_frame_index) (goes_on h) stops
  exec_opcode-Left i (atomic w) s h =
      checked_store-Left i (width_bytes w) (atomic_access r w i) s
        (λ a t same. atomic_access-Left w i a t same) h
  exec_opcode-Left i _ s h = goes_on h

  Left-bind :
      {out : Outcome} {f : State → Outcome}
      → Left b out
      → ((s : State) → Same s → Left b (f s))
      → Left b (out >>= f)
  Left-bind (goes_on h) k = k _ h
  Left-bind stops k = stops
  Left-bind fails k = fails
  Left-bind faults k = faults

  pub clear_upper-Left : (i : Inst) (s : State) → Same s → Left b (clear_upper i s)
  unfolding clear_upper
  clear_upper-Left i s h = goes_on (if_both Same _ h h)

  exec_switch-Left : (i : Inst) (s : State) → Same s → Left b (exec_switch vm r i s)
  unfolding exec_switch
  exec_switch-Left i s h = elim (Option-cases (decode i.opcode)) [
    | inl e ↦ rw (e, exec_switch) fails
    | inr (op, e) ↦ rw (e, exec_switch) (Left-bind (exec_opcode-Left i op s h) (clear_upper-Left i))
  ]

  pub fetch_and_exec-Left : (s : State) → Same s → Left b (fetch_and_exec vm r s)
  unfolding fetch_and_exec exec_inst
  fetch_and_exec-Left s h = elim (Option-cases (fetch_instruction vm s.pc)) [
    | inl e ↦ rw (e, fetch_and_exec) faults
    | inr (i, e) ↦ elim (Option-cases (validate_shadow_register vm s.shadow_registers i)) [
      | inl bad ↦ rw (e, fetch_and_exec, bad, exec_inst) fails
      | inr (mask, ok) ↦ rw (e, fetch_and_exec, ok, exec_inst) (exec_switch-Left i _ h)
    ]
  ]
