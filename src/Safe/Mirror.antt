-- ===== src/Safe/Mirror.antt =====
-- The safe profile (vm/ubpf_safe.c) against the legacy one (vm/ubpf_vm.c, `ubpf_exec_ex`), on a
-- machine whose bounds check and undefined-behaviour check are off.
pub mod Transfer
pub mod Step
pub mod Run
use mathlib.Core.Bool.{not}
use ubpf.Prelude.{
  ℕ, suc, ◌+◌, ◌-◌, ◌≡◌, refl, sym, ◌∙◌, ap, arith, Bool, true, false, Option, none, some, inl, inr,
  Option-cases, if_both, ltb, leb, ◌==◌, ◌&&◌, ◌||◌, if◌then◌else◌,
}
use mathlib.Core.Path.{subst}
use ubpf.Prelude.Int.{ℤ, pos, negsuc, ltb_ℤ}
use ubpf.Word.{u16}
use ubpf.Inst.{
  Inst, Opcode, Width, w32, w64, alu, neg, le, be, bswap, ldx, ldxbsx, ldxhsx, ldxwsx, st, stx,
  lddw, jump, ja, ja32, call, exit, atomic, decode,
}
use ubpf.Memory.{Memory, mem_store}
use ubpf.Vm.{Vm, RegionKind, ResultKind, in_region, SafeRegion, SafeHelper}
use ubpf.Vm.Program.{fetch_instruction}
use ubpf.Interp.{Regions, State, Outcome}
use ubpf.Interp.Bounds.{address, effective_address, bounds_check, uint64_max}
use ubpf.Interp.Shadow.{validate_shadow_register, mark_shadow_stack}
use ubpf.Interp.Access.{
  shadow_load, shadow_store, put, load_at, exec_load, checked_store, leave, store_value, exec_store,
  atomic_at, exec_atomic, fetches, width_bytes,
}
use ubpf.Interp.Call.{call_external, call_local, exec_call, exec_exit, enter_function}
use ubpf.Interp.Step.{
  load_wide, exec_opcode, clear_upper, exec_switch, exec_inst, fetch_and_exec, limited, count_down,
  step,
}
use ubpf.Safe.{
  Tag, scalar_tag, SafeState, SafeOutcome, SafeError, running, returned, failed, fault, under_tags,
  set_tag, ◌>>=◌,
}
use ubpf.Safe.Alu.{Tagged, tagged, untaggable}
use ubpf.Safe.Access.{
  Access-cases, granted, compute_access, with_offset, check_bounds, find_region_by_id,
  is_stack_pointer,
}
use ubpf.Safe.Spill.{is_slot, slot_of, invalidate_spills}
use ubpf.Safe.Transfer.{
  reload, after_load, safe_load, spill, after_store, safe_store, after_atomic, safe_atomic,
}
use ubpf.Safe.Call.{
  tag_result, set_result, after_external, same_kind, region_is_known, safe_helper, safe_external,
  save_tags, restore_tags, safe_local, safe_call, safe_exit,
}
use ubpf.Safe.Step.{
  with_core, exec_alu32, exec_alu64, exec_little, exec_big, exec_jump, safe_wide, safe_opcode,
  is_arithmetic, retag, settle_tag, clear_tagged, safe_switch, safe_inst, safe_fetch, safe_step,
}

-- What the safe profile comes to, against the legacy one: the same, under its tags, or an error.
pub data Mirrors : SafeOutcome → Outcome → Type 0 where
  both_run : {s : SafeState} {t : State} → s.core ≡ t → Mirrors (running s) (Outcome.running t)
  both_return :
      {v : ℕ} {s : SafeState} {t : State}
      → s.core ≡ t
      → Mirrors (returned v s) (Outcome.returned v t)
  gives_up : {e : SafeError} {s : SafeState} {out : Outcome} → Mirrors (failed e s) out
  both_fault : Mirrors fault Outcome.fault

pub under_tags-Mirrors : (s : SafeState) (out : Outcome) → Mirrors (under_tags s out) out
under_tags-Mirrors s (Outcome.running t) = both_run refl
under_tags-Mirrors s (Outcome.returned v t) = both_return refl
under_tags-Mirrors s (Outcome.failed e t) = gives_up
under_tags-Mirrors s Outcome.fault = both_fault

-- What comes after leaves the core alone, or gives up.
pub data Keeps (t : State) : SafeOutcome → Type 0 where
  keeps : {s : SafeState} → s.core ≡ t → Keeps t (running s)
  refuses : {e : SafeError} {s : SafeState} → Keeps t (failed e s)

pub after-Mirrors :
    {a : SafeOutcome} {b : Outcome} (f : SafeState → SafeOutcome)
    → Mirrors a b
    → ((s : SafeState) → Keeps s.core (f s))
    → Mirrors (a >>= f) b
after-Mirrors f (both_run {s = s} h) k = kept (f s) h (k s)
  where
    kept : {c t : State} (out : SafeOutcome) → c ≡ t → Keeps c out → Mirrors out (Outcome.running t)
    kept out h (keeps e) = both_run (e ∙ h)
    kept out h refuses = gives_up
after-Mirrors f (both_return h) k = both_return h
after-Mirrors f gives_up k = gives_up
after-Mirrors f both_fault k = both_fault

pub bind-Mirrors :
    {a : SafeOutcome} {b : Outcome} (f : SafeState → SafeOutcome) (g : State → Outcome)
    → Mirrors a b
    → ((s : SafeState) → Mirrors (f s) (g s.core))
    → Mirrors (a >>= f) (ubpf.Interp.◌>>=◌ b g)
bind-Mirrors f g (both_run {s = s} h) k = subst (λ t. Mirrors (f s) (g t)) h (k s)
bind-Mirrors f g (both_return h) k = both_return h
bind-Mirrors f g gives_up k = gives_up
bind-Mirrors f g both_fault k = both_fault
