-- ===== src/Safe/Transfer/Refused.antt =====
-- vm/ubpf_safe.c: loads, stores and atomic operations that the tags do not permit.
use ubpf.Prelude.{ℕ, ◌≡◌, ◌⊎◌, refl, inl, inr, Bool, Option}
use ubpf.Inst.{Inst, Width}
use ubpf.Memory.{Memory}
use ubpf.Vm.{Vm}
use ubpf.Interp.{Regions}
use ubpf.Interp.Access.{width_bytes}
use ubpf.Safe.{
  SafeState, SafeOutcome, Refusal, failed, refused, can_read, can_write, can_write_atomic,
}
use ubpf.Safe.Access.{Access-cases, compute_access}
use ubpf.Safe.Access.Exact.{Permits, compute_access-Permits}
use ubpf.Safe.Transfer.{safe_load, safe_store, safe_atomic}

-- The program ends with a refusal, in the state in which the instruction found it.
abbrev pub IsRefused : SafeState → SafeOutcome → Type 0
IsRefused s out = (e : Refusal) × (out ≡ failed (refused e) s)

-- The tag of register `k` permits the access at the register's value and the offset, or the outcome
-- is a refusal.
abbrev pub IsGuarded : SafeState → ℕ → Inst → ℕ → ℕ → SafeOutcome → Type 0
IsGuarded s k i size required out =
    ((a : ℕ) × Permits (s.tags k) (s.core.reg k) i.offset size required a) ⊎ IsRefused s out

-- A load, a store or an atomic operation that the tag of its address register does not permit, be
-- it that the register holds a number or a handle, lacks a permission or leaves its region, ends
-- the program with an error, and changes neither the memory nor a register nor a tag.
pub access-IsGuarded :
    (vm : Vm) (r : Regions) (i : Inst) (s : SafeState) (size v : ℕ) (flag : Bool)
    (read : Memory → ℕ → Option ℕ) (w : Width)
    → IsGuarded s i.src i size can_read (safe_load vm r i size flag read s)
      × IsGuarded s i.dst i size can_write (safe_store vm r i size v flag s)
      × IsGuarded s i.dst i (width_bytes w) can_write_atomic (safe_atomic r i w s)
unfolding safe_load safe_store safe_atomic
access-IsGuarded vm r i s size v flag read w = (
  elim (Access-cases (compute_access (s.tags i.src) (s.core.reg i.src) i.offset size can_read)) [
    | inl (a, e) ↦ inl (a, compute_access-Permits _ _ i.offset size can_read a e)
    | inr (x, e) ↦ inr (x, rw (e, safe_load) refl)
  ],
  elim (Access-cases (compute_access (s.tags i.dst) (s.core.reg i.dst) i.offset size can_write)) [
    | inl (a, e) ↦ inl (a, compute_access-Permits _ _ i.offset size can_write a e)
    | inr (x, e) ↦ inr (x, rw (e, safe_store) refl)
  ],
  elim (Access-cases (
      compute_access (s.tags i.dst) (s.core.reg i.dst) i.offset (width_bytes w) can_write_atomic)) [
        | inl (a, e) ↦
            inl (a, compute_access-Permits _ _ i.offset (width_bytes w) can_write_atomic a e)
        | inr (x, e) ↦ inr (x, rw (e, safe_atomic) refl)
      ],
)
