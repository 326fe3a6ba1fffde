-- ===== src/Safe.antt =====
-- vm/ubpf_safe.c: the safe execution profile. Beside each register stands a tag that says what its
-- value is: a number, a pointer into a known region with its bounds and permissions, or a handle that
-- only the host may follow. The arithmetic and the jumps are those of the legacy profile.
pub mod Access
pub mod Spill
pub mod Alu
pub mod Transfer
pub mod Call
pub mod Step
pub mod Run
pub mod Limit
pub mod Guard
pub mod Mirror
use Prim.Native.Nat.{bit_and}
use ubpf.Prelude.{ℕ, ◌==◌, if◌then◌else◌, Bool, true, false, ◌&&◌, Option, none, some}
use ubpf.Inst.{Inst}
use ubpf.Interp.{State, Error, Outcome}

-- `enum ubpf_safe_value_kind`.
pub data ValueKind : Type 0 where
  scalar pointer handle : ValueKind

-- `struct ubpf_safe_tag`.
pub record Tag : Type 0 where
  pub kind : ValueKind
  pub region_id : ℕ
  pub permissions : ℕ
  pub base : ℕ
  pub size : ℕ

abbrev pub scalar_tag : Tag
scalar_tag = record { kind = scalar; region_id = 0; permissions = 0; base = 0; size = 0 }

abbrev pub pointer_tag : ℕ → ℕ → ℕ → ℕ → Tag
pointer_tag region_id permissions base size = record {
  kind = pointer;
  region_id = region_id;
  permissions = permissions;
  base = base;
  size = size;
}

abbrev pub handle_tag : ℕ → ℕ → ℕ → ℕ → Tag
handle_tag region_id permissions base size = record {
  kind = handle;
  region_id = region_id;
  permissions = permissions;
  base = base;
  size = size;
}

abbrev pub region_id_input : ℕ
region_id_input = 0xffff_fffe

abbrev pub region_id_stack : ℕ
region_id_stack = 0xffff_ffff

-- `enum ubpf_safe_region_permissions`.
abbrev pub can_read : ℕ
can_read = 1

abbrev pub can_write : ℕ
can_write = 2

abbrev pub can_write_atomic : ℕ
can_write_atomic = 6

abbrev pub all_permissions : ℕ
all_permissions = 7

-- `struct ubpf_safe_frame_state`: the tags of r6 to r9.
pub record SavedTags : Type 0 where
  pub tag_6 : Tag
  pub tag_7 : Tag
  pub tag_8 : Tag
  pub tag_9 : Tag

-- The locals of `ubpf_exec_ex_safe`: those that the legacy profile has too, the tags of the registers,
-- the slots of the stack that hold a tag (`none` for an invalid one) and the saved tags.
pub record SafeState : Type 0 where
  pub core : State
  pub tags : ℕ → Tag
  pub spills : ℕ → Option Tag
  pub saved_tags : ℕ → SavedTags

-- What the safe profile refuses: the messages of vm/ubpf_safe.c.
pub data Refusal : Type 0 where
  not_pointer not_permitted address_overflow address_underflow bad_region : Refusal
  out_of_bounds overruns pointer_escaped invalid_operand : Refusal
  missing_metadata unknown_region wrong_kind result_out_of_range : Refusal

pub data SafeError : Type 0 where
  stopped : Error → SafeError
  refused : Refusal → SafeError

pub data SafeOutcome : Type 0 where
  running : SafeState → SafeOutcome
  returned : ℕ → SafeState → SafeOutcome
  failed : SafeError → SafeState → SafeOutcome
  fault : SafeOutcome

-- The outcome of an operation of the legacy profile, under the tags of `s`.
abbrev pub under_tags : SafeState → Outcome → SafeOutcome
under_tags s (Outcome.running t) = running (record s { core = t })
under_tags s (Outcome.returned v t) = returned v (record s { core = t })
under_tags s (Outcome.failed e t) = failed (stopped e) (record s { core = t })
under_tags s Outcome.fault = fault

infixl 5 ◌>>=◌
abbrev pub ◌>>=◌ : SafeOutcome → (SafeState → SafeOutcome) → SafeOutcome
running s >>= f = f s
returned v s >>= f = returned v s
failed e s >>= f = failed e s
fault >>= f = fault

abbrev pub set_tag : SafeState → ℕ → Tag → SafeState
set_tag s i t = record s { tags = λ j. if j == i then t else s.tags j }
