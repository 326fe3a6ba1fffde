-- ===== src/Safe/Guard.antt =====
-- What holds of every run in the safe profile (vm/ubpf_safe.c, `ubpf_exec_ex_safe`): each byte that
-- the tag of a pointer covers is in a region that the host has given to the program.
pub mod Tags
pub mod Transfer
pub mod Call
pub mod Step
pub mod Run
pub mod Loading
use Prim.Native.Nat.{bit_and}
use ubpf.Prelude.{ℕ, ◌+◌, ◌≤◌, ◌<◌, ◌≡◌, ◌⊎◌, Option, none, some}
use ubpf.Memory.{Memory}
use ubpf.Vm.{Vm, RegionKind, SafeRegion}
use ubpf.Interp.{Regions}
use ubpf.Safety.{InRegion, Inv, Kept}
use ubpf.Safe.{
  pointer, Tag, SavedTags, SafeState, SafeOutcome, SafeError, running, returned, failed, can_write,
}

-- A byte of a region of the table that has the property.
abbrev pub InTable : Vm → (SafeRegion → Type 0) → ℕ → Type 0
InTable vm P k =
    (j : ℕ) × (region : SafeRegion) × (vm.safe_regions j ≡ some region)
    × (region.kind ≡ RegionKind.pointer)
    × P region
    × (region.base ≤ k)
    × (k < region.end)

abbrev pub CanWrite : ℕ → Type 0
CanWrite permissions = bit_and permissions can_write ≡ can_write

-- What a program can reach: the caller's memory, the stack and the registered regions; what it can
-- write is in a region that permits it.
abbrev pub Reachable : Vm → Regions → ℕ → Type 0
Reachable vm r k = InRegion r k ⊎ InTable vm (λ region. Unit) k

abbrev pub Writable : Vm → Regions → ℕ → Type 0
Writable vm r k = InRegion r k ⊎ InTable vm (λ region. CanWrite region.permissions) k

-- The tag, if it is a pointer, is one to bytes that the program can reach, and write if it may.
abbrev pub Granted : Vm → Regions → Tag → Type 0
Granted vm r tag =
    tag.kind ≡ pointer
    → (k : ℕ) → tag.base ≤ k
    → k < tag.base + tag.size
    → Reachable vm r k × (CanWrite tag.permissions → Writable vm r k)

abbrev pub SlotGranted : Vm → Regions → Option Tag → Type 0
SlotGranted vm r none = Unit
SlotGranted vm r (some tag) = Granted vm r tag

abbrev pub SavedGranted : Vm → Regions → SavedTags → Type 0
SavedGranted vm r f =
    Granted vm r f.tag_6 × Granted vm r f.tag_7 × Granted vm r f.tag_8 × Granted vm r f.tag_9

-- What the program can reach stays mapped, and what it cannot write stays as it was.
abbrev pub SafeMemory : Vm → Regions → Memory → Memory → Type 0
SafeMemory vm r = Kept (Reachable vm r) (Writable vm r)

-- The invariant of the loop: that of the legacy profile, and every tag is granted.
pub record SafeInv (vm : Vm) (r : Regions) (start : Memory) (n : ℕ) (s : SafeState) : Type 0 where
  pub core_inv : Inv (SafeMemory vm r start) n s.core
  pub tags_granted : (k : ℕ) → Granted vm r (s.tags k)
  pub slots_granted : (k : ℕ) → SlotGranted vm r (s.spills k)
  pub saved_granted : (k : ℕ) → SavedGranted vm r (s.saved_tags k)

-- The outcome is no fault, and its state has the property.
pub data SafeEnds (P : SafeState → Type 0) : SafeOutcome → Type 0 where
  goes_on : {s : SafeState} → P s → SafeEnds P (running s)
  stops : {v : ℕ} {s : SafeState} → P s → SafeEnds P (returned v s)
  fails : {e : SafeError} {s : SafeState} → P s → SafeEnds P (failed e s)
