-- ===== src/Safe/Guard/Tags.antt =====
-- vm/ubpf_safe.c: changes of the tags that keep every pointer granted.
use Prim.Native.Nat.{bit_and}
use ubpf.Prelude.{ℕ, zero, suc, ◌+◌, ◌-◌, ◌/◌, ◌≡◌, arith, Option, none, if_both, ltb, ◌||◌}
use ubpf.Prelude.Int.{ℤ}
use ubpf.Memory.{Memory}
use ubpf.Inst.{Inst}
use ubpf.Vm.{Vm}
use ubpf.Interp.{Regions, State, Outcome, update}
use ubpf.Word.{u64}
use ubpf.Word.Bits.{bit_and_step}
use ubpf.Safety.{Ends, goes_on, stops, fails, Inv}
use ubpf.Safety.Invariant.{update_all}
use ubpf.Safety.Access.{AllIn}
use ubpf.Safe.{Tag, scalar_tag, SavedTags, SafeState, SafeOutcome, under_tags, set_tag, ◌>>=◌}
use ubpf.Safe.Access.Exact.{Permits}
use ubpf.Safe.Alu.{Tagged, apply_alu}
use ubpf.Safe.Alu.Origin.{
  Origin, number, moved, from_dst, from_src, Makes, makes, refuses, apply_alu-Origin,
}
use ubpf.Safe.Spill.{clear_slots, invalidate_spills}
use ubpf.Safe.Guard.{
  CanWrite, Reachable, Writable, Granted, SlotGranted, SavedGranted, SafeMemory, SafeInv, SafeEnds,
}

-- The permission of atomic operations has that of stores.
pub atomic-CanWrite : (p : ℕ) → bit_and p 6 ≡ 6 → CanWrite p
atomic-CanWrite p h = omega (
  arith,
  bit_and_step p 6,
  bit_and_step (p / 2) 3,
  bit_and_step p 2,
  bit_and_step (p / 2) 1,
  bit_and_step (p / 2 / 2) 0,
  bit_and_step (p / 2 / 2) 1,
)

Makes-map : {P Q : Tag → Type 0} {x : Tagged} → ((t : Tag) → P t → Q t) → Makes P x → Makes Q x
Makes-map f (makes h) = makes (f _ h)
Makes-map f refuses = refuses

module _ (vm : Vm) (r : Regions) where
  pub number-Granted : Granted vm r scalar_tag
  number-Granted h = absurd (ground arith)

  -- An access that the tag permits is to bytes that the program can reach.
  pub Permits-Reachable :
      (tag : Tag) (address : ℕ) (offset : ℤ) (size required a : ℕ)
      → Granted vm r tag
      → Permits tag address offset size required a
      → AllIn (Reachable vm r) a size
  Permits-Reachable tag address offset size required a granted p k low high =
      (granted p.points k (omega (arith, p.inside.above)) (omega (arith, p.inside.below))).0

  pub Permits-Writable :
      (tag : Tag) (address : ℕ) (offset : ℤ) (size required a : ℕ)
      → Granted vm r tag
      → Permits tag address offset size required a
      → CanWrite tag.permissions
      → AllIn (Writable vm r) a size
  Permits-Writable tag address offset size required a granted p can k low high =
      (granted p.points k (omega (arith, p.inside.above)) (omega (arith, p.inside.below))).1 can

  Origin-Granted :
      (i : Inst) (dst src : Tag) (result : ℕ) (t : Tag)
      → Granted vm r dst
      → Granted vm r src
      → Origin i dst src result t
      → Granted vm r t
  Origin-Granted i dst src result t d s number = number-Granted
  Origin-Granted i dst src result t d s (moved op reg off) = s
  Origin-Granted i dst src result t d s (from_dst stays) = d
  Origin-Granted i dst src result t d s (from_src stays) = s

  pub apply_alu-Granted :
      (i : Inst) (dst src : Tag) (result : ℕ)
      → Granted vm r dst
      → Granted vm r src
      → Makes (Granted vm r) (apply_alu i dst src result)
  apply_alu-Granted i dst src result d s =
      Makes-map (λ t o. Origin-Granted i dst src result t d s o) (apply_alu-Origin i dst src result)

  pub clear_slots-Granted :
      (left : ℕ) (slots : ℕ → Option Tag) (slot : ℕ)
      → ((k : ℕ) → SlotGranted vm r (slots k))
      → (k : ℕ) → SlotGranted vm r (clear_slots left slots slot k)
  unfolding clear_slots
  clear_slots-Granted zero slots slot h k = h k
  clear_slots-Granted (suc left) slots slot h k =
      clear_slots-Granted left (update slots slot none) (slot + 1)
        (update_all (SlotGranted vm r) slots slot none h tt) k

  pub invalidate_spills-Granted :
      (slots : ℕ → Option Tag) (a size : ℕ)
      → ((k : ℕ) → SlotGranted vm r (slots k))
      → (k : ℕ) → SlotGranted vm r (invalidate_spills r slots a size k)
  unfolding invalidate_spills
  invalidate_spills-Granted slots a size h =
      if_both (λ (f : ℕ → Option Tag). (k : ℕ) → SlotGranted vm r (f k))
        (ltb a r.stack_start
          || ltb (u64 (a + size)) a
          || ltb (u64 (r.stack_start + r.stack_length)) (u64 (a + size)))
        h
        (clear_slots-Granted
          ((u64 (a + size) - 1 - r.stack_start) / 8 + 1 - (a - r.stack_start) / 8) slots
          ((a - r.stack_start) / 8) h)

module _ {vm : Vm} {r : Regions} {start : Memory} {n : ℕ} {s : SafeState}
    (inv : SafeInv vm r start n s) where
  pub SafeInv-set_core :
      (t : State) → Inv (SafeMemory vm r start) n t → SafeInv vm r start n (record s { core = t })
  SafeInv-set_core t h = record {
    core_inv = h;
    tags_granted = inv.tags_granted;
    slots_granted = inv.slots_granted;
    saved_granted = inv.saved_granted;
  }

  pub SafeInv-set_tags :
      (tags : ℕ → Tag)
      → ((k : ℕ) → Granted vm r (tags k))
      → SafeInv vm r start n (record s { tags = tags })
  SafeInv-set_tags tags h = record {
    core_inv = inv.core_inv;
    tags_granted = h;
    slots_granted = inv.slots_granted;
    saved_granted = inv.saved_granted;
  }

  pub SafeInv-set_tag :
      (k : ℕ) (tag : Tag) → Granted vm r tag → SafeInv vm r start n (set_tag s k tag)
  SafeInv-set_tag k tag h =
      SafeInv-set_tags _ (update_all (Granted vm r) s.tags k tag inv.tags_granted h)

  pub SafeInv-set_spills :
      (slots : ℕ → Option Tag)
      → ((k : ℕ) → SlotGranted vm r (slots k))
      → SafeInv vm r start n (record s { spills = slots })
  SafeInv-set_spills slots h = record {
    core_inv = inv.core_inv;
    tags_granted = inv.tags_granted;
    slots_granted = h;
    saved_granted = inv.saved_granted;
  }

  pub SafeInv-set_saved :
      (saved : ℕ → SavedTags)
      → ((k : ℕ) → SavedGranted vm r (saved k))
      → SafeInv vm r start n (record s { saved_tags = saved })
  SafeInv-set_saved saved h = record {
    core_inv = inv.core_inv;
    tags_granted = inv.tags_granted;
    slots_granted = inv.slots_granted;
    saved_granted = h;
  }

  -- An operation of the legacy profile leaves the tags as they are.
  pub under_tags-Ends :
      {out : Outcome}
      → Ends (Inv (SafeMemory vm r start) n) out
      → SafeEnds (SafeInv vm r start n) (under_tags s out)
  under_tags-Ends (goes_on h) = SafeEnds.goes_on (SafeInv-set_core _ h)
  under_tags-Ends (stops h) = SafeEnds.stops (SafeInv-set_core _ h)
  under_tags-Ends (fails h) = SafeEnds.fails (SafeInv-set_core _ h)

pub SafeEnds-bind :
    {P : SafeState → Type 0} {out : SafeOutcome} {f : SafeState → SafeOutcome}
    → SafeEnds P out
    → ((s : SafeState) → P s → SafeEnds P (f s))
    → SafeEnds P (out >>= f)
SafeEnds-bind (SafeEnds.goes_on h) k = k _ h
SafeEnds-bind (SafeEnds.stops h) k = SafeEnds.stops h
SafeEnds-bind (SafeEnds.fails h) k = SafeEnds.fails h

pub SafeEnds-map :
    {P Q : SafeState → Type 0} {out : SafeOutcome}
    → ((s : SafeState) → P s → Q s)
    → SafeEnds P out
    → SafeEnds Q out
SafeEnds-map f (SafeEnds.goes_on h) = SafeEnds.goes_on (f _ h)
SafeEnds-map f (SafeEnds.stops h) = SafeEnds.stops (f _ h)
SafeEnds-map f (SafeEnds.fails h) = SafeEnds.fails (f _ h)
