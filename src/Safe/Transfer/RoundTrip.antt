-- ===== src/Safe/Transfer/RoundTrip.antt =====
-- vm/ubpf_safe.c: a pointer that SAFE_STORE leaves on the stack comes back with SAFE_LOAD.
use ubpf.Prelude.{ℕ, ◌≡◌, ◌≢◌, refl, arith, true, false, some, ==_iff, ◌==◌, ◌∙◌, ap}
use ubpf.Inst.{Inst}
use ubpf.Memory.{Memory, mem_load, mem_store}
use ubpf.Memory.Frame.{mem_load-mem_store}
use ubpf.Vm.{Vm}
use ubpf.Interp.{Regions, update, set_reg}
use ubpf.Interp.Access.{shadow_load, shadow_store, put, leave}
use ubpf.Safety.Access.{mem_store-Kept}
use ubpf.Safe.{Tag, scalar_tag, SafeState, running, can_read, can_write, set_tag}
use ubpf.Safe.Access.{granted, compute_access, is_stack_pointer}
use ubpf.Safe.Access.Exact.{compute_access-Permits}
use ubpf.Safe.Spill.{invalidate_spills, is_slot, slot_of}
use ubpf.Safe.Transfer.{reload, after_load, safe_load, spilled, spill, after_store, safe_store}
use ubpf.Safe.Guard.{SafeInv}
use ubpf.Safe.Guard.Tags.{Permits-Reachable, Permits-Writable}

-- The load of 8 bytes from the address of the store `i` into register `d`.
abbrev pub load_back : Inst → ℕ → Inst
load_back i d = record i { dst = d; src = i.dst }

-- A load that finds a slot in use gives its destination the tag there.
reload_hit :
    (r : Regions) (i : Inst) (a : ℕ) (s : SafeState) (tag : Tag)
    → is_stack_pointer r (s.tags i.src) ≡ true
    → is_slot r a ≡ true
    → s.spills (slot_of r a) ≡ some tag
    → reload r i a s ≡ set_tag s i.dst tag
unfolding reload
reload_hit r i a s tag stack slot held = rw (reload, stack, slot, held) refl

-- The state after the store.
abbrev stored : Vm → Regions → Inst → ℕ → Memory → SafeState → SafeState
stored vm r i a m s = record s {
  core = shadow_store vm r 8 a (record s.core { memory = m });
  spills = update (invalidate_spills r s.spills a 8) (slot_of r a) (some (s.tags i.src));
}

store_spills :
    (vm : Vm) (r : Regions) (i : Inst) (a v : ℕ) (m : Memory) (s : SafeState)
    → compute_access (s.tags i.dst) (s.core.reg i.dst) i.offset 8 can_write ≡ granted a
    → is_stack_pointer r (s.tags i.dst) ≡ true
    → is_slot r a ≡ true
    → mem_store 8 s.core.memory a v ≡ some m
    → safe_store vm r i 8 v true s ≡ running (stored vm r i a m s)
unfolding safe_store leave after_store spill spilled
store_spills vm r i a v m s e stack slot done =
    rw (safe_store, e, done, leave, after_store, spill, stack, spilled, slot) refl

same_index : (k : ℕ) → (k == k) ≡ true
same_index k = (==_iff k k).1 refl

other_index : (j k : ℕ) → j ≢ k → (j == k) ≡ false
other_index j k other = ground (arith, ==_iff j k)

module _ (vm : Vm) (r : Regions) (i : Inst) (d a : ℕ) (m : Memory) (s : SafeState) where
  abbrev middle : SafeState
  middle = stored vm r i a m s

  -- The state after the load, but for its tag.
  abbrev loaded : SafeState
  loaded =
      set_tag
        (record middle { core = set_reg (shadow_load vm r d 8 a middle.core) d (s.core.reg i.src) })
        d scalar_tag

  load_reloads :
      compute_access (s.tags i.dst) (s.core.reg i.dst) i.offset 8 can_read ≡ granted a
      → mem_load 8 m a ≡ some (s.core.reg i.src)
      → safe_load vm r (load_back i d) 8 true (mem_load 8) middle
        ≡ running (reload r (load_back i d) a loaded)
  unfolding safe_load put after_load shadow_store
  load_reloads e found = rw (safe_load, e, found, put, after_load) refl

  loaded_hit :
      i.dst ≢ d
      → is_stack_pointer r (s.tags i.dst) ≡ true
      → is_slot r a ≡ true
      → reload r (load_back i d) a loaded ≡ set_tag loaded d (s.tags i.src)
  loaded_hit other stack slot =
      reload_hit r (load_back i d) a loaded (s.tags i.src) (rw (other_index i.dst d other) stack)
        slot (rw (same_index (slot_of r a)) refl)

-- A value of 8 bytes that the program stores to an aligned address of the stack comes back with its
-- tag when it is loaded into another register than the one that holds the address: a pointer that
-- was spilled is a pointer again. The tag permits both accesses, and every pointer is granted.
pub safe_load-safe_store :
    (vm : Vm) (r : Regions) (start : Memory) (n : ℕ) (s : SafeState) (i : Inst) (d a : ℕ)
    → SafeInv vm r start n s
    → compute_access (s.tags i.dst) (s.core.reg i.dst) i.offset 8 can_write ≡ granted a
    → compute_access (s.tags i.dst) (s.core.reg i.dst) i.offset 8 can_read ≡ granted a
    → is_stack_pointer r (s.tags i.dst) ≡ true
    → is_slot r a ≡ true
    → i.dst ≢ d
    → (t : SafeState) × (u : SafeState) × (safe_store vm r i 8 (s.core.reg i.src) true s
        ≡ running t)
      × (safe_load vm r (load_back i d) 8 true (mem_load 8) t ≡ running u)
      × (u.tags d ≡ s.tags i.src)
      × (u.core.reg d ≡ s.core.reg i.src)
safe_load-safe_store vm r start n s i d a inv writable readable stack slot other =
    let v = s.core.reg i.src in
    let tag = s.tags i.dst in
    let mine = inv.tags_granted i.dst in
    let p = compute_access-Permits tag _ i.offset 8 can_write a writable in
    let (m, done, kept) =
      mem_store-Kept 8 s.core.memory a v inv.core_inv.kept
        (Permits-Reachable vm r tag _ i.offset 8 can_write a mine p)
        (Permits-Writable vm r tag _ i.offset 8 can_write a mine p p.permits) in
    let found : mem_load 8 m a ≡ some v =
      mem_load-mem_store 8 s.core.memory m a v done
      ∙ ap some (omega (arith, inv.core_inv.words i.src)) in
    (
      stored vm r i a m s,
      set_tag (loaded vm r i d a m s) d (s.tags i.src),
      store_spills vm r i a v m s writable stack slot done,
      load_reloads vm r i d a m s readable found
          ∙ ap running (loaded_hit vm r i d a m s other stack slot),
      rw (same_index d) refl,
      rw (same_index d) refl,
    )
