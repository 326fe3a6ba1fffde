-- ===== src/Safety/Transfer.antt =====
-- The load, store and atomic instructions keep the invariant. They never fault where
-- the shadow stack has a bit for each byte of the stack and the target defines unaligned atomics.
use ubpf.Prelude.{ℕ, ◌≡◌, refl, arith, true, false, Option, none, inl, inr, Bool-cases}
use ubpf.Inst.{Inst, Width}
use ubpf.Memory.{Memory}
use ubpf.Vm.{Vm}
use ubpf.Interp.{Regions, State, Outcome}
use ubpf.Interp.Shadow.{Mask, marks_past, reads_past}
use ubpf.Interp.Bounds.{bounds_check, effective_address, Address-cases}
use ubpf.Interp.Access.{
  load_at, exec_load, checked_store, store_value, exec_store, atomic_access, exec_atomic,
  width_bytes,
}
use ubpf.Safety.Effects.{
  Reads, put-Ends, shadow_load-Inv, shadow_store-Inv, leave-Ends, atomic_access-Ends,
}
use ubpf.Safety.{Ends, fails, InRegion, MemoryKept, Inv, ShadowFits}
use ubpf.Safety.Access.{AllIn, bounds_check-AllIn}

module _ (vm : Vm) (r : Regions) (start : Memory) (n : ℕ) (on : vm.bounds_check_enabled ≡ true)
    (alone : vm.bounds_check_function ≡ none) (shadow : ShadowFits vm r) where
  abbrev Good : State → Type 0
  Good = Inv (MemoryKept r start) n

  not_past : (a size : ℕ) → marks_past vm r a size ≡ false
  unfolding marks_past
  not_past a size = elim shadow [
    | inl off ↦ simp off refl
    | inr whole ↦ elim (Bool-cases (marks_past vm r a size)) [
      | inl e ↦ absurd (ground arith)
      | inr e ↦ e
    ]
  ]

  not_read : (mask : Mask) (a size : ℕ) → reads_past vm r mask a size ≡ false
  unfolding reads_past
  not_read mask a size = simp (not_past a size) refl

  load_at-Ends :
      (i : Inst) (size : ℕ) (read : Memory → ℕ → Option ℕ) (s : State) (a : ℕ)
      → Reads (InRegion r) (InRegion r) start size read
      → Good s
      → Ends Good (load_at vm r i size read s a)
  unfolding load_at
  load_at-Ends i size read s a reads inv =
      let after = shadow_load-Inv vm r i.dst size a s inv in
      elim (Bool-cases (bounds_check vm r a size)) [
        | inl e ↦
            rw (load_at, not_read s.shadow_stack a size, e)
              (put-Ends i.dst _ _ after
                (reads _ a after.kept (bounds_check-AllIn vm r a size on alone e)))
        | inr e ↦ rw (load_at, not_read s.shadow_stack a size, e) (fails after)
      ]

  pub exec_load-Ends :
      (i : Inst) (size : ℕ) (read : Memory → ℕ → Option ℕ) (s : State)
      → Reads (InRegion r) (InRegion r) start size read
      → Good s
      → Ends Good (exec_load vm r i size read s)
  unfolding exec_load
  exec_load-Ends i size read s reads inv =
      elim (Address-cases (effective_address (s.reg i.src) i.offset)) [
        | inl (a, e) ↦ rw (e, exec_load) (load_at-Ends i size read s a reads inv)
        | inr (x, e) ↦ rw (e, exec_load) (fails inv)
      ]

  checked_store-Ends :
      (i : Inst) (size : ℕ) (act : ℕ → State → Outcome) (s : State)
      → ((a : ℕ) (t : State) → AllIn (InRegion r) a size → Good t → Ends Good (act a t))
      → Good s
      → Ends Good (checked_store vm r i size act s)
  unfolding checked_store
  checked_store-Ends i size act s acts inv =
      elim (Address-cases (effective_address (s.reg i.dst) i.offset)) [
        | inl (a, e) ↦ elim (Bool-cases (bounds_check vm r a size)) [
          | inl ok ↦
              rw (e, checked_store, ok, not_past a size)
                (acts a _ (bounds_check-AllIn vm r a size on alone ok)
                  (shadow_store-Inv vm r size a s inv))
          | inr bad ↦ rw (e, checked_store, bad) (fails inv)
        ]
        | inr (x, e) ↦ rw (e, checked_store) (fails inv)
      ]

  pub exec_store-Ends :
      (i : Inst) (size v : ℕ) (s : State) → Good s → Ends Good (exec_store vm r i size v s)
  unfolding exec_store store_value
  exec_store-Ends i size v s inv =
      checked_store-Ends i size (store_value size v) s
        (λ a t inside ok. leave-Ends size a v t inside inside ok) inv

  pub exec_atomic-Ends :
      (i : Inst) (w : Width) (s : State)
      → r.target.unaligned_atomics ≡ true
      → Good s
      → Ends Good (exec_atomic vm r i w s)
  unfolding exec_atomic
  exec_atomic-Ends i w s defined inv =
      checked_store-Ends i (width_bytes w) (atomic_access r w i) s
        (λ a t inside ok. atomic_access-Ends r i w a t defined inside inside ok) inv
