-- ===== src/Safety/Effects.antt =====
-- vm/ubpf_vm.c, `ubpf_exec_ex`: accesses to bytes that are known to be mapped keep the invariant,
-- whatever check came before them.
use ubpf.Prelude.{
  ℕ, ◌%◌, ◌^◌, ◌<◌, ◌≡◌, ◌==◌, ◌||◌, arith, true, Option, none, some, if_both, if_cases,
}
use ubpf.Inst.{Inst, Width, w32, w64, Size, byte, half, word, double}
use ubpf.Alu.Range.{pattern_of-lt64}
use ubpf.Memory.{Memory, mem_load, mem_load_sx, mem_store, size_of, sign_extend}
use ubpf.Vm.{Vm}
use ubpf.Interp.{Regions, State, Outcome}
use ubpf.Interp.Access.{
  shadow_load, shadow_store, put, leave, atomic_with, atomic_at, atomic_access, fetched, fetches,
  width_bytes,
}
use ubpf.Safety.{Ends, goes_on, stops, fails, Kept, Inv}
use ubpf.Safety.Invariant.{
  Inv-set_reg, Inv-set_memory, Inv-set_shadow_registers, Inv-set_shadow_stack,
}
use ubpf.Safety.Access.{AllIn, mem_load-lt, mem_store-Kept}

size_fits : (z : Size) (v : ℕ) → v < 256 ^ size_of z → v < 2 ^ 64
size_fits byte v h = omega arith
size_fits half v h = omega arith
size_fits word v h = omega arith
size_fits double v h = omega arith

sign_extend-lt : (z : Size) (v : ℕ) → v < 2 ^ 64 → sign_extend z v < 2 ^ 64
sign_extend-lt byte v h = pattern_of-lt64 _
sign_extend-lt half v h = pattern_of-lt64 _
sign_extend-lt word v h = pattern_of-lt64 _
sign_extend-lt double v h = h

width_fits : (w : Width) (v : ℕ) → v < 256 ^ width_bytes w → v < 2 ^ 64
width_fits w32 v h = omega arith
width_fits w64 v h = omega arith

module _ (Known Writable : ℕ → Type 0) (start : Memory) where
  -- A read that gives a word whenever its bytes are known.
  abbrev pub Reads : ℕ → (Memory → ℕ → Option ℕ) → Type 0
  Reads size read =
      (m : Memory) (a : ℕ)
      → Kept Known Writable start m
      → AllIn Known a size
      → (v : ℕ) × (read m a ≡ some v) × (v < 2 ^ 64)

  pub mem_load-Reads : (z : Size) → Reads (size_of z) (mem_load (size_of z))
  mem_load-Reads z m a kept inside =
      let (v, e, h) = mem_load-lt (size_of z) m a kept inside in (v, e, size_fits z v h)

  pub mem_load_sx-Reads : (z : Size) → Reads (size_of z) (mem_load_sx z)
  unfolding mem_load_sx
  mem_load_sx-Reads z m a kept inside =
      let (v, e, h) = mem_load-Reads z m a kept inside in
      (sign_extend z v, rw (e, mem_load_sx), sign_extend-lt z v h)

module _ {Keep : Memory → Type 0} {n : ℕ} where
  pub put-Ends :
      (dst : ℕ) (s : State) (o : Option ℕ)
      → Inv Keep n s
      → (v : ℕ) × (o ≡ some v) × (v < 2 ^ 64)
      → Ends (Inv Keep n) (put dst s o)
  unfolding put
  put-Ends dst s o inv (v, e, h) = rw e (goes_on (Inv-set_reg inv dst v h))

  pub shadow_load-Inv :
      (vm : Vm) (r : Regions) (dst size a : ℕ) (s : State)
      → Inv Keep n s
      → Inv Keep n (shadow_load vm r dst size a s)
  unfolding shadow_load
  shadow_load-Inv vm r dst size a s inv =
      if_both (Inv Keep n) _ inv (Inv-set_shadow_registers inv _)

  pub shadow_store-Inv :
      (vm : Vm) (r : Regions) (size a : ℕ) (s : State)
      → Inv Keep n s
      → Inv Keep n (shadow_store vm r size a s)
  unfolding shadow_store
  shadow_store-Inv vm r size a s inv = Inv-set_shadow_stack inv _

  fetched-Ends :
      (w : Width) (i : Inst) (old : ℕ) (out : Outcome)
      → old < 2 ^ 64
      → Ends (Inv Keep n) out
      → Ends (Inv Keep n) (fetched w i old out)
  unfolding fetched
  fetched-Ends w i old out small (goes_on inv) =
      goes_on (if_both (Inv Keep n) (fetches w i.imm) (Inv-set_reg inv _ old small) inv)
  fetched-Ends w i old out small (stops inv) = stops inv
  fetched-Ends w i old out small (fails inv) = fails inv

module _ {Known Writable : ℕ → Type 0} {start : Memory} {n : ℕ} where
  pub leave-Ends :
      (size a v : ℕ) (s : State)
      → AllIn Known a size
      → AllIn Writable a size
      → Inv (Kept Known Writable start) n s
      → Ends (Inv (Kept Known Writable start) n) (leave s (mem_store size s.memory a v))
  unfolding leave
  leave-Ends size a v s known inside inv =
      let (m, e, kept) = mem_store-Kept size s.memory a v inv.kept known inside in
      rw e (goes_on (Inv-set_memory inv m kept))

  atomic_with-Ends :
      (w : Width) (i : Inst) (a old : ℕ) (s : State) (new : Option ℕ)
      → AllIn Known a (width_bytes w)
      → AllIn Writable a (width_bytes w)
      → old < 2 ^ 64
      → Inv (Kept Known Writable start) n s
      → Ends (Inv (Kept Known Writable start) n) (atomic_with w i a s old new)
  unfolding atomic_with
  atomic_with-Ends w i a old s none known inside small inv = fails inv
  atomic_with-Ends w i a old s (some new) known inside small inv =
      fetched-Ends w i old _ small (leave-Ends (width_bytes w) a new s known inside inv)

  atomic_at-Ends :
      (i : Inst) (w : Width) (a : ℕ) (s : State)
      → AllIn Known a (width_bytes w)
      → AllIn Writable a (width_bytes w)
      → Inv (Kept Known Writable start) n s
      → Ends (Inv (Kept Known Writable start) n) (atomic_at w i a s)
  unfolding atomic_at
  atomic_at-Ends i w a s known inside inv =
      let (old, e, h) = mem_load-lt (width_bytes w) s.memory a inv.kept known in
      rw (e, atomic_at) (atomic_with-Ends w i a old s _ known inside (width_fits w old h) inv)

  pub atomic_access-Ends :
      (r : Regions) (i : Inst) (w : Width) (a : ℕ) (s : State)
      → r.target.unaligned_atomics ≡ true
      → AllIn Known a (width_bytes w)
      → AllIn Writable a (width_bytes w)
      → Inv (Kept Known Writable start) n s
      → Ends (Inv (Kept Known Writable start) n) (atomic_access r w i a s)
  unfolding atomic_access
  atomic_access-Ends r i w a s defined known inside inv =
      if_cases (Ends (Inv (Kept Known Writable start) n))
        (a % width_bytes w == 0 || r.target.unaligned_atomics)
        (λ e. atomic_at-Ends i w a s known inside inv) (λ e. absurd (ground arith))
