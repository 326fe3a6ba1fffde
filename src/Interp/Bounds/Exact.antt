-- ===== src/Interp/Bounds/Exact.antt =====
-- vm/ubpf_vm.c: what `bounds_check` lets pass, against what it promises.
use ubpf.Prelude.{ℕ, ◌+◌, ◌^◌, ◌≤◌, ◌<◌, ◌≡◌, ◌⊎◌, ◌↔◌, arith, true, none}
use ubpf.Vm.{Vm}
use ubpf.Interp.{Regions}
use ubpf.Interp.Bounds.{within, caller_allows, bounds_check}

-- The whole access lies in [start, start + len).
abbrev pub Inside : ℕ → ℕ → ℕ → ℕ → Type 0
Inside start len a size = (start ≤ a) × (a + size ≤ start + len)

within_iff :
    (start len a size : ℕ)
    → start + len < 2 ^ 64
    → (within start len a (a + size) ≡ true) ↔ Inside start len a size
unfolding within
within_iff start len a size fits = (λ h. ground arith, λ h. ground arith)

-- With the check on and no function of the caller, an access passes exactly if it lies in the
-- caller's memory, where there is one, or in the stack. The regions are those of a host: they end
-- below 2^64.
pub bounds_check_iff :
    (vm : Vm) (r : Regions) (a size : ℕ)
    → vm.bounds_check_enabled ≡ true
    → vm.bounds_check_function ≡ none
    → r.mem + r.mem_len < 2 ^ 64
    → r.stack_start + r.stack_length < 2 ^ 64
    → (bounds_check vm r a size ≡ true)
      ↔ (((0 < r.mem) × Inside r.mem r.mem_len a size) ⊎ Inside r.stack_start r.stack_length a size)
unfolding bounds_check caller_allows
bounds_check_iff vm r a size on alone mem_fits stack_fits = (
  λ h. ground (
    arith,
    within_iff r.mem r.mem_len a size mem_fits,
    within_iff r.stack_start r.stack_length a size stack_fits,
  ),
  λ h. ground (
    arith,
    within_iff r.mem r.mem_len a size mem_fits,
    within_iff r.stack_start r.stack_length a size stack_fits,
  ),
)
