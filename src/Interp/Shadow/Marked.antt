-- ===== src/Interp/Shadow/Marked.antt =====
-- vm/ubpf_vm.c: the bytes that `ubpf_mark_shadow_stack` marks are those that
-- `ubpf_check_shadow_stack` finds.
use ubpf.Prelude.{ℕ, zero, suc, ◌+◌, ◌-◌, ◌≡◌, refl, arith, true}
use ubpf.Interp.{Regions, update}
use ubpf.Vm.{Vm}
use ubpf.Interp.Shadow.{Mask, mark_bits, all_bits, mark_shadow_stack, check_shadow_stack}

update-keeps : (mask : Mask) (i j : ℕ) → mask j ≡ true → update mask i true j ≡ true
update-keeps mask i j h = ground arith

mark_bits-keeps : (n : ℕ) (mask : Mask) (bit j : ℕ) → mask j ≡ true → mark_bits n mask bit j ≡ true
unfolding mark_bits
mark_bits-keeps zero mask bit j h = h
mark_bits-keeps (suc n) mask bit j h =
    mark_bits-keeps n (update mask bit true) (bit + 1) j (update-keeps mask bit j h)

all_bits-mark : (n : ℕ) (mask : Mask) (bit : ℕ) → all_bits n (mark_bits n mask bit) bit ≡ true
unfolding all_bits mark_bits
all_bits-mark zero mask bit = refl
all_bits-mark (suc n) mask bit =
    rw
      (
        mark_bits-keeps n (update mask bit true) (bit + 1) bit (ground arith),
        all_bits-mark n (update mask bit true) (bit + 1),
      )
      refl

all_bits-keeps :
    (n : ℕ) (mask mask' : Mask) (bit : ℕ)
    → ((j : ℕ) → mask j ≡ true → mask' j ≡ true)
    → all_bits n mask bit ≡ true
    → all_bits n mask' bit ≡ true
unfolding all_bits
all_bits-keeps zero mask mask' bit keeps h = refl
all_bits-keeps (suc n) mask mask' bit keeps h =
    ground (arith, keeps bit, all_bits-keeps n mask mask' (bit + 1) keeps)

mark_shadow_stack-keeps :
    (vm : Vm) (r : Regions) (mask : Mask) (a size j : ℕ)
    → mask j ≡ true
    → mark_shadow_stack vm r mask a size j ≡ true
unfolding mark_shadow_stack
mark_shadow_stack-keeps vm r mask a size j h =
    ground (arith, mark_bits-keeps size mask (a - r.stack_start) j h)

-- A store is seen by a load of the same bytes, and no store hides what an earlier one has marked.
pub check-mark_shadow_stack :
    (vm : Vm) (r : Regions) (mask : Mask) (a size : ℕ)
    → (check_shadow_stack vm r (mark_shadow_stack vm r mask a size) a size ≡ true)
      × ((b width : ℕ)
          → check_shadow_stack vm r mask b width ≡ true
          → check_shadow_stack vm r (mark_shadow_stack vm r mask a size) b width ≡ true)
unfolding check_shadow_stack mark_shadow_stack
check-mark_shadow_stack vm r mask a size = (
  ground (arith, all_bits-mark size mask (a - r.stack_start)),
  λ b width h. ground (
    arith,
    all_bits-keeps width mask (mark_shadow_stack vm r mask a size) (b - r.stack_start)
        (λ j. mark_shadow_stack-keeps vm r mask a size j),
  ),
)
