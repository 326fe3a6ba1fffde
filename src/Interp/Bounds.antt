-- ===== src/Interp/Bounds.antt =====
-- vm/ubpf_vm.c: `bounds_check` and COMPUTE_EFFECTIVE_ADDR. The messages are left out.
pub mod Exact
use mathlib.Core.Bool.{not}
use ubpf.Prelude.{
  ◌≡◌, refl, ◌⊎◌, inl, inr, ℕ, ◌+◌, ◌-◌, ◌^◌, Bool, true, false, ◌&&◌, ◌||◌, Option, none, some,
  ltb, leb, ◌==◌, if◌then◌else◌,
}
use ubpf.Prelude.Int.{ℤ, pos, negsuc}
use ubpf.Vm.{Vm}
use ubpf.Interp.{Regions, Error, address_overflow, address_underflow}

abbrev pub uint64_max : ℕ
uint64_max = 0xffff_ffff_ffff_ffff

-- A region whose end does not fit an address holds no access.
unfoldable pub within : ℕ → ℕ → ℕ → ℕ → Bool
within start len access_start access_end =
    not (ltb (uint64_max - start) len) && leb start access_start && leb access_end (start + len)

unfoldable pub caller_allows : Option (ℕ → ℕ → Bool) → ℕ → ℕ → Bool
caller_allows none a size = false
caller_allows (some f) a size = f a size

-- `bounds_check`, for the sizes 1, 2, 4 and 8 that its callers pass.
unfoldable pub bounds_check : Vm → Regions → ℕ → ℕ → Bool
unfolding within caller_allows
bounds_check vm r access_start size =
    if not vm.bounds_check_enabled
    then true
    else if ltb (uint64_max - access_start) size
    then false
    else let access_end = access_start + size in
      (not (r.mem == 0) && within r.mem r.mem_len access_start access_end)
      || within r.stack_start r.stack_length access_start access_end
      || caller_allows vm.bounds_check_function access_start size

pub data Address : Type 0 where
  address : ℕ → Address
  wrong : Error → Address

pub Address-cases : (x : Address) → ((a : ℕ) × (x ≡ address a)) ⊎ ((e : Error) × (x ≡ wrong e))
Address-cases (address a) = inl (a, refl)
Address-cases (wrong e) = inr (e, refl)

-- `COMPUTE_EFFECTIVE_ADDR(base_reg, is_load)`, for the value of the base register.
unfoldable pub effective_address : ℕ → ℤ → Address
effective_address base (pos n) =
    if ltb (uint64_max - n) base then wrong address_overflow else address (base + n)
effective_address base (negsuc n) =
    if ltb base (n + 1) then wrong address_underflow else address (base - (n + 1))
