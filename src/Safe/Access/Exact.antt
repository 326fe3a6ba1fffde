-- ===== src/Safe/Access/Exact.antt =====
-- vm/ubpf_safe.c: what `ubpf_safe_compute_access` lets pass, against what it promises.
use Prim.Native.Nat.{bit_and}
use ubpf.Prelude.{ℕ, suc, ◌+◌, ◌-◌, ◌^◌, ◌≤◌, ◌<◌, ◌≡◌, ◌↔◌, arith, true, ==_iff, ◌==◌}
use ubpf.Prelude.Int.{ℤ, pos, negsuc, pos_part, neg_part}
use ubpf.Safe.{ValueKind, pointer, Tag}
use ubpf.Safe.Access.{granted, is_pointer, check_bounds, with_offset, compute_access}

-- The access at `a` lies in the region of the tag.
pub record Within (tag : Tag) (a size : ℕ) : Type 0 where
  pub above : tag.base ≤ a
  pub below : a + size ≤ tag.base + tag.size

-- The tag is a pointer with the permissions, and the access at address + offset lies in its region.
pub record Permits (tag : Tag) (address : ℕ) (offset : ℤ) (size required a : ℕ) : Type 0 where
  pub points : tag.kind ≡ pointer
  pub permits : bit_and tag.permissions required ≡ required
  pub target : address + pos_part offset ≡ a + neg_part offset
  pub inside : Within tag a size

check_bounds-Within :
    (tag : Tag) (x size a : ℕ) → check_bounds tag x size ≡ granted a → (x ≡ a) × Within tag a size
unfolding check_bounds
check_bounds-Within tag x size a h =
    (ground arith, record { above = ground arith; below = ground arith })

Within-check_bounds :
    (tag : Tag) (a size : ℕ)
    → tag.base + tag.size < 2 ^ 64
    → Within tag a size
    → check_bounds tag a size ≡ granted a
unfolding check_bounds
Within-check_bounds tag a size fits w = ground (arith, fits, w.above, w.below)

with_offset-Within :
    (tag : Tag) (address : ℕ) (offset : ℤ) (size a : ℕ)
    → with_offset tag address offset size ≡ granted a
    → (address + pos_part offset ≡ a + neg_part offset) × Within tag a size
unfolding with_offset
with_offset-Within tag address (pos n) size a h =
    let (e, w) = check_bounds-Within tag (address + n) size a (ground arith) in
    (omega (arith, e), w)
with_offset-Within tag address (negsuc n) size a h =
    let passed : ¬ (address < suc n) = λ lt. absurd (ground arith) in
    let (e, w) = check_bounds-Within tag (address - suc n) size a (ground arith) in
    (omega (arith, e, passed), w)

Within-with_offset :
    (tag : Tag) (address : ℕ) (offset : ℤ) (size a : ℕ)
    → tag.base + tag.size < 2 ^ 64
    → address + pos_part offset ≡ a + neg_part offset
    → Within tag a size
    → with_offset tag address offset size ≡ granted a
unfolding with_offset
Within-with_offset tag address (pos n) size a fits e w =
    ground (arith, Within-check_bounds tag a size fits w, w.below)
Within-with_offset tag address (negsuc n) size a fits e w =
    ground (arith, Within-check_bounds tag a size fits w)

is_pointer_iff : (k : ValueKind) → (is_pointer k ≡ true) ↔ (k ≡ pointer)
is_pointer_iff k = (λ h. ground arith, λ h. ground arith)

-- An access that passes is one that the tag permits.
pub compute_access-Permits :
    (tag : Tag) (address : ℕ) (offset : ℤ) (size required a : ℕ)
    → compute_access tag address offset size required ≡ granted a
    → Permits tag address offset size required a
unfolding compute_access
compute_access-Permits tag address offset size required a h =
    let kind : is_pointer tag.kind ≡ true = ground arith in
    let right : (bit_and tag.permissions required == required) ≡ true = ground arith in
    let (e, w) = with_offset-Within tag address offset size a (ground arith) in
    record {
      points = (is_pointer_iff tag.kind).0 kind;
      permits = (==_iff _ _).0 right;
      target = e;
      inside = w;
    }

Permits-compute_access :
    (tag : Tag) (address : ℕ) (offset : ℤ) (size required a : ℕ)
    → tag.base + tag.size < 2 ^ 64
    → Permits tag address offset size required a
    → compute_access tag address offset size required ≡ granted a
unfolding compute_access
Permits-compute_access tag address offset size required a fits p =
    let kind : is_pointer tag.kind ≡ true = (is_pointer_iff tag.kind).1 p.points in
    let right : (bit_and tag.permissions required == required) ≡ true = (==_iff _ _).1 p.permits in
    rw (compute_access, kind, right)
      (Within-with_offset tag address offset size a fits p.target p.inside)

-- The check of the safe profile grants an access exactly if the register's tag is a pointer with
-- the permissions that the access needs, and every byte of the access, at the register's value plus
-- the offset, lies in the region of the tag; it then gives that address. The region of the tag is
-- one of a host: it ends below 2^64.
pub compute_access_iff :
    (tag : Tag) (address : ℕ) (offset : ℤ) (size required a : ℕ)
    → tag.base + tag.size < 2 ^ 64
    → (compute_access tag address offset size required ≡ granted a)
      ↔ Permits tag address offset size required a
compute_access_iff tag address offset size required a fits = (
  compute_access-Permits tag address offset size required a,
  Permits-compute_access tag address offset size required a fits,
)
