-- ===== src/Jit/Patched.antt =====
-- The jumps that `resolve_patchable_relatives` (vm/ubpf_jit_x86_64.c) patches lead to their targets.
use ubpf.Prelude.{
  ℕ, ◌+◌, ◌-◌, ◌%◌, ◌^◌, ◌≤◌, ◌<◌, ◌≡◌, ◌⊎◌, inl, inr, refl, arith, true, false, Option, none, some,
  List, get_elem?, if◌then◌else◌, ltb, Bool-cases,
}
use ubpf.Loader.{Loading, done, failed, fault, read, put_bytes}
use ubpf.Loader.Relocate.{bytes_of}
use ubpf.Loader.Words.{put_word-reads, put_byte-reads, put_bytes-keeps}
use ubpf.Jit.State.{JitState, PatchableRelative}
use ubpf.Jit.Resolve.{
  patched, patch_bytes, patch_jump, patch_jump_to, jump_place, is_near_jump, relative, fits_near,
}

patch_bytes-put :
    (buf out bytes : List ℕ) (at : ℕ)
    → patch_bytes buf at bytes ≡ patched out
    → put_bytes buf at bytes ≡ done out
unfolding patch_bytes
patch_bytes-put buf out bytes at h = go (put_bytes buf at bytes) refl
  where
    go : (l : Loading (List ℕ)) → put_bytes buf at bytes ≡ l → put_bytes buf at bytes ≡ done out
    go (done b) e = ground arith
    go (failed m) e = absurd (ground arith)
    go fault e = absurd (ground arith)

-- The number that a signed byte stands for, in 32 bits.
abbrev pub extend_byte : ℕ → ℕ
extend_byte b = if ltb b 128 then b else b + (2 ^ 32 - 256)

-- How a patched jump reaches its target: by a near byte, or by four bytes.
abbrev pub Reaches : PatchableRelative → List ℕ → ℕ → Type 0
Reaches jump out target =
    ((is_near_jump jump.target ≡ true)
      × ((b : ℕ) × (get_elem? out jump.offset_loc ≡ some b)
          × ((jump.offset_loc + 1 + extend_byte b) % 2 ^ 32 ≡ target % 2 ^ 32)))
    ⊎ ((is_near_jump jump.target ≡ false)
        × ((rel : ℕ) × (read 4 out jump.offset_loc ≡ done rel)
            × ((jump.offset_loc + 4 + rel) % 2 ^ 32 ≡ target % 2 ^ 32)))

near-Reaches :
    (at target : ℕ)
    → fits_near (relative target at 1) ≡ true
    → (at + 1 + extend_byte (relative target at 1 % 256)) % 2 ^ 32 ≡ target % 2 ^ 32
near-Reaches at target h = ground arith

patch_jump_to-Reaches :
    (jump : PatchableRelative) (target k : ℕ) (buf out : List ℕ)
    → patch_jump_to jump target buf ≡ patched out
    → (k < jump.offset_loc) ⊎ (jump.offset_loc + 4 ≤ k)
    → Reaches jump out target × (get_elem? out k ≡ get_elem? buf k)
unfolding patch_jump_to bytes_of
patch_jump_to-Reaches jump target k buf out h outside =
    let at = jump.offset_loc in
    elim (Bool-cases (is_near_jump jump.target)) [
      | inl near ↦ elim (Bool-cases (fits_near (relative target at 1))) [
        | inl fits ↦
            let bytes = bytes_of 1 (relative target at 1) in
            let wrote : put_bytes buf at bytes ≡ done out =
              patch_bytes-put buf out bytes at (ground arith) in
            (
              inl (
                near,
                (
                  relative target at 1 % 256,
                  put_byte-reads buf out at (relative target at 1) wrote,
                  near-Reaches at target fits,
                ),
              ),
              put_bytes-keeps buf out bytes at 1 k refl wrote (omega arith),
            )
        | inr far ↦ absurd (ground arith)
      ]
      | inr far ↦
          let bytes = bytes_of 4 (relative target at 4) in
          let wrote : put_bytes buf at bytes ≡ done out =
            patch_bytes-put buf out bytes at (ground arith) in
          (
            inr (
              far,
              (
                relative target at 4,
                put_word-reads buf out at (relative target at 4) (omega arith) wrote,
                omega arith,
              ),
            ),
            put_bytes-keeps buf out bytes at 4 k refl wrote outside,
          )
    ]

-- A jump that is patched leads to its target: the byte or the four bytes at its place, read as a
-- signed distance from the instruction behind them, give the target in 32 bits, and no byte outside
-- the four at that place changes.
pub patch_jump-Reaches :
    (s : JitState) (jump : PatchableRelative) (k : ℕ) (buf out : List ℕ)
    → patch_jump s jump buf ≡ patched out
    → (k < jump.offset_loc) ⊎ (jump.offset_loc + 4 ≤ k)
    → (target : ℕ) × (jump_place s jump.target ≡ some (some target))
      × Reaches jump out target
      × (get_elem? out k ≡ get_elem? buf k)
unfolding patch_jump
patch_jump-Reaches s jump k buf out h outside = go (jump_place s jump.target) refl
  where
    go :
        (place : Option (Option ℕ))
        → jump_place s jump.target ≡ place
        → (target : ℕ) × (jump_place s jump.target ≡ some (some target))
          × Reaches jump out target
          × (get_elem? out k ≡ get_elem? buf k)
    go none e = absurd (ground arith)
    go (some none) e = absurd (ground arith)
    go (some (some target)) e =
        let (reached, kept) = patch_jump_to-Reaches jump target k buf out (ground arith) outside in
        (target, e, reached, kept)
