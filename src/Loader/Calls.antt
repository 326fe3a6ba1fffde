-- ===== src/Loader/Calls.antt =====
-- The relocation of a local call (vm/ubpf_loader.c): the call leads to its target's landing place.
use ubpf.Prelude.{
  ℕ, ◌+◌, ◌%◌, ◌^◌, ◌≤◌, ◌<◌, ◌≡◌, ◌⊎◌, inl, inr, refl, sym, arith, some, List, get_elem?,
  Option-cases,
}
use ubpf.Loader.{Section, Loading, done, fault, failed, read, section_at, ◌>>=◌}
use ubpf.Loader.Words.{put_word-reads, put_bytes-keeps}
use ubpf.Loader.Header.{Tables}
use ubpf.Loader.Symbols.{RelocatedFunction}
use ubpf.Loader.Relocate.{
  Symbol, bytes_of, put_imm, target_function, offset_in_target, call_distance, relocate_call,
}

put_imm-reads :
    (program written : List ℕ) (at v : ℕ)
    → v < 2 ^ 32
    → put_imm program at v ≡ done written
    → read 4 written (at + 4) ≡ done v
unfolding put_imm
put_imm-reads program written at v small h = put_word-reads program written (at + 4) v small h

put_imm-keeps :
    (program written : List ℕ) (at v k : ℕ)
    → put_imm program at v ≡ done written
    → (k < at + 4) ⊎ (at + 8 ≤ k)
    → get_elem? written k ≡ get_elem? program k
unfolding put_imm bytes_of
put_imm-keeps program written at v k h outside =
    put_bytes-keeps program written (bytes_of 4 v) (at + 4) 4 k refl h (omega arith)

bind_done :
    {A : Type 0} {B : Type 0} (o : Loading A) (f : A → Loading B) (b : B)
    → (o >>= f) ≡ done b
    → (a : A) × (o ≡ done a) × (f a ≡ done b)
bind_done (done a) f b h = (a, refl, h)
bind_done (failed e) f b h = absurd (ground arith)
bind_done fault f b h = absurd (ground arith)

-- A local call that the loader relocates leads to the function that its symbol and its immediate
-- name: that function is in the table, in the symbol's section and at the offset that the immediate
-- stands for, and the new immediate added to the index of the instruction behind the call is, as a
-- number of 32 bits, the place where that function landed. No other byte of the program changes.
pub relocate_call-Lands :
    (t : Tables) (fs : List RelocatedFunction) (sym : Symbol) (index at k : ℕ)
    (program written : List ℕ)
    → relocate_call t fs sym index at program ≡ done written
    → (k < at + 4) ⊎ (at + 8 ≤ k)
    → (s : Section) × (old imm : ℕ) × (target : RelocatedFunction) × (section_at t.sections
          sym.st_shndx
        ≡ done s)
      × (read 4 program (at + 4) ≡ done old)
      × (target_function s.shdr (offset_in_target old) fs ≡ some target)
      × (read 4 written (at + 4) ≡ done imm)
      × ((index + 1 + imm) % 2 ^ 32 ≡ target.landed % 2 ^ 32)
      × (get_elem? written k ≡ get_elem? program k)
unfolding relocate_call
relocate_call-Lands t fs sym index at k program written h outside =
    let (s, at_s, found) = bind_done (section_at t.sections sym.st_shndx) _ written h in
    let (old, at_old, called) = bind_done (read 4 program (at + 4)) _ written found in
    elim (Option-cases (target_function s.shdr (offset_in_target old) fs)) [
      | inl e ↦ absurd (ground arith)
      | inr (target, e) ↦
          let written_here : put_imm program at (call_distance target index) ≡ done written =
            ground arith in
          (
            s,
            old,
            call_distance target index,
            target,
            at_s,
            at_old,
            e,
            put_imm-reads program written at (call_distance target index) (omega arith)
                written_here,
            omega arith,
            put_imm-keeps program written at (call_distance target index) k written_here outside,
          )
    ]
