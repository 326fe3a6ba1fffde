-- ===== src/Loader/Words.antt =====
-- Numbers in an array of bytes: what a write leaves for a read, and what it leaves alone.
use ubpf.Prelude.{
  ℕ, zero, suc, ◌+◌, ◌-◌, ◌*◌, ◌/◌, ◌%◌, ◌^◌, ◌≤◌, ◌<◌, ◌≡◌, ◌⊎◌, inl, inr, ◌∙◌, refl, ap, arith,
  Option, none, some, List, [], ◌∷◌, ◌++◌, length, get_elem?, take, drop,
}
use ubpf.Memory.{mem_load}
use ubpf.Loader.{done, fault, put_bytes, read}
use ubpf.Loader.Relocate.{bytes_of}

mem_load-suc :
    (n x at : ℕ) (xs : List ℕ)
    → mem_load n (get_elem? (x ∷ xs)) (suc at) ≡ mem_load n (get_elem? xs) at
unfolding mem_load
mem_load-suc zero x at xs = refl
mem_load-suc (suc n) x at xs =
    let e : suc at + 1 ≡ suc (at + 1) = omega arith in
    let rest = ap (mem_load n (get_elem? (x ∷ xs))) e ∙ mem_load-suc n x (at + 1) xs in
    ap
      (λ (o : Option ℕ). elim (get_elem? xs at) [
        | none ↦ none
        | some b ↦ elim o [ none ↦ none | some r ↦ some (b + 256 * r) ]
      ])
      rest

-- Four bytes behind a prefix are read back.
mem_load-append :
    (b0 b1 b2 b3 at : ℕ) (xs rest : List ℕ)
    → at ≤ length xs
    → mem_load 4 (get_elem? (take at xs ++ (b0 ∷ b1 ∷ b2 ∷ b3 ∷ rest))) at
      ≡ some (b0 + 256 * (b1 + 256 * (b2 + 256 * (b3 + 256 * 0))))
unfolding mem_load
mem_load-append b0 b1 b2 b3 zero xs rest h = refl
mem_load-append b0 b1 b2 b3 (suc at) [] rest h = absurd (omega arith)
mem_load-append b0 b1 b2 b3 (suc at) (x ∷ xs) rest h =
    mem_load-suc 4 x at (take at xs ++ (b0 ∷ b1 ∷ b2 ∷ b3 ∷ rest))
    ∙ mem_load-append b0 b1 b2 b3 at xs rest (omega arith)

get_elem?-before :
    {A : Type 0} (at k : ℕ) (xs rest : List A)
    → k < at
    → at ≤ length xs
    → get_elem? (take at xs ++ rest) k ≡ get_elem? xs k
get_elem?-before zero k xs rest h room = absurd (omega arith)
get_elem?-before (suc at) k [] rest h room = absurd (omega arith)
get_elem?-before (suc at) zero (x ∷ xs) rest h room = refl
get_elem?-before (suc at) (suc k) (x ∷ xs) rest h room =
    get_elem?-before at k xs rest (omega arith) (omega arith)

get_elem?-drop :
    {A : Type 0} (n j : ℕ) (xs : List A) → get_elem? (drop n xs) j ≡ get_elem? xs (n + j)
get_elem?-drop zero j xs = let e : j ≡ 0 + j = omega arith in ap (get_elem? xs) e
get_elem?-drop (suc n) j [] = refl
get_elem?-drop (suc n) j (x ∷ xs) =
    let e : suc (n + j) ≡ suc n + j = omega arith in
    get_elem?-drop n j xs ∙ ap (get_elem? (x ∷ xs)) e

get_elem?-after :
    {A : Type 0} (at j : ℕ) (xs rest : List A)
    → at ≤ length xs
    → get_elem? (take at xs ++ rest) (at + j) ≡ get_elem? rest j
get_elem?-after zero j xs rest room = let e : 0 + j ≡ j = omega arith in ap (get_elem? rest) e
get_elem?-after (suc at) j [] rest room = absurd (omega arith)
get_elem?-after (suc at) j (x ∷ xs) rest room =
    let e : suc at + j ≡ suc (at + j) = omega arith in
    ap (get_elem? (x ∷ (take at xs ++ rest))) e ∙ get_elem?-after at j xs rest (omega arith)

put_room :
    (program written bytes : List ℕ) (at : ℕ)
    → put_bytes program at bytes ≡ done written
    → (at + length bytes ≤ length program)
      × (written ≡ take at program ++ (bytes ++ drop (at + length bytes) program))
unfolding put_bytes
put_room program written bytes at h = ground arith

get_elem?-append :
    {A : Type 0} (xs ys : List A) (j : ℕ) → get_elem? (xs ++ ys) (length xs + j) ≡ get_elem? ys j
get_elem?-append [] ys j = let e : 0 + j ≡ j = omega arith in ap (get_elem? ys) e
get_elem?-append (x ∷ xs) ys j =
    let e : suc (length xs) + j ≡ suc (length xs + j) = omega arith in
    ap (get_elem? (x ∷ xs ++ ys)) e ∙ get_elem?-append xs ys j

pub put_word-reads :
    (program written : List ℕ) (at v : ℕ)
    → v < 2 ^ 32
    → put_bytes program at (bytes_of 4 v) ≡ done written
    → read 4 written at ≡ done v
unfolding bytes_of read
put_word-reads program written at v small h =
    let (room, e) = put_room program written (bytes_of 4 v) at h in
    let bytes =
      mem_load-append (v % 256) (v / 256 % 256) (v / 256 / 256 % 256) (v / 256 / 256 / 256 % 256) at
        program (drop (at + 4) program) (omega arith) in
    let whole : v % 256
          + 256
            * (v / 256 % 256
                + 256 * (v / 256 / 256 % 256 + 256 * (v / 256 / 256 / 256 % 256 + 256 * 0)))
        ≡ v =
      omega arith in
    ap (λ w. read 4 w at) e
    ∙ ap (λ (o : Option ℕ). elim o [ none ↦ fault | some w ↦ done w ]) (bytes ∙ ap some whole)

pub put_byte-reads :
    (program written : List ℕ) (at v : ℕ)
    → put_bytes program at (bytes_of 1 v) ≡ done written
    → get_elem? written at ≡ some (v % 256)
unfolding bytes_of
put_byte-reads program written at v h =
    let (room, e) = put_room program written (bytes_of 1 v) at h in
    let zero_on : at ≡ at + 0 = omega arith in
    ap (λ w. get_elem? w at) e
    ∙ ap (get_elem? (take at program ++ (bytes_of 1 v ++ drop (at + 1) program))) zero_on
    ∙ get_elem?-after at 0 program (bytes_of 1 v ++ drop (at + 1) program) (omega arith)

-- Outside the bytes that are written.
pub put_bytes-keeps :
    (program written bytes : List ℕ) (at n k : ℕ)
    → length bytes ≡ n
    → put_bytes program at bytes ≡ done written
    → (k < at) ⊎ (at + n ≤ k)
    → get_elem? written k ≡ get_elem? program k
put_bytes-keeps program written bytes at n k size h (inl before) =
    let (room, e) = put_room program written bytes at h in
    ap (λ w. get_elem? w k) e
    ∙ get_elem?-before at k program (bytes ++ drop (at + length bytes) program) before (omega arith)
put_bytes-keeps program written bytes at n k size h (inr after) =
    let (room, e) = put_room program written bytes at h in
    let past : k ≡ at + (k - at) = omega arith in
    let beyond : k - at ≡ length bytes + (k - (at + n)) = omega arith in
    let back : at + length bytes + (k - (at + n)) ≡ k = omega arith in
    let tail = bytes ++ drop (at + length bytes) program in
    ap (λ w. get_elem? w k) e
    ∙ ap (get_elem? (take at program ++ tail)) past
    ∙ get_elem?-after at (k - at) program tail (omega arith)
    ∙ ap (get_elem? tail) beyond
    ∙ get_elem?-append bytes (drop (at + length bytes) program) (k - (at + n))
    ∙ get_elem?-drop (at + length bytes) (k - (at + n)) program
    ∙ ap (get_elem? program) back
