-- ===== src/Loader/Copy.antt =====
-- Copies into an array of bytes: what a `memcpy` behind a prefix leaves.
use ubpf.Prelude.{
  ℕ, zero, suc, ◌+◌, ◌≤◌, ◌≡◌, ◌∙◌, refl, sym, ap, arith, List, [], ◌∷◌, ◌++◌, length, take, drop,
  length-take, length-drop, length-append,
}
use ubpf.Loader.{done, put_bytes}

module _ {ℓ} {A : Type ℓ} where
  pub take-all_append : (n : ℕ) (xs ys : List A) → length xs ≡ n → take n (xs ++ ys) ≡ xs
  take-all_append zero [] ys h = refl
  take-all_append zero (x ∷ xs) ys h = absurd (omega arith)
  take-all_append (suc n) [] ys h = absurd (omega arith)
  take-all_append (suc n) (x ∷ xs) ys h = ap (λ zs. x ∷ zs) (take-all_append n xs ys (omega arith))

  pub drop-all_append :
      (n m : ℕ) (xs ys : List A) → length xs ≡ n → drop (n + m) (xs ++ ys) ≡ drop m ys
  drop-all_append zero m [] ys h = let e : 0 + m ≡ m = omega arith in ap (λ k. drop k ys) e
  drop-all_append zero m (x ∷ xs) ys h = absurd (omega arith)
  drop-all_append (suc n) m [] ys h = absurd (omega arith)
  drop-all_append (suc n) m (x ∷ xs) ys h =
      let e : suc n + m ≡ suc (n + m) = omega arith in
      ap (λ k. drop k (x ∷ xs ++ ys)) e ∙ drop-all_append n m xs ys (omega arith)

  drop-nil : (n : ℕ) → drop {A = A} n [] ≡ []
  drop-nil zero = refl
  drop-nil (suc n) = refl

  drop-drop : (n m : ℕ) (xs : List A) → drop m (drop n xs) ≡ drop (n + m) xs
  drop-drop zero m xs = let e : m ≡ 0 + m = omega arith in ap (λ k. drop k xs) e
  drop-drop (suc n) m [] = drop-nil m ∙ sym (drop-nil (suc n + m))
  drop-drop (suc n) m (x ∷ xs) =
      let e : suc (n + m) ≡ suc n + m = omega arith in
      drop-drop n m xs ∙ ap (λ k. drop k (x ∷ xs)) e

  pub append_assoc : (xs ys zs : List A) → (xs ++ ys) ++ zs ≡ xs ++ (ys ++ zs)
  append_assoc [] ys zs = refl
  append_assoc (x ∷ xs) ys zs = ap (λ ws. x ∷ ws) (append_assoc xs ys zs)

-- A copy behind a prefix: the prefix grows by it, and the rest stays.
module _ (spot n : ℕ) (program bytes : List ℕ) (size : length bytes ≡ n)
    (room : spot + n ≤ length program) where
  abbrev pub copied : List ℕ
  copied = take spot program ++ (bytes ++ drop (spot + n) program)

  prefix : length (take spot program) ≡ spot
  prefix = omega (arith, length-take spot program)

  pub put_bytes_lem : put_bytes program spot bytes ≡ done copied
  unfolding put_bytes
  put_bytes_lem = rw size (ground arith)

  pub take-copied : take (spot + n) copied ≡ take spot program ++ bytes
  take-copied =
      ap (take (spot + n)) (sym (append_assoc (take spot program) bytes (drop (spot + n) program)))
      ∙ take-all_append (spot + n) (take spot program ++ bytes) (drop (spot + n) program)
          (omega (arith, prefix, length-append (take spot program) bytes))

  pub drop-copied : (m : ℕ) → drop (spot + n + m) copied ≡ drop (spot + n + m) program
  drop-copied m =
      ap (drop (spot + n + m))
        (sym (append_assoc (take spot program) bytes (drop (spot + n) program)))
      ∙ drop-all_append (spot + n) m (take spot program ++ bytes) (drop (spot + n) program)
          (omega (arith, prefix, length-append (take spot program) bytes))
      ∙ drop-drop (spot + n) m program

  pub length-copied : length copied ≡ length program
  length-copied = omega (
    arith,
    prefix,
    length-append (take spot program) (bytes ++ drop (spot + n) program),
    length-append bytes (drop (spot + n) program),
    length-drop (spot + n) program,
  )
