-- ===== src/Api/Load/Fetches.antt =====
-- vm/ubpf_vm.c, `ubpf_load`: the loop that stores the instructions leaves each where it can be
-- fetched.
use ubpf.Prelude.{
  ℕ, zero, suc, ◌+◌, ◌^◌, ◌≤◌, ◌<◌, ◌≡◌, ◌∙◌, refl, sym, ap, arith, none, some, List, [], ◌∷◌,
  length, get_elem?, length-set, get_elem?-none, ltb→lt, lt→ltb, Bool-cases, inl, inr, ltb,
}
use ubpf.Inst.{Inst}
use ubpf.Vm.{Vm}
use ubpf.Vm.Program.{encode, fetch_word, store_instruction, scramble}
use ubpf.Vm.Program.RoundTrip.{IsInst, fetch_word-store_instruction, fetch_word-store_other}
use ubpf.Api.Load.{store_from}

-- Every instruction has fields in range.
abbrev pub AllInst : List Inst → Type 0
AllInst code = (k : ℕ) (x : Inst) → get_elem? code k ≡ some x → IsInst x

length-store_from :
    (vm : Vm) (i : ℕ) (xs : List Inst) (words : List ℕ)
    → length (store_from vm i xs words) ≡ length words
unfolding store_from store_instruction
length-store_from vm i [] words = refl
length-store_from vm i (x ∷ xs) words = length-store_from vm (i + 1) xs _ ∙ length-set words i _

module _ (vm : Vm) (base : vm.insts_base < 2 ^ 64) (secret : vm.pointer_secret < 2 ^ 64) where
  -- The loop does not touch what it has passed.
  store_from-before :
      (i j : ℕ) (xs : List Inst) (words : List ℕ)
      → j < i
      → fetch_word vm (store_from vm i xs words) j ≡ fetch_word vm words j
  unfolding store_from
  store_from-before i j [] words h = refl
  store_from-before i j (x ∷ xs) words h =
      store_from-before (i + 1) j xs (store_instruction vm words i x) (omega arith)
      ∙ fetch_word-store_other vm words i j x (λ e. omega arith)

  store_from-at :
      (i k j : ℕ) (xs : List Inst) (words : List ℕ)
      → AllInst xs
      → i + length xs ≤ length words
      → k < length xs
      → j ≡ i + k
      → fetch_word vm (store_from vm i xs words) j ≡ get_elem? xs k
  unfolding store_from store_instruction
  store_from-at i k j [] words fits room h e = absurd (omega arith)
  store_from-at i zero j (x ∷ xs) words fits room h e =
      let same : j ≡ i = omega arith in
      store_from-before (i + 1) j xs (store_instruction vm words i x) (omega arith)
      ∙ ap (fetch_word vm (store_instruction vm words i x)) same
      ∙ fetch_word-store_instruction vm words i x (fits 0 x refl) base secret (omega arith)
  store_from-at i (suc k) j (x ∷ xs) words fits room h e =
      store_from-at (i + 1) k j xs (store_instruction vm words i x)
        (λ n y at_n. fits (suc n) y at_n)
        (omega (arith, length-set words i (scramble vm (encode x)))) (omega arith) (omega arith)

  store_from-past :
      (j : ℕ) (xs : List Inst) (words : List ℕ)
      → length words ≡ length xs
      → ¬ (j < length xs)
      → fetch_word vm (store_from vm 0 xs words) j ≡ none
  unfolding fetch_word
  store_from-past j xs words e h =
      rw
        (
          fetch_word,
          get_elem?-none (store_from vm 0 xs words) j
              (λ p. h (omega (arith, length-store_from vm 0 xs words))),
        )
        refl

  -- The array holds the program as it was given, and nothing past it.
  pub store_from-fetches :
      (xs : List Inst) (words : List ℕ)
      → AllInst xs
      → length words ≡ length xs
      → (j : ℕ) → fetch_word vm (store_from vm 0 xs words) j ≡ get_elem? xs j
  store_from-fetches xs words fits e j = elim (Bool-cases (ltb j (length xs))) [
    | inl h ↦ store_from-at 0 j j xs words fits (omega arith) (ltb→lt _ _ h) (omega arith)
    | inr h ↦
        let past : ¬ (j < length xs) = λ p. absurd (ground (arith, lt→ltb j (length xs) p)) in
        store_from-past j xs words e past ∙ sym (get_elem?-none xs j past)
  ]
