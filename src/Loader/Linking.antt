-- ===== src/Loader/Linking.antt =====
-- The functions of an ELF image in the linked program (vm/ubpf_loader.c): they stand one behind the
-- other, in the order of the table.
use ubpf.Prelude.{
  ℕ, zero, suc, ◌+◌, ◌/◌, ◌≤◌, ◌≡◌, ◌∙◌, refl, sym, ap, arith, some, List, [], ◌∷◌, ◌++◌, map,
  length, get_elem?, take, drop, replicate, true, length-take, length-drop, length-append,
  length-replicate, take-append-drop,
}
use ubpf.Loader.{Elf, done}
use ubpf.Loader.Copy.{
  copied, put_bytes_lem, take-copied, drop-copied, length-copied, take-all_append, drop-all_append,
  append_assoc,
}
use ubpf.Loader.Symbols.{RelocatedFunction, Functions, Heap}
use ubpf.Loader.Link.{body, link_functions, link}

-- The bytes of a function, where the image has them all.
abbrev pub body_of : Elf → RelocatedFunction → List ℕ
body_of elf f = take f.size (drop f.native_data elf)

abbrev pub Inside : Elf → List RelocatedFunction → Type 0
Inside elf [] = Unit
Inside elf (f ∷ fs) = (f.native_data + f.size ≤ length elf) × Inside elf fs

unfoldable pub sizes : List RelocatedFunction → ℕ
sizes [] = 0
sizes (f ∷ fs) = f.size + sizes fs

unfoldable pub bodies : Elf → List RelocatedFunction → List ℕ
bodies elf [] = []
bodies elf (f ∷ fs) = body_of elf f ++ bodies elf fs

-- The functions with the places that they get.
unfoldable pub placed : ℕ → List RelocatedFunction → List RelocatedFunction
placed spot [] = []
placed spot (f ∷ fs) =
    record f { landed = spot / 8; linked_data = spot } ∷ placed (spot + f.size) fs

length-body_of :
    (elf : Elf) (f : RelocatedFunction)
    → f.native_data + f.size ≤ length elf
    → length (body_of elf f) ≡ f.size
length-body_of elf f h =
    omega (arith, length-take f.size (drop f.native_data elf), length-drop f.native_data elf)

body_lem :
    (elf : Elf) (f : RelocatedFunction)
    → f.native_data + f.size ≤ length elf
    → body elf f ≡ done (body_of elf f)
unfolding body
body_lem elf f h = ground arith

-- The loop from any landing spot: the bytes behind it are overwritten by the functions.
link_functions-lem :
    (elf : Elf) (fs : List RelocatedFunction) (spot : ℕ) (program : List ℕ)
    → Inside elf fs
    → spot + sizes fs ≤ length program
    → link_functions elf (map some fs) spot program
      ≡ done
          (placed spot fs, take spot program ++ (bodies elf fs ++ drop (spot + sizes fs) program))
unfolding link_functions body sizes bodies placed
link_functions-lem elf [] spot program inside room =
    let e : spot ≡ spot + 0 = omega arith in
    ap (λ p. done ([], p))
      (sym (take-append-drop spot program) ∙ ap (λ k. take spot program ++ drop k program) e)
link_functions-lem elf (f ∷ fs) spot program (here, inside) room =
    let size = length-body_of elf f here in
    let room' : spot + f.size ≤ length program = omega arith in
    let next = copied spot f.size program (body_of elf f) size room' in
    let ih =
      link_functions-lem elf fs (spot + f.size) next inside
        (omega (arith, length-copied spot f.size program (body_of elf f) size room')) in
    let same : take (spot + f.size) next ++ (bodies elf fs ++ drop (spot + f.size + sizes fs) next)
        ≡ take spot program
          ++ ((body_of elf f ++ bodies elf fs) ++ drop (spot + (f.size + sizes fs)) program) =
      let e : spot + f.size + sizes fs ≡ spot + (f.size + sizes fs) = omega arith in
      rw
        (
          take-copied spot f.size program (body_of elf f) size room',
          drop-copied spot f.size program (body_of elf f) size room' (sizes fs),
          e,
          append_assoc,
          append_assoc,
        )
        refl in
    rw (body_lem elf f here, put_bytes_lem spot f.size program (body_of elf f) size room', ih, same)
      refl

length-bodies :
    (elf : Elf) (fs : List RelocatedFunction) → Inside elf fs → length (bodies elf fs) ≡ sizes fs
unfolding bodies sizes
length-bodies elf [] inside = refl
length-bodies elf (f ∷ fs) (here, inside) = omega (
  arith,
  length-append (body_of elf f) (bodies elf fs),
  length-body_of elf f here,
  length-bodies elf fs inside,
)

-- The k-th body is found at the sum of the sizes before it.
take-bodies :
    (elf : Elf) (fs : List RelocatedFunction) (rest : List ℕ) (k : ℕ) (f : RelocatedFunction)
    → Inside elf fs
    → get_elem? fs k ≡ some f
    → take f.size (drop (sizes (take k fs)) (bodies elf fs ++ rest)) ≡ body_of elf f
unfolding sizes bodies
take-bodies elf [] rest k f inside at_k = absurd (ground arith)
take-bodies elf (g ∷ fs) rest zero f (here, inside) at_k =
    let e : g ≡ f = ground arith in
    rw (← e, append_assoc)
      (take-all_append g.size (body_of elf g) (bodies elf fs ++ rest) (length-body_of elf g here))
take-bodies elf (g ∷ fs) rest (suc k) f (here, inside) at_k =
    rw
      (
        append_assoc,
        drop-all_append g.size (sizes (take k fs)) (body_of elf g) (bodies elf fs ++ rest)
            (length-body_of elf g here),
      )
      (take-bodies elf fs rest k f inside at_k)

get_elem?-placed :
    (fs : List RelocatedFunction) (spot k : ℕ) (f : RelocatedFunction)
    → get_elem? fs k ≡ some f
    → get_elem? (placed spot fs) k
      ≡ some (record f {
        landed = (spot + sizes (take k fs)) / 8;
        linked_data = spot + sizes (take k fs);
      })
unfolding placed sizes
get_elem?-placed [] spot k f at_k = absurd (ground arith)
get_elem?-placed (g ∷ fs) spot zero f at_k =
    let same : g ≡ f = ground arith in
    let e : spot ≡ spot + 0 = omega arith in rw (← same, ← e) refl
get_elem?-placed (g ∷ fs) spot (suc k) f at_k =
    let e : spot + g.size + sizes (take k fs) ≡ spot + (g.size + sizes (take k fs)) = omega arith in
    rw (get_elem?-placed fs (spot + g.size) k f at_k, e) refl

-- The table of the functions, as the loop over the symbols leaves it.
pub record Table (fs : Functions) (main : RelocatedFunction) (others : List RelocatedFunction)
    : Type 0 where
  pub used : take fs.total fs.slots ≡ map some (main ∷ others)
  pub first : get_elem? fs.slots 0 ≡ some (some main)
  pub fits : sizes (main ∷ others) ≤ fs.program_size

link-lem :
    (elf : Elf) (heap : Heap) (fs : Functions) (main : RelocatedFunction)
    (others : List RelocatedFunction)
    → heap.program ≡ true
    → Table fs main others
    → Inside elf (main ∷ others)
    → link elf heap fs
      ≡ done (
        placed 0 (main ∷ others),
        bodies elf (main ∷ others) ++ drop (sizes (main ∷ others)) (replicate fs.program_size 0),
      )
unfolding link
link-lem elf heap fs main others heap_ok table inside =
    let e : 0 + sizes (main ∷ others) ≡ sizes (main ∷ others) = omega arith in
    rw (link, table.first, heap_ok, table.used, ← e)
      (link_functions-lem elf (main ∷ others) 0 (replicate fs.program_size 0) inside
        (omega (arith, table.fits, length-replicate {A = ℕ} fs.program_size 0)))

-- Where the functions of a table are in the image and fit into the program, linking succeeds, the
-- program has the size that was reserved, and each function is in it, byte for byte, behind those
-- that stand before it in the table; where it landed is recorded in bytes and in instructions.
pub link-Placed :
    (elf : Elf) (heap : Heap) (fs : Functions) (main : RelocatedFunction)
    (others : List RelocatedFunction) (k : ℕ) (f : RelocatedFunction)
    → heap.program ≡ true
    → Table fs main others
    → Inside elf (main ∷ others)
    → get_elem? (main ∷ others) k ≡ some f
    → (functions : List RelocatedFunction) × (program : List ℕ) × (at : ℕ) × (link elf heap fs
        ≡ done (functions, program))
      × (length program ≡ fs.program_size)
      × (at ≡ sizes (take k (main ∷ others)))
      × (get_elem? functions k ≡ some (record f { landed = at / 8; linked_data = at }))
      × (take f.size (drop at program) ≡ body_of elf f)
link-Placed elf heap fs main others k f heap_ok table inside at_k =
    let all = main ∷ others in
    let blank : List ℕ = replicate fs.program_size 0 in
    let tail = drop (sizes all) blank in
    let at = sizes (take k all) in
    let e : at ≡ 0 + at = omega arith in
    (
      placed 0 all,
      bodies elf all ++ tail,
      at,
      link-lem elf heap fs main others heap_ok table inside,
      omega (
        arith,
        table.fits,
        length-append (bodies elf all) tail,
        length-drop (sizes all) blank,
        length-replicate {A = ℕ} fs.program_size 0,
        length-bodies elf all inside,
      ),
      refl,
      rw e (get_elem?-placed all 0 k f at_k),
      take-bodies elf all tail k f inside at_k,
    )
