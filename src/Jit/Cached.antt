-- ===== src/Jit/Cached.antt =====
-- What compilation leaves in the virtual machine (vm/ubpf_jit.c).
use ubpf.Prelude.{
  ℕ, zero, suc, [], ◌∷◌, ap, ◌≤◌, ◌≡◌, ◌∙◌, refl, arith, true, false, Option, none, some, List,
  ◌++◌, take, drop, replicate, ltb,
}
use ubpf.Vm.{legacy}
use ubpf.Jit.Compile.{
  same_mode, message, translated, JitMode, basic_mode, extended_mode, JitError, JitResult, JitVm,
  Os, translate_ex, install_code, compile_fresh, compile_ex, copy_jit,
}

same_mode_refl : (mode : JitMode) → same_mode mode mode ≡ true
same_mode_refl basic_mode = refl
same_mode_refl extended_mode = refl

message_new : (m : Option JitError) → message m none ≡ m
message_new none = refl
message_new (some e) = refl

compile_ex-fresh :
    (j : JitVm) (os : Os) (mode : JitMode) (old : Option JitError)
    → j.vm.execution_profile ≡ legacy
    → j.jitted ≡ none
    → compile_ex os j mode old ≡ compile_fresh os j mode
unfolding compile_ex
compile_ex-fresh j os mode old profile fresh = simp (compile_ex, profile, fresh)

compile_fresh-runs :
    (j : JitVm) (os : Os) (mode : JitMode) (words : List ℕ)
    → j.vm.insts ≡ some words
    → os.allocated ≡ true
    → compile_fresh os j mode
      ≡ install_code os
          (translate_ex j (replicate j.jitter_buffer_size 0) j.jitter_buffer_size mode none)
unfolding compile_fresh
compile_fresh-runs j os mode words loaded allocated = simp (compile_fresh, loaded, allocated)

translate_ex-runs :
    (j : JitVm) (blank : List ℕ) (size : ℕ) (mode : JitMode) (buffer : List ℕ) (n : ℕ)
    (result : JitResult)
    → j.vm.execution_profile ≡ legacy
    → j.jit_translate j.vm blank size mode ≡ (buffer, n, result)
    → translate_ex j blank size mode none ≡ translated j none (buffer, n, result)
unfolding translate_ex
translate_ex-runs j blank size mode buffer n result profile runs =
    simp (translate_ex, profile, runs)

install_code-installs :
    (j : JitVm) (os : Os) (buffer : List ℕ) (n : ℕ) (result : JitResult)
    → os.mapped ≡ true
    → os.protected ≡ true
    → result.compile_result ≡ true
    → install_code os (translated j none (buffer, n, result)) ≡ (
      record j { jitted = some (take n buffer); jitted_size = n; jitted_result = result },
      some (take n buffer),
      result.errmsg,
    )
unfolding install_code
install_code-installs j os buffer n result mapped protected success =
    simp (install_code, mapped, protected, success, message_new result.errmsg)

-- The first call runs the back end.
compiles :
    (j : JitVm) (os : Os) (mode : JitMode) (old : Option JitError) (words buffer : List ℕ) (n : ℕ)
    (result : JitResult)
    → j.vm.execution_profile ≡ legacy
    → j.vm.insts ≡ some words
    → j.jitted ≡ none
    → os.allocated ≡ true
    → os.mapped ≡ true
    → os.protected ≡ true
    → j.jit_translate j.vm (replicate j.jitter_buffer_size 0) j.jitter_buffer_size mode
      ≡ (buffer, n, result)
    → result.compile_result ≡ true
    → compile_ex os j mode old ≡ (
      record j { jitted = some (take n buffer); jitted_size = n; jitted_result = result },
      some (take n buffer),
      result.errmsg,
    )
compiles j os mode old words buffer n result profile loaded fresh allocated mapped protected runs
      success =
    compile_ex-fresh j os mode old profile fresh
    ∙ compile_fresh-runs j os mode words loaded allocated
    ∙ ap (install_code os) (translate_ex-runs j _ _ mode buffer n result profile runs)
    ∙ install_code-installs j os buffer n result mapped protected success

-- A later call for the same mode finds the code.
cached :
    (j : JitVm) (os : Os) (mode : JitMode) (old : Option JitError) (buffer : List ℕ) (n : ℕ)
    (result : JitResult)
    → j.vm.execution_profile ≡ legacy
    → result.compile_result ≡ true
    → result.jit_mode ≡ mode
    → compile_ex os
        (record j { jitted = some (take n buffer); jitted_size = n; jitted_result = result })
        mode
        old
      ≡ (
        record j { jitted = some (take n buffer); jitted_size = n; jitted_result = result },
        some (take n buffer),
        old,
      )
unfolding compile_ex
cached j os mode old buffer n result profile success same =
    rw (compile_ex, profile, success, same, same_mode_refl mode) refl

take-take : (n : ℕ) (xs : List ℕ) → take n (take n xs) ≡ take n xs
take-take zero xs = refl
take-take (suc n) [] = refl
take-take (suc n) (x ∷ xs) = ap (λ ys. x ∷ ys) (take-take n xs)

copies :
    (j : JitVm) (buffer out : List ℕ) (n room : ℕ) (result : JitResult)
    → result.compile_result ≡ true
    → n ≤ room
    → copy_jit
        (record j { jitted = some (take n buffer); jitted_size = n; jitted_result = result })
        out
        room
      ≡ (some (take n buffer ++ drop n out), none)
unfolding copy_jit
copies j buffer out n room result success enough =
    let large : ltb room n ≡ false = ground arith in
    rw (copy_jit, success, large, take-take n buffer) refl

-- Where the host grants the memory and the back end succeeds in the mode that it was asked for, a
-- loaded program of the legacy profile is compiled: the code is what the back end wrote, a second
-- call for that mode gives the same code and changes nothing, whatever the host does then, and
-- the code can be copied into a buffer that is as large as it.
pub compile_ex-Compiles :
    (j : JitVm) (os os' : Os) (mode : JitMode) (old old' : Option JitError)
    (words buffer out : List ℕ) (n room : ℕ) (result : JitResult)
    → j.vm.execution_profile ≡ legacy
    → j.vm.insts ≡ some words
    → j.jitted ≡ none
    → os.allocated ≡ true
    → os.mapped ≡ true
    → os.protected ≡ true
    → j.jit_translate j.vm (replicate j.jitter_buffer_size 0) j.jitter_buffer_size mode
      ≡ (buffer, n, result)
    → result.compile_result ≡ true
    → result.jit_mode ≡ mode
    → n ≤ room
    → (j' : JitVm) × (compile_ex os j mode old ≡ (j', some (take n buffer), result.errmsg))
      × (compile_ex os' j' mode old' ≡ (j', some (take n buffer), old'))
      × (copy_jit j' out room ≡ (some (take n buffer ++ drop n out), none))
unfolding compile_ex
compile_ex-Compiles j os os' mode old old' words buffer out n room result profile loaded fresh
      allocated mapped protected runs success same enough =
    (
      record j { jitted = some (take n buffer); jitted_size = n; jitted_result = result },
      compiles j os mode old words buffer n result profile loaded fresh allocated mapped protected
          runs success,
      cached j os' mode old' buffer n result profile success same,
      copies j buffer out n room result success enough,
    )
