-- ===== src/Api/Lifecycle/Invariant.antt =====
-- vm/ubpf_vm.c: every call of the API keeps the machine sound, `ubpf_load` on its error paths too.
use mathlib.Core.Bool.{not}
use ubpf.Prelude.{
  ℕ, ◌+◌, ◌%◌, ◌^◌, ◌||◌, ltb, true, ◌<◌, ◌≡◌, inl, inr, refl, arith, sym, Bool, Option, none, some,
  List, length, ◌∙◌, false, [], ◌∷◌, Option-cases, if_both, if_cases, leb, ◌==◌,
}
use ubpf.Prelude.Int.{negsuc}
use ubpf.Filter.{eq_ℤ}
use ubpf.Inst.{Inst}
use ubpf.Vm.{Vm, max_ext_funcs, max_safe_regions}
use ubpf.Api.{
  create, toggle_bounds_check, toggle_constant_blinding, toggle_undefined_behavior_check,
  toggle_readonly_bytecode, register, register_external_dispatcher, set_unwind_function_index,
  set_pointer_secret, register_data_bounds_check, register_data_relocation, set_instruction_limit,
  register_stack_usage_calculator,
}
use ubpf.Word.{u64}
use ubpf.Safe.{all_permissions}
use ubpf.Api.Profile.{
  is_some, set_execution_profile, start_execution, HelperDescriptor, is_described, set_metadata,
  register_safe_helper, RegionDescriptor, is_reserved, find_slot, place_region,
  register_safe_region,
}
use ubpf.Api.Load.{
  Host, LoadResult, load, unload_code, install, after_validate, emptied, filled, is_loaded,
}
use ubpf.Vm.Program.{fetch_instruction, fetch_word, scramble}
use ubpf.Validate.{UsageTable, Verdict, accepted, rejected}
use ubpf.Validate.Program.{validate}
use ubpf.Safety.{Loaded}
use ubpf.Safety.Loading.{filled-Loaded}
use ubpf.Safety.Program.{validate-Checked}
use ubpf.Api.Lifecycle.{
  Call, ApiStep, bounds_check_toggled, blinding_toggled, checks_toggled, readonly_toggled,
  registered, dispatched, unwind_set, secret_set, check_registered, relocation_registered, limited,
  calculator_registered, profile_set, helper_registered, region_registered, executed,
  program_loaded, program_unloaded, Reachable, created, called, Sound,
}

-- A machine of the same program is as sound.
Holds-same :
    (vm vm' : Vm)
    → vm'.insts ≡ vm.insts
    → vm'.pointer_secret ≡ vm.pointer_secret
    → vm'.num_insts ≡ vm.num_insts
    → ((pc : ℕ) → fetch_instruction vm' pc ≡ fetch_instruction vm pc)
    → Sound vm
    → Sound vm'
Holds-same vm vm' words secret num same sound = record {
  secret_fits = rw secret sound.secret_fits;
  holds = elim sound.holds [
    | inl (e, n) ↦ inl (words ∙ e, num ∙ n)
    | inr (code, l) ↦ inr (
      code,
      record { fetches = λ pc. same pc ∙ l.fetches pc; count = num ∙ l.count; small = l.small },
    )
  ];
}

nothing_fetched : (vm : Vm) (pc : ℕ) → vm.insts ≡ none → fetch_instruction vm pc ≡ none
unfolding fetch_instruction
nothing_fetched vm pc e = rw (fetch_instruction, e) refl

Loaded-none : (vm : Vm) (code : List Inst) → Loaded vm code → vm.insts ≡ none → vm.num_insts ≡ 0
Loaded-none vm [] l e = l.count
Loaded-none vm (x ∷ xs) l e =
    let clash : none ≡ some x = sym (nothing_fetched vm 0 e) ∙ l.fetches 0 in absurd (ground arith)

count-zero : (vm : Vm) → Sound vm → vm.insts ≡ none → vm.num_insts ≡ 0
count-zero vm sound e = elim sound.holds [
  | inl (same, n) ↦ n
  | inr (code, l) ↦ Loaded-none vm code l e
]

Empty-Sound : (vm : Vm) → vm.pointer_secret < 2 ^ 64 → vm.insts ≡ none → vm.num_insts ≡ 0 → Sound vm
Empty-Sound vm secret e n = record { secret_fits = secret; holds = inl (e, n) }

install-Sound :
    (vm : Vm) (host : Host) (code : List Inst) (code_len : ℕ)
    → vm.pointer_secret < 2 ^ 64
    → vm.insts ≡ none
    → vm.num_insts ≡ 0
    → Call host code code_len
    → length code < 65536
    → Sound (install vm host code code_len).0
unfolding install filled
install-Sound vm host code code_len secret e n c small =
    let S = λ (p : Vm × LoadResult). Sound p.0 in
    elim (Option-cases host.array) [
      | inl a ↦
          rw (install, a)
            (if_both Sound vm.readonly_bytecode_enabled (Empty-Sound _ secret e n)
              (Empty-Sound vm secret e n))
      | inr (base, a) ↦
          let empty : Sound (emptied vm) = Empty-Sound (emptied vm) secret refl refl in
          let full : Sound (filled vm host code code_len base) = record {
            secret_fits = secret;
            holds = inr (
              code,
              filled-Loaded vm host code code_len base c.fields c.bytes small (c.addresses base a)
                  secret,
            );
          } in
          rw (install, a)
            (if_both S (not host.flags_allocated) empty
              (if_both S vm.readonly_bytecode_enabled (if_both S host.protected full empty) full))
    ]

after_validate-Sound :
    (vm : Vm) (host : Host) (code : List Inst) (code_len : ℕ) (v : UsageTable × Verdict)
    → vm.pointer_secret < 2 ^ 64
    → vm.insts ≡ none
    → vm.num_insts ≡ 0
    → Call host code code_len
    → (v.1 ≡ accepted → length code < 65536)
    → Sound (after_validate vm host code code_len v).0
unfolding after_validate
after_validate-Sound vm host code code_len (t, accepted) secret e n c small =
    install-Sound (record vm { local_func_stack_usage = t }) host code code_len secret e n c
      (small refl)
after_validate-Sound vm host code code_len (t, rejected m) secret e n c small =
    Empty-Sound _ secret e n

is_loaded-none : (o : Option (List ℕ)) → is_loaded o ≡ false → o ≡ none
is_loaded-none none h = refl
is_loaded-none (some words) h = absurd (ground arith)

load-Sound :
    (vm : Vm) (host : Host) (code : List Inst) (code_len : ℕ)
    → Call host code code_len
    → Sound vm
    → Sound (load vm host code code_len).0
unfolding load
load-Sound vm host code code_len c sound =
    let S = λ (p : Vm × LoadResult). Sound p.0 in
    if_cases S (is_loaded vm.insts) (λ e. sound)
      (λ f.
        let e : vm.insts ≡ none = is_loaded-none vm.insts f in
        let n : vm.num_insts ≡ 0 = count-zero vm sound e in
        if_both S (not (code_len % 8 == 0)) sound (
          after_validate-Sound vm host code code_len (validate vm code) sound.secret_fits e n c
            (λ h. (validate-Checked vm code h).0)))

secret-Sound :
    (vm : Vm) (secret : ℕ) → secret < 2 ^ 64 → Sound vm → Sound (set_pointer_secret vm secret).0
unfolding set_pointer_secret
secret-Sound vm secret fits sound = elim (Option-cases vm.insts) [
  | inr (words, e) ↦ rw (set_pointer_secret, e) sound
  | inl e ↦ rw (set_pointer_secret, e) (Empty-Sound _ fits e (count-zero vm sound e))
]

unloaded-count : (vm : Vm) → Sound vm → (unload_code vm).num_insts ≡ 0
unfolding unload_code
unloaded-count vm sound = elim (Option-cases vm.insts) [
  | inr (words, e) ↦ rw (unload_code, e) refl
  | inl e ↦ rw (unload_code, e) (count-zero vm sound e)
]

metadata-Sound : (d : HelperDescriptor) (p : Vm × Bool) → Sound p.0 → Sound (set_metadata d p).0
unfolding set_metadata fetch_instruction fetch_word scramble
metadata-Sound d (vm, false) sound = sound
metadata-Sound d (vm, true) sound = Holds-same vm _ refl refl refl (λ pc. refl) sound

helper-Sound :
    (vm : Vm) (patched : Bool) (d : HelperDescriptor)
    → Sound vm
    → Sound (register_safe_helper vm patched d).0
unfolding register_safe_helper register fetch_instruction fetch_word scramble
helper-Sound vm patched d sound =
    let S = λ (p : Vm × Bool). Sound p.0 in
    if_both S (leb max_ext_funcs d.index || not (is_some d.fn)) sound (
      if_both S (not (is_described d.result_kind d.region_id d.region_size)) sound (
        metadata-Sound d _ (
          if_both S (leb max_ext_funcs d.index) sound
            (Holds-same vm _ refl refl refl (λ pc. refl) sound))))

place-Sound :
    (vm : Vm) (d : RegionDescriptor) (slot : Option ℕ) → Sound vm → Sound (place_region vm d slot).0
unfolding place_region fetch_instruction fetch_word scramble
place-Sound vm d none sound = sound
place-Sound vm d (some i) sound = Holds-same vm _ refl refl refl (λ pc. refl) sound

region-Sound : (vm : Vm) (d : RegionDescriptor) → Sound vm → Sound (register_safe_region vm d).0
unfolding register_safe_region
region-Sound vm d sound =
    let S = λ (p : Vm × Bool). Sound p.0 in
    if_both S (is_reserved d.id || d.size == 0 || d.base == 0) sound (
      if_both S (ltb all_permissions d.permissions || ltb (u64 (d.base + d.size)) d.base) sound
        (place-Sound vm d (find_slot vm.safe_regions d.id max_safe_regions 0 none) sound))

step-Sound : {vm vm' : Vm} → ApiStep vm vm' → Sound vm → Sound vm'
unfolding fetch_instruction fetch_word scramble toggle_bounds_check toggle_constant_blinding
    toggle_undefined_behavior_check toggle_readonly_bytecode register register_external_dispatcher
    set_unwind_function_index register_data_bounds_check register_data_relocation
    set_instruction_limit register_stack_usage_calculator unload_code set_execution_profile
    start_execution
step-Sound (bounds_check_toggled on) sound = Holds-same _ _ refl refl refl (λ pc. refl) sound
step-Sound (blinding_toggled on) sound = Holds-same _ _ refl refl refl (λ pc. refl) sound
step-Sound (checks_toggled on) sound = Holds-same _ _ refl refl refl (λ pc. refl) sound
step-Sound (readonly_toggled on) sound = Holds-same _ _ refl refl refl (λ pc. refl) sound
step-Sound (registered {vm = vm} patched idx name fn) sound =
    if_both (λ (p : Vm × Bool). Sound p.0) (leb max_ext_funcs idx) sound
      (Holds-same _ _ refl refl refl (λ pc. refl) sound)
step-Sound (dispatched patched d v) sound = Holds-same _ _ refl refl refl (λ pc. refl) sound
step-Sound (unwind_set {vm = vm} idx) sound =
    if_both (λ (p : Vm × Bool). Sound p.0) (not (eq_ℤ vm.unwind_stack_extension_index (negsuc 0)))
      sound (Holds-same _ _ refl refl refl (λ pc. refl) sound)
step-Sound (secret_set {vm = vm} secret fits) sound = secret-Sound vm secret fits sound
step-Sound (check_registered {vm = vm} f) sound = elim (Option-cases vm.bounds_check_function) [
  | inl e ↦ rw (register_data_bounds_check, e) (Holds-same _ _ refl refl refl (λ pc. refl) sound)
  | inr (g, e) ↦ rw (register_data_bounds_check, e) sound
]
step-Sound (relocation_registered {vm = vm} f) sound =
    elim (Option-cases vm.data_relocation_function) [
      | inl e ↦ rw (register_data_relocation, e) (Holds-same _ _ refl refl refl (λ pc. refl) sound)
      | inr (g, e) ↦ rw (register_data_relocation, e) sound
    ]
step-Sound (limited limit) sound = Holds-same _ _ refl refl refl (λ pc. refl) sound
step-Sound (calculator_registered f) sound = Holds-same _ _ refl refl refl (λ pc. refl) sound
step-Sound (program_loaded {vm = vm} host code code_len c) sound =
    load-Sound vm host code code_len c sound
step-Sound (profile_set {vm = vm} p) sound =
    if_both (λ (p : Vm × Bool). Sound p.0) (is_some vm.insts || vm.execution_started) sound
      (Holds-same _ _ refl refl refl (λ pc. refl) sound)
step-Sound (helper_registered {vm = vm} patched d) sound = helper-Sound vm patched d sound
step-Sound (region_registered {vm = vm} d base size) sound = region-Sound vm d sound
step-Sound (executed {vm = vm}) sound = elim (Option-cases vm.insts) [
  | inl e ↦ rw (start_execution, e) sound
  | inr (words, e) ↦ rw (start_execution, e) (Holds-same _ _ refl refl refl (λ pc. refl) sound)
]
step-Sound (program_unloaded {vm = vm}) sound =
    Empty-Sound (unload_code vm) sound.secret_fits refl (unloaded-count vm sound)

create-Sound : Sound create
unfolding create
create-Sound = Empty-Sound create (omega arith) refl refl

-- In every machine that the API can lead to, either nothing is loaded, or each instruction of a
-- whole program can be fetched: the secret that hides the instructions never changes under them,
-- and a load that fails leaves nothing behind.
pub Reachable-Sound : {vm : Vm} → Reachable vm → Sound vm
Reachable-Sound created = create-Sound
Reachable-Sound (called before one) = step-Sound one (Reachable-Sound before)
