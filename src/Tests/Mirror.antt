-- ===== src/Tests/Mirror.antt =====
-- One program in both profiles (vm/ubpf_safe.c, vm/ubpf_vm.c).
use ubpf.Prelude.{◌≡◌, refl, false, some, [], ◌∷◌}
use ubpf.Prelude.Int.{pos}
use ubpf.Inst.{decode}
use ubpf.Vm.{Vm}
use ubpf.Vm.Program.{encode, decode_word, scramble, fetch_word, fetch_instruction}
use ubpf.Interp.{Outcome}
use ubpf.Interp.Run.{run, initial_state, initial_registers}
use ubpf.Interp.Shadow.{validate_shadow_register}
use ubpf.Interp.Call.{enter_function}
use ubpf.Alu.{alu64}
use ubpf.Api.{create}
use ubpf.Safe.{SafeState, returned}
use ubpf.Safe.Alu.{apply_alu}
use ubpf.Safe.Call.{safe_exit}
use ubpf.Safe.Step.{is_arithmetic, safe_fetch, safe_step}
use ubpf.Safe.Run.{safe_run, initial_tags, initial_safe_state}
use ubpf.Safe.Mirror.Run.{safe_run-run}
use ubpf.Tests.Setup.{instruction, regions, memory}

-- r0 = 5; exit
abbrev small_vm : Vm
small_vm = record create {
  insts = some (
      encode (instruction 0xb7 0 0 (pos 0) (pos 5))
      ∷ encode (instruction 0x95 0 0 (pos 0) (pos 0))
      ∷ []);
  num_insts = 2;
  bounds_check_enabled = false;
}

abbrev start : SafeState
start = initial_safe_state small_vm regions (λ n. 0) memory

abbrev after_run : SafeState
after_run = elim (safe_run 2 small_vm regions start) [ some (returned v t) ↦ t | _ ↦ start ]

small_vm-settings :
    (small_vm.bounds_check_enabled ≡ false) × (small_vm.undefined_behavior_check_enabled ≡ false)
unfolding create
small_vm-settings = (refl, refl)

small_vm-returns : safe_run 2 small_vm regions start ≡ some (returned 5 after_run)
unfolding safe_run safe_step create initial_safe_state initial_state initial_tags initial_registers
    encode decode_word scramble fetch_word fetch_instruction decode validate_shadow_register
    safe_fetch enter_function is_arithmetic apply_alu safe_exit alu64
small_vm-returns = refl

safe_run-run_example : run 2 small_vm regions start.core ≡ some (Outcome.returned 5 after_run.core)
safe_run-run_example =
    safe_run-run small_vm regions 2 start after_run 5 small_vm-settings.0 small_vm-settings.1
      small_vm-returns
