-- ===== src/Tests/Runs.antt =====
-- Whole runs of `ubpf_load` and `ubpf_exec_ex` (vm/ubpf_vm.c).
use ubpf.Prelude.{◌<◌, ◌≡◌, refl, arith, some, length}
use ubpf.Interp.{Outcome}
use ubpf.Interp.Step.{step}
use ubpf.Interp.Run.{run, initial_state}
use ubpf.Interp.Limit.{run-ends}
use ubpf.Api.{create}
use ubpf.Safety.{Ends, Inv, MemoryKept}
use ubpf.Safety.Run.{initial_state-Inv}
use ubpf.Safety.Program.{validate-Checked, Checked}
use ubpf.Safety.Step.{step-Ends, Guarded}
use ubpf.Safety.Loading.{load-Guarded}
use ubpf.Tests.Setup.{
  program, host, limited_vm, limited_vm-no_functions, regions, memory, memory-Mapped,
  program-AllInst, host-addresses, loaded_vm, program-loaded, program-accepted, limited_vm-settings,
  target-Defined, limited_vm-ShadowFits,
}

load-Guarded_example : Guarded loaded_vm program regions
load-Guarded_example =
    load-Guarded limited_vm loaded_vm host program 48 regions program-loaded program-AllInst refl
      host-addresses (omega arith) limited_vm-settings.0 limited_vm-settings.1 limited_vm-ShadowFits
      (target-Defined program) (limited_vm-no_functions regions)

validate-Checked_example : (length program < 65536) × Checked limited_vm program
validate-Checked_example = validate-Checked limited_vm program program-accepted

run-ends_example :
    (end : Outcome) × (run 30 limited_vm regions (initial_state limited_vm regions (λ n. 0) memory)
      ≡ some end)
unfolding create initial_state
run-ends_example =
    run-ends limited_vm regions refl 30 (initial_state limited_vm regions (λ n. 0) memory)
      (omega arith)

step-Ends_example :
    Ends
      (Inv (MemoryKept regions memory) 6)
      (step loaded_vm regions (initial_state loaded_vm regions (λ n. 0) memory))
step-Ends_example =
    step-Ends loaded_vm program regions memory
      (load-Guarded limited_vm loaded_vm host program 48 regions program-loaded program-AllInst refl
        host-addresses (omega arith) limited_vm-settings.0 limited_vm-settings.1
        limited_vm-ShadowFits (target-Defined program) (limited_vm-no_functions regions))
      (initial_state loaded_vm regions (λ n. 0) memory)
      (initial_state-Inv loaded_vm regions (λ n. 0) memory 6 memory-Mapped (omega arith)
        (omega arith) (λ k. omega arith))
