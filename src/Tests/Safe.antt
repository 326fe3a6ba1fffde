-- ===== src/Tests/Safe.antt =====
-- Runs in the safe profile (vm/ubpf_safe.c).
use ubpf.Prelude.{
  ℕ, ◌≤◌, ◌<◌, ◌≡◌, ◌↔◌, refl, arith, true, ◌&&◌, ◌||◌, ◌==◌, if◌then◌else◌, leb, ltb, inl, inr,
  none, some, Bool-cases,
}
use mathlib.Core.Option.{some-injective}
use mathlib.Core.Path.{subst}
use ubpf.Prelude.Int.{ℤ, pos, negsuc}
use ubpf.Inst.{Inst, w64}
use ubpf.Memory.{Memory, mem_load}
use ubpf.Vm.{Vm, Helper, RegionKind, SafeRegion, safe}
use ubpf.Interp.{Regions}
use ubpf.Interp.Call.{external_function}
use ubpf.Api.{create}
use ubpf.Api.Load.{loaded, load}
use ubpf.Validate.Program.{validate}
use ubpf.Validate.Usage.{calculate_stack_usage_for_local_func}
use ubpf.Validate.Instruction.{check_instruction}
use ubpf.Validate.Subprograms.{check_for_self_contained_sub_programs}
use ubpf.Inst.{decode}
use ubpf.Safety.{IsByte}
use ubpf.Safety.Control.{Keeps}
use ubpf.Safe.{Tag, pointer_tag, scalar_tag, SafeState, SafeOutcome}
use ubpf.Safe.Access.{granted, compute_access}
use ubpf.Safe.Access.Exact.{Permits, compute_access_iff}
use ubpf.Safe.Alu.{apply_alu}
use ubpf.Safe.Alu.Origin.{Origin, Makes, apply_alu-Origin}
use ubpf.Safe.Transfer.{safe_load, safe_store, safe_atomic}
use ubpf.Safe.Transfer.Refused.{IsGuarded, access-IsGuarded}
use ubpf.Safe.Transfer.RoundTrip.{load_back, safe_load-safe_store}
use ubpf.Interp.Run.{initial_state, initial_registers}
use ubpf.Safe.Access.{is_stack_pointer}
use ubpf.Safe.Run.{initial_tags}
use ubpf.Safe.{running}
use ubpf.Safe.Run.{safe_run, initial_safe_state}
use ubpf.Safe.Limit.{safe_run-ends}
use ubpf.Safe.Guard.{SafeMemory}
use ubpf.Safe.Guard.Run.{AllMapped, initial_safe_state-Inv}
use ubpf.Safe.Guard.Loading.{RunsSafely, load-execute-IsSafe}
use ubpf.Tests.Setup.{
  instruction, program, host, regions, target-Defined, in_regions, program-AllInst, host-addresses,
}

-- A region of 32 bytes that can be read and written.
abbrev shared : SafeRegion
shared = record { id = 7; base = 16384; end = 16416; kind = RegionKind.pointer; permissions = 3 }

abbrev safe_vm : Vm
safe_vm = record create {
  instruction_limit = pos 20;
  pointer_secret = 77;
  execution_profile = safe;
  safe_regions = λ j. if j == 0 then some shared else none;
}

abbrev safe_memory : Memory
safe_memory a = if in_regions a || (leb 16384 a && ltb a 16416) then some 0 else none

in_table :
    (j a : ℕ) (region : SafeRegion)
    → (if j == 0 then some shared else none) ≡ some region
    → region.base ≤ a
    → a < region.end
    → IsByte (safe_memory a)
in_table j a region h low high = elim (Bool-cases (j == 0)) [
  | inl e ↦
      let same : shared ≡ region = some-injective _ _ (rw e at h) in
      let In = λ (x : SafeRegion). x.base ≤ a → a < x.end → IsByte (safe_memory a) in
      subst In same (λ p q. (0, ground arith, omega arith)) low high
  | inr e ↦ absurd (ground arith)
]

safe_memory-AllMapped : AllMapped safe_vm regions safe_memory
unfolding create
safe_memory-AllMapped a (inl h) = (0, ground arith, omega arith)
safe_memory-AllMapped a (inr (j, region, found, kind, u, low, high)) =
    in_table j a region found low high

safe_vm-no_functions :
    (imm : ℤ) (f : Helper)
    → external_function safe_vm imm ≡ some f
    → Keeps (SafeMemory safe_vm regions safe_memory) f
unfolding external_function create
safe_vm-no_functions (pos n) f h = absurd (ground arith)
safe_vm-no_functions (negsuc n) f h = absurd (ground arith)

abbrev loaded_safe_vm : Vm
unfolding load
loaded_safe_vm = (load safe_vm host program 48).0

program-loaded : load safe_vm host program 48 ≡ (loaded_safe_vm, loaded)
unfolding load create validate calculate_stack_usage_for_local_func check_instruction decode
    check_for_self_contained_sub_programs
program-loaded = refl

load-execute-IsSafe_example : RunsSafely 30 loaded_safe_vm regions (λ n. 0) safe_memory
unfolding create
load-execute-IsSafe_example =
    load-execute-IsSafe safe_vm loaded_safe_vm host program 48 regions (λ n. 0) safe_memory 30
      program-loaded program-AllInst refl host-addresses (omega arith) refl (target-Defined program)
      safe_vm-no_functions safe_memory-AllMapped (omega arith) (omega arith) (λ k. omega arith) refl
      (omega arith)

safe_run-ends_example :
    (end : SafeOutcome) × (safe_run 30 safe_vm regions
        (initial_safe_state safe_vm regions (λ n. 0) safe_memory)
      ≡ some end)
unfolding create initial_safe_state ubpf.Interp.Run.initial_state
safe_run-ends_example =
    safe_run-ends safe_vm regions refl 30 (initial_safe_state safe_vm regions (λ n. 0) safe_memory)
      (omega arith)

abbrev tag : Tag
tag = pointer_tag 7 3 16384 32

compute_access_iff_example :
    (compute_access tag 16392 (negsuc 7) 8 1 ≡ granted 16384)
    ↔ Permits tag 16392 (negsuc 7) 8 1 16384
compute_access_iff_example = compute_access_iff tag 16392 (negsuc 7) 8 1 16384 (omega arith)

-- r1 += 4
abbrev add_inst : Inst
add_inst = instruction 0x07 1 0 (pos 0) (pos 4)

apply_alu-Origin_example :
    Makes (Origin add_inst tag scalar_tag 16388) (apply_alu add_inst tag scalar_tag 16388)
apply_alu-Origin_example = apply_alu-Origin add_inst tag scalar_tag 16388

abbrev first : SafeState
first = initial_safe_state safe_vm regions (λ n. 0) safe_memory

-- r0 = *(u64 *)(r1 + 12), which runs out of the caller's 16 bytes
abbrev access_inst : Inst
access_inst = instruction 0x79 0 1 (pos 12) (pos 0)

access-IsGuarded_example :
    IsGuarded first 1 access_inst 8 1
      (safe_load safe_vm regions access_inst 8 true (mem_load 8) first)
    × IsGuarded first 0 access_inst 8 2 (safe_store safe_vm regions access_inst 8 5 true first)
    × IsGuarded first 0 access_inst 8 6 (safe_atomic regions access_inst w64 first)
access-IsGuarded_example =
    access-IsGuarded safe_vm regions access_inst first 8 5 true (mem_load 8) w64

-- *(u64 *)(r10 - 8) = r1
abbrev spill_inst : Inst
spill_inst = instruction 0x7b 10 1 (negsuc 7) (pos 0)

first-spills :
    (compute_access (first.tags 10) (first.core.reg 10) (negsuc 7) 8 2 ≡ granted 12280)
    × (compute_access (first.tags 10) (first.core.reg 10) (negsuc 7) 8 1 ≡ granted 12280)
    × (is_stack_pointer regions (first.tags 10) ≡ true)
unfolding compute_access initial_safe_state initial_tags initial_state initial_registers
    is_stack_pointer
first-spills = (refl, refl, refl)

safe_load-safe_store_example :
    (t : SafeState) × (u : SafeState) × (safe_store safe_vm regions spill_inst 8
        (first.core.reg 1)
        true
        first
      ≡ running t)
    × (safe_load safe_vm regions (load_back spill_inst 3) 8 true (mem_load 8) t ≡ running u)
    × (u.tags 3 ≡ first.tags 1)
    × (u.core.reg 3 ≡ first.core.reg 1)
safe_load-safe_store_example =
    safe_load-safe_store safe_vm regions safe_memory 6 first spill_inst 3 12280
      (initial_safe_state-Inv safe_vm regions (λ n. 0) safe_memory 6 safe_memory-AllMapped
        (omega arith) (omega arith) (λ k. omega arith))
      first-spills.0 first-spills.1 first-spills.2 refl (λ e. omega (arith, e))
