-- ===== src/Tests/Machines.antt =====
-- The theorems on the machine's own operations at concrete inputs.
use ubpf.Prelude.{ℕ, ◌+◌, ◌^◌, ◌≤◌, ◌<◌, ◌≡◌, refl, arith, true, false, none, some, [], ◌∷◌}
use ubpf.Prelude.Int.{pos}
use ubpf.Inst.{Inst}
use ubpf.Vm.{Vm}
use ubpf.Vm.Program.{fetch_word, store_instruction}
use ubpf.Vm.Program.RoundTrip.{fetch_word-store_instruction}
use ubpf.Interp.{State, running}
use ubpf.Interp.Call.{call_local, exec_exit}
use ubpf.Interp.Call.Return.{Returns, Restored, call_local-exec_exit}
use ubpf.Api.{create, register, lookup_registered_function, has_name, set_pointer_secret}
use ubpf.Api.Load.{store_from, load}
use ubpf.Api.Load.Fetches.{store_from-fetches}
use ubpf.Api.Laws.{lookup_registered_function-register}
use ubpf.Api.Lifecycle.{created, called, secret_set, program_loaded, Sound}
use ubpf.Api.Lifecycle.Invariant.{Reachable-Sound}
use ubpf.Tests.Setup.{
  instruction, fits-IsInst, program, program-AllInst, host, host-addresses, memory,
}

abbrev call_inst : Inst
call_inst = instruction 0x85 0 1 (pos 0) (pos 1)

abbrev scrambled_vm : Vm
scrambled_vm = record create { insts_base = 65536; pointer_secret = 77 }

scrambled_vm-fits : (scrambled_vm.insts_base < 2 ^ 64) × (scrambled_vm.pointer_secret < 2 ^ 64)
scrambled_vm-fits = (omega arith, omega arith)

fetch_word-store_instruction_example :
    fetch_word scrambled_vm (store_instruction scrambled_vm (0 ∷ 0 ∷ []) 1 call_inst) 1
    ≡ some call_inst
fetch_word-store_instruction_example =
    fetch_word-store_instruction scrambled_vm (0 ∷ 0 ∷ []) 1 call_inst (fits-IsInst call_inst refl)
      (omega arith) (omega arith) (omega arith)

store_from-fetches_example :
    fetch_word scrambled_vm (store_from scrambled_vm 0 program (0 ∷ 0 ∷ 0 ∷ 0 ∷ 0 ∷ 0 ∷ [])) 2
    ≡ some call_inst
store_from-fetches_example =
    store_from-fetches scrambled_vm (omega arith) (omega arith) program (0 ∷ 0 ∷ 0 ∷ 0 ∷ 0 ∷ 0 ∷ [])
      program-AllInst refl 2

abbrev first : State
first = record {
  pc = 3;
  reg = λ k. k + 8192;
  stack_frame_index = 0;
  stack_frames = λ k. record {
    stack_usage = 256;
    return_address = 0;
    saved_6 = 0;
    saved_7 = 0;
    saved_8 = 0;
    saved_9 = 0;
  };
  shadow_registers = λ k. true;
  shadow_stack = λ k. true;
  budget = pos 0;
  memory = memory;
}

call_local-exec_exit_example :
    (t : State) × (call_local call_inst first ≡ running t)
    × ((u : State) → Returns t u → (w : State) × (exec_exit u ≡ running w) × Restored first u w)
call_local-exec_exit_example =
    call_local-exec_exit call_inst first (omega arith) (omega arith) (omega arith)

lookup_registered_function-register_example :
    let vm' = (register create true 3 42 none).0 in
    (k : ℕ) × (lookup_registered_function vm' 42 ≡ some k)
    × (has_name vm' 42 k ≡ true)
    × (k ≤ 3)
    × ((n : ℕ) → 0 ≤ n → n < k → has_name vm' 42 n ≡ false)
lookup_registered_function-register_example =
    lookup_registered_function-register create true 3 42 none (omega arith)

-- A secret, then a program.
abbrev second_vm : Vm
second_vm = (load (set_pointer_secret create 77).0 host program 48).0

Reachable-Sound_example : Sound second_vm
Reachable-Sound_example = Reachable-Sound (
    called (called created (secret_set 77 (omega arith))) (
      program_loaded host program 48
        (record { fields = program-AllInst; bytes = refl; addresses = host-addresses })))
