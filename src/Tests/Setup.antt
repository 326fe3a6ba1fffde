-- ===== src/Tests/Setup.antt =====
-- A program with a local call, a host without functions, and two mapped regions.
use ubpf.Prelude.{
  ℕ, zero, suc, ◌^◌, ◌<◌, ◌≡◌, refl, arith, Bool, true, ◌&&◌, ◌||◌, if◌then◌else◌, leb, ltb, none,
  some, inr, List, [], ◌∷◌,
}
use ubpf.Prelude.Int.{ℤ, pos, negsuc, pos_part, neg_part}
use ubpf.Inst.{Inst, Opcode, neg, atomic}
use ubpf.Memory.{Memory}
use ubpf.Vm.{Vm, Helper}
use ubpf.Vm.Program.RoundTrip.{IsInst}
use ubpf.Interp.{Regions}
use ubpf.Interp.Call.{external_function}
use ubpf.Inst.{decode}
use ubpf.Validate.Program.{validate}
use ubpf.Validate.Usage.{calculate_stack_usage_for_local_func}
use ubpf.Validate.Instruction.{check_instruction}
use ubpf.Validate.Subprograms.{check_for_self_contained_sub_programs}
use ubpf.Validate.{accepted}
use ubpf.Interp.Step.{limited}
use ubpf.Api.{create}
use ubpf.Api.Load.{Host, loaded, load}
use ubpf.Api.Load.Fetches.{AllInst}
use ubpf.Safety.{Defined, DefinedFor, ShadowFits}
use ubpf.Safety.Control.{KeepsMemory}
use ubpf.Safety.Run.{Mapped}

abbrev pub instruction : ℕ → ℕ → ℕ → ℤ → ℤ → Inst
instruction opcode dst src offset imm = record {
  opcode = opcode;
  dst = dst;
  src = src;
  offset = offset;
  imm = imm;
}

-- *(u64 *)(r10 - 8) = r1; r6 = 7; call +1; exit; r0 = 5; exit
abbrev pub program : List Inst
program =
    instruction 0x7b 10 1 (negsuc 7) (pos 0)
    ∷ instruction 0xb7 6 0 (pos 0) (pos 7)
    ∷ instruction 0x85 0 1 (pos 0) (pos 1)
    ∷ instruction 0x95 0 0 (pos 0) (pos 0)
    ∷ instruction 0xb7 0 0 (pos 0) (pos 5)
    ∷ instruction 0x95 0 0 (pos 0) (pos 0)
    ∷ []

abbrev pub host : Host
host = record { page_size = 4096; array = some 65536; flags_allocated = true; protected = true }

abbrev pub limited_vm : Vm
limited_vm = record create { instruction_limit = pos 20; pointer_secret = 77 }

pub limited_vm-no_functions :
    (r : Regions) (imm : ℤ) (f : Helper)
    → external_function limited_vm imm ≡ some f
    → KeepsMemory r f
unfolding external_function create
limited_vm-no_functions r (pos n) f h = absurd (ground arith)
limited_vm-no_functions r (negsuc n) f h = absurd (ground arith)

abbrev pub regions : Regions
regions = record {
  mem = 4096;
  mem_len = 16;
  stack_start = 8192;
  stack_length = 4096;
  target = record { unaligned_atomics = true; wrapping_negation = true };
}

-- This target defines all that a program can use.
pub target-Defined : (prog : List Inst) → Defined regions.target prog
target-Defined prog i x op at_i e = opcode-Defined op
  where
    opcode-Defined : (op : Opcode) → DefinedFor regions.target op
    opcode-Defined (neg w) = refl
    opcode-Defined (atomic w) = refl
    opcode-Defined _ = tt

pub limited_vm-ShadowFits : ShadowFits limited_vm regions
limited_vm-ShadowFits = inr refl

abbrev pub in_regions : ℕ → Bool
in_regions a = (leb 4096 a && ltb a 4112) || (leb 8192 a && ltb a 12288)

abbrev pub memory : Memory
memory a = if in_regions a then some 0 else none

pub memory-Mapped : Mapped regions memory
memory-Mapped a h = (0, ground arith, omega arith)

abbrev pub fits : Inst → Bool
fits x =
    ltb x.opcode 256
    && ltb x.dst 16
    && ltb x.src 16
    && (ltb (pos_part x.offset) (2 ^ 15) && leb (neg_part x.offset) (2 ^ 15))
    && (ltb (pos_part x.imm) (2 ^ 31) && leb (neg_part x.imm) (2 ^ 31))

pub fits-IsInst : (x : Inst) → fits x ≡ true → IsInst x
fits-IsInst x h = record {
  opcode_fits = ground arith;
  dst_fits = ground arith;
  src_fits = ground arith;
  offset_fits = (ground arith, ground arith);
  imm_fits = (ground arith, ground arith);
}

abbrev all_fit : List Inst → Bool
all_fit [] = true
all_fit (x ∷ xs) = fits x && all_fit xs

all_fit-AllInst : (xs : List Inst) → all_fit xs ≡ true → AllInst xs
all_fit-AllInst [] h k x at_k = absurd (ground arith)
all_fit-AllInst (y ∷ ys) h zero x at_k = fits-IsInst x (ground arith)
all_fit-AllInst (y ∷ ys) h (suc k) x at_k = all_fit-AllInst ys (ground arith) k x at_k

pub program-AllInst : AllInst program
program-AllInst = all_fit-AllInst program refl

pub host-addresses : (base : ℕ) → host.array ≡ some base → base < 2 ^ 64
host-addresses base h = ground arith

abbrev pub loaded_vm : Vm
unfolding load
loaded_vm = (load limited_vm host program 48).0

pub program-loaded : load limited_vm host program 48 ≡ (loaded_vm, loaded)
unfolding load create validate calculate_stack_usage_for_local_func check_instruction decode
    check_for_self_contained_sub_programs
program-loaded = refl

pub loaded_vm-limit : (limited loaded_vm ≡ true) × (loaded_vm.instruction_limit ≡ pos 20)
unfolding load create validate calculate_stack_usage_for_local_func check_instruction decode
    check_for_self_contained_sub_programs
loaded_vm-limit = (refl, refl)

pub program-accepted : (validate limited_vm program).1 ≡ accepted
unfolding load create validate calculate_stack_usage_for_local_func check_instruction decode
    check_for_self_contained_sub_programs
program-accepted = refl

pub limited_vm-settings :
    (limited_vm.bounds_check_enabled ≡ true) × (limited_vm.bounds_check_function ≡ none)
unfolding create
limited_vm-settings = (refl, refl)
