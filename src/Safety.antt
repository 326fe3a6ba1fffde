-- ===== src/Safety.antt =====
-- What holds of every run of a validated program (vm/ubpf_vm.c, `ubpf_exec_ex`): the invariant of
-- the loop, and what a step may end in.
pub mod Invariant
pub mod Access
pub mod Effects
pub mod Transfer
pub mod Control
pub mod Flow
pub mod Checks
pub mod Program
pub mod Step
pub mod Run
pub mod Loading
use ubpf.Prelude.{
  ℕ, ◌+◌, ◌%◌, ◌^◌, ◌≤◌, ◌<◌, ◌≡◌, ◌⊎◌, true, false, List, length, get_elem?, some, Option,
}
use ubpf.Inst.{Inst, Opcode, neg, atomic, decode}
use ubpf.Memory.{Memory}
use ubpf.Vm.{Vm}
use ubpf.Vm.Program.{fetch_instruction}
use ubpf.Interp.{Target, Regions, State, StackFrame, Outcome, Error, running, returned, failed}

-- The outcome is no fault, and its state has the property.
pub data Ends (P : State → Type 0) : Outcome → Type 0 where
  goes_on : {s : State} → P s → Ends P (running s)
  stops : {v : ℕ} {s : State} → P s → Ends P (returned v s)
  fails : {e : Error} {s : State} → P s → Ends P (failed e s)

-- An address of the memory or of the stack that the caller passes.
abbrev pub InRegion : Regions → ℕ → Type 0
InRegion r a =
    ((0 < r.mem) × (r.mem ≤ a) × (a < r.mem + r.mem_len))
    ⊎ ((r.stack_start ≤ a) × (a < r.stack_start + r.stack_length))

abbrev pub IsByte : Option ℕ → Type 0
IsByte o = (b : ℕ) × (o ≡ some b) × (b < 256)

-- The memory of a state, against the memory `start` of the beginning: the known addresses are
-- mapped, and what cannot be written is as it was.
pub record Kept (Known Writable : ℕ → Type 0) (start m : Memory) : Type 0 where
  pub mapped : (a : ℕ) → Known a → IsByte (m a)
  pub unchanged : (a : ℕ) → ¬ (Writable a) → m a ≡ start a

-- The caller's regions are mapped, and everything else is as it was.
abbrev pub MemoryKept : Regions → Memory → Memory → Type 0
MemoryKept r = Kept (InRegion r) (InRegion r)

-- A frame returns into the program, and holds words.
abbrev pub FrameIn : ℕ → StackFrame → Type 0
FrameIn n f =
    (f.return_address ≤ n)
    × (f.saved_6 < 2 ^ 64)
    × (f.saved_7 < 2 ^ 64)
    × (f.saved_8 < 2 ^ 64)
    × (f.saved_9 < 2 ^ 64)

-- The invariant of the loop, for a program of `n` instructions and a condition on the memory.
pub record Inv (Keep : Memory → Type 0) (n : ℕ) (s : State) : Type 0 where
  pub pc_in : s.pc ≤ n
  pub depth : s.stack_frame_index ≤ 8
  pub frames : (k : ℕ) → FrameIn n (s.stack_frames k)
  pub words : (k : ℕ) → s.reg k < 2 ^ 64
  pub kept : Keep s.memory

-- What the target has to define for an instruction: atomic operations at any address, and negation
-- that wraps.
abbrev pub DefinedFor : Target → Opcode → Type 0
DefinedFor t (neg w) = t.wrapping_negation ≡ true
DefinedFor t (atomic w) = t.unaligned_atomics ≡ true
DefinedFor t _ = Unit

-- The target defines what the program uses. A program without NEG and without atomic operations asks
-- for nothing.
abbrev pub Defined : Target → List Inst → Type 0
Defined t prog =
    (i : ℕ) (x : Inst) (op : Opcode)
    → get_elem? prog i ≡ some x
    → decode x.opcode ≡ some op
    → DefinedFor t op

-- The shadow stack, if there is one, has a bit for each byte of the stack.
abbrev pub ShadowFits : Vm → Regions → Type 0
ShadowFits vm r = (vm.undefined_behavior_check_enabled ≡ false) ⊎ (r.stack_length % 8 ≡ 0)

-- The virtual machine holds the program.
pub record Loaded (vm : Vm) (prog : List Inst) : Type 0 where
  pub fetches : (pc : ℕ) → fetch_instruction vm pc ≡ get_elem? prog pc
  pub count : vm.num_insts ≡ length prog
  pub small : length prog < 65536
