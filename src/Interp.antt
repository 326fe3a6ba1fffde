-- ===== src/Interp.antt =====
-- vm/ubpf_vm.c, `ubpf_exec_ex`: the state of the interpreter, and what one step can come to.
pub mod Bounds
pub mod Shadow
pub mod Jump
pub mod Call
pub mod Access
pub mod Step
pub mod Run
pub mod Limit
use ubpf.Prelude.{ℕ, Bool, ◌==◌, if◌then◌else◌}
use ubpf.Prelude.Int.{ℤ}
use ubpf.Memory.{Memory}

-- What the C language leaves undefined and the interpreter relies on, as the compiler and the
-- processor of the host define it: an atomic operation at an address that its width does not divide,
-- and the negation of INT64_MIN.
pub record Target : Type 0 where
  pub unaligned_atomics : Bool
  pub wrapping_negation : Bool

-- The arguments of `ubpf_exec_ex`: two regions of the host's address space, and the host that it
-- runs on. The null pointer is 0.
pub record Regions : Type 0 where
  pub mem : ℕ
  pub mem_len : ℕ
  pub stack_start : ℕ
  pub stack_length : ℕ
  pub target : Target

-- `struct ubpf_stack_frame`, with r6 to r9 in `saved_registers`.
pub record StackFrame : Type 0 where
  pub stack_usage : ℕ
  pub return_address : ℕ
  pub saved_6 : ℕ
  pub saved_7 : ℕ
  pub saved_8 : ℕ
  pub saved_9 : ℕ

-- The locals of the loop. The bit masks of initialised registers and stack bytes are predicates
-- on the bit's number; `budget` is the local `instruction_limit`.
pub record State : Type 0 where
  pub pc : ℕ
  pub reg : ℕ → ℕ
  pub stack_frame_index : ℕ
  pub stack_frames : ℕ → StackFrame
  pub shadow_registers : ℕ → Bool
  pub shadow_stack : ℕ → Bool
  pub budget : ℤ
  pub memory : Memory

-- Why the interpreter returns -1.
pub data Error : Type 0 where
  pc_out_of_range limit_exceeded uninitialized_register address_overflow address_underflow : Error
  out_of_bounds call_depth unsupported_call unknown_atomic unknown_opcode : Error

-- `fault` is undefined behaviour of the host: an access to an address that is not mapped, a fetch
-- past the instruction array, a call through a null pointer, an access past the allocated shadow
-- stack, and what the target does not define.
pub data Outcome : Type 0 where
  running : State → Outcome
  returned : ℕ → State → Outcome
  failed : Error → State → Outcome
  fault : Outcome

-- `array[i] = v` on the register file and the other arrays that are indexed by small numbers.
abbrev pub update {ℓ} : {A : Type ℓ} → (ℕ → A) → ℕ → A → ℕ → A
update f i v j = if j == i then v else f j

infixl 5 ◌>>=◌
abbrev pub ◌>>=◌ : Outcome → (State → Outcome) → Outcome
running s >>= f = f s
returned v s >>= f = returned v s
failed e s >>= f = failed e s
fault >>= f = fault

-- `reg[i] = v`.
abbrev pub set_reg : State → ℕ → ℕ → State
set_reg s i v = record s { reg = update s.reg i v }
