-- ===== src/Lib.antt =====
-- uBPF: a virtual machine for eBPF programs in user space. A host creates a machine, registers
-- functions, loads a program, which is validated and stored, and runs it on a memory of its own.
-- This library models the C code of vm/ that does so, and parts of its compiler, and proves what
-- makes it correct: a program that is loaded runs within its memory and comes to an end.
--
-- The parts, and the files that model them:
--   * Word (Word/Bits, Word/Casts): the casts, shifts, division and byte order that vm/ubpf_vm.c
--     uses. A uint64_t is a native number below 2^64, every wrap-around is written out.
--   * Inst (Inst/Decode): struct ebpf_inst and the opcodes of vm/ebpf.h. `decode` is the switch on
--     the opcode, `code` the byte of each one.
--   * Filter (Filter/Defs, Alu32, Alu64, Memory, Jump64, Jump32, Coverage): the table of
--     vm/ubpf_instruction_valid.c, entry by entry, and ubpf_is_valid_instruction.
--   * Alu (Alu/Range, Division, Swap): the arithmetic cases of ubpf_exec_ex (vm/ubpf_vm.c).
--   * Memory (Memory/Frame): ubpf_mem_load, ubpf_mem_load_sx and ubpf_mem_store on an address space
--     that maps an address to a byte or to nothing.
--   * Vm (Vm/Program, Vm/Program/RoundTrip): struct ubpf_vm (vm/ubpf_int.h), and the storage of
--     instructions under an exclusive or with their address and a secret.
--   * Interp: ubpf_exec_ex. Bounds is bounds_check and COMPUTE_EFFECTIVE_ADDR, Shadow the
--     undefined-behaviour check, Access the loads, stores and atomics, Jump and Call the transfers of
--     control, Step one round of the loop, Run the loop and ubpf_exec, Limit its termination.
--   * Validate (Validate/Usage, Instruction, Subprograms, Program): validate with all its checks.
--   * Api (Api/Load, Laws, Profile, Lifecycle): ubpf_create, the toggles and registrations, ubpf_load
--     and ubpf_unload_code; Profile is the calls for the safe profile (vm/ubpf_safe.c), Lifecycle what
--     any sequence of calls can lead to.
--   * Safety: the invariant of the interpreter's loop, what the validator provides for it
--     (Safety/Checks, Program), what the instructions do to it (Access, Effects, Transfer, Control,
--     Flow, Step), and the statements on whole runs (Run, Loading).
--   * Safe: the safe execution profile of vm/ubpf_safe.c. Access is ubpf_safe_compute_access and the
--     lookup of regions, Spill the slots of the stack that hold a tag, Alu ubpf_safe_apply_alu,
--     Transfer the macros SAFE_LOAD and SAFE_STORE and the atomics, Call the calls and returns, Step
--     one round of the loop of ubpf_exec_ex_safe, Run the loop and the choice of a profile, Limit its
--     termination; Guard is the invariant of the loop and the statements on whole runs, Mirror the
--     comparison with the legacy profile.
--   * Loader: the ELF loader, vm/ubpf_loader.c. Header is the checks of the header, the sections and
--     the two tables, Symbols the table of the functions, Link their copy into one program, Relocate
--     the relocations, Run ubpf_load_elf_ex and ubpf_load_elf; Copy, Words, Linking, Calls and Running
--     are the proofs. An image is a list of bytes, a name the number that its bytes are the digits of.
--   * Jit: Compile is vm/ubpf_jit.c around a back end; State is struct jit_state with its tables
--     (vm/ubpf_jit_support.h and .c) and the functions that write into the buffer, Emit, Blinded and
--     Atomic the emitters of vm/ubpf_jit_x86_64.c, Resolve resolve_patchable_relatives. Decode is how
--     a processor reads loads and stores, which Appends, Encoding, Loads, Stores and Accesses compare
--     them with; Cached is about Compile, and Patched about Resolve.
--   * Prelude: lists and integers over the native numbers, tests and automation. Tests: concrete
--     inputs.
--
-- State. A step takes the machine, which a run does not change, the two regions of the caller and
-- the state: pc, registers, stack frames, the two masks of the undefined-behaviour check, the rounds
-- left and the memory. It ends in a state to go on from, in the value that the program returns, in
-- an error (-1), or in a fault: undefined behaviour of the C code, as an access to an address that
-- is not mapped, a fetch past the program, a call through a null pointer, or a write past the shadow
-- stack, of which stack_length / 8 bytes are allocated. An atomic operation at an address that its
-- width does not divide and the negation of INT64_MIN are faults, unless the target, an argument
-- beside the two regions, is one that defines them (`Target` in Interp).
--
-- Bounds and fuel. The loop takes fuel. With an instruction limit of n, n + 1 rounds are enough; a
-- program without a limit may run for ever, and nothing is said of its end. Programs have fewer than
-- 65536 instructions, calls nest 8 deep, the stack has 4096 bytes, as vm/inc/ubpf.h sets them.
--
-- Parameters. The functions of the host, the dispatcher, the stack usage calculator and the caller's
-- bounds check are arguments, as are the addresses that the allocator returns and the result of
-- mmap, calloc and mprotect in ubpf_load. The registers that C leaves uninitialised are an argument
-- of the run. In the loader the success of each allocation and the host's resolution of data are
-- arguments, in a registration whether compiled code could be patched, in the compiler the back end, the random constants of the blinding and the success of
-- calloc, mmap and mprotect. The host is little-endian with addresses of 64 bits.
--
-- Not modelled: the translation of a whole program to machine code (translate in
-- vm/ubpf_jit_x86_64.c, vm/ubpf_jit_arm64.c), which needs a semantics of that code, what the
-- update of compiled code by later registrations writes there, the release of memory, a failed calloc
-- of the shadow stack, the debug and message callbacks,
-- threads, and the texts of messages.
pub mod Prelude
pub mod Word
pub mod Inst
pub mod Filter
pub mod Alu
pub mod Memory
pub mod Vm
pub mod Interp
pub mod Validate
pub mod Api
pub mod Loader
pub mod Jit
pub mod Safety
pub mod Safe
pub mod Tests
