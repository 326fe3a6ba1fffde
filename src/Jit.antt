-- ===== src/Jit.antt =====
-- vm/ubpf_jit.c, vm/ubpf_jit_support.c and the emitter of vm/ubpf_jit_x86_64.c: the life of the
-- compiled code in a virtual machine, and the bytes of the instructions.
pub mod Compile
pub mod Cached
pub mod State
pub mod Emit
pub mod Decode
pub mod Appends
pub mod Encoding
pub mod Loads
pub mod Stores
pub mod Accesses
pub mod Blinded
pub mod Atomic
pub mod Resolve
pub mod Patched
