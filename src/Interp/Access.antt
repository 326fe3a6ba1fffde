-- ===== src/Interp/Access.antt =====
-- vm/ubpf_vm.c, `ubpf_exec_ex`: loads, stores and atomic operations, with BOUNDS_CHECK_LOAD and
-- BOUNDS_CHECK_STORE. The atomic macros of vm/ubpf_int.h return the old value; a failed
-- compare-and-exchange writes the old value back, which leaves every byte as it was.
use Prim.Native.Nat.{bit_and, bit_or, bit_xor}
use mathlib.Core.Bool.{not}
use ubpf.Prelude.{ℕ, ◌+◌, ◌%◌, ◌^◌, Bool, false, ◌||◌, Option, none, some, ◌==◌, if◌then◌else◌}
use ubpf.Prelude.Int.{ℤ, pos}
use ubpf.Word.{to_u32}
use ubpf.Inst.{Inst, Width, w32, w64}
use ubpf.Filter.{eq_ℤ}
use ubpf.Memory.{Memory, mem_load, mem_store}
use ubpf.Vm.{Vm}
use ubpf.Interp.{
  Regions, State, Outcome, running, failed, fault, out_of_bounds, unknown_atomic, update, set_reg,
}
use ubpf.Interp.Bounds.{bounds_check, address, wrong, effective_address}
use ubpf.Interp.Shadow.{check_shadow_stack, mark_shadow_stack, reads_past, marks_past, operation}

-- The shadow part of BOUNDS_CHECK_LOAD: a read of stack bytes that were never written leaves the
-- destination without a value.
unfoldable pub shadow_load : Vm → Regions → ℕ → ℕ → ℕ → State → State
shadow_load vm r dst size a s =
    if check_shadow_stack vm r s.shadow_stack a size
    then s
    else record s { shadow_registers = update s.shadow_registers dst false }

unfoldable pub put : ℕ → State → Option ℕ → Outcome
put dst s none = fault
put dst s (some v) = running (set_reg s dst v)

-- EBPF_OP_LDX… with `read` the load of the case.
unfoldable pub load_at : Vm → Regions → Inst → ℕ → (Memory → ℕ → Option ℕ) → State → ℕ → Outcome
unfolding put
load_at vm r i size read s a =
    let t = shadow_load vm r i.dst size a s in
    if reads_past vm r s.shadow_stack a size
    then fault
    else if not (bounds_check vm r a size)
    then failed out_of_bounds t
    else put i.dst t (read t.memory a)

unfoldable pub exec_load : Vm → Regions → Inst → ℕ → (Memory → ℕ → Option ℕ) → State → Outcome
unfolding load_at
exec_load vm r i size read s = elim (effective_address (s.reg i.src) i.offset) [
  | wrong e ↦ failed e s
  | address a ↦ load_at vm r i size read s a
]

unfoldable pub shadow_store : Vm → Regions → ℕ → ℕ → State → State
shadow_store vm r size a s = record s {
  shadow_stack = mark_shadow_stack vm r s.shadow_stack a size;
}

-- BOUNDS_CHECK_STORE, and what the case does with the address.
unfoldable pub checked_store : Vm → Regions → Inst → ℕ → (ℕ → State → Outcome) → State → Outcome
checked_store vm r i size act s = elim (effective_address (s.reg i.dst) i.offset) [
  | wrong e ↦ failed e s
  | address a ↦
      if not (bounds_check vm r a size)
      then failed out_of_bounds s
      else if marks_past vm r a size
      then fault
      else act a (shadow_store vm r size a s)
]

unfoldable pub leave : State → Option Memory → Outcome
leave s none = fault
leave s (some m) = running (record s { memory = m })

unfoldable pub store_value : ℕ → ℕ → ℕ → State → Outcome
unfolding leave
store_value size v a s = leave s (mem_store size s.memory a v)

-- EBPF_OP_ST… and EBPF_OP_STX….
unfoldable pub exec_store : Vm → Regions → Inst → ℕ → ℕ → State → Outcome
unfolding checked_store store_value
exec_store vm r i size v s = checked_store vm r i size (store_value size v) s

-- The new value of an atomic operation, `none` for an unknown one.
unfoldable pub atomic_value : ℕ → ℕ → ℕ → ℕ → ℕ → Option ℕ
atomic_value modulus op expected old v =
    if op == 0x00
    then some ((old + v) % modulus)
    else if op == 0x40
    then some (bit_or old v)
    else if op == 0x50
    then some (bit_and old v)
    else if op == 0xa0
    then some (bit_xor old v)
    else if op == 0xe0
    then some v
    else if op == 0xf0
    then some (if old == expected then v else old)
    else none

-- The register that a fetching operation sets: r0 for a compare-and-exchange.
abbrev pub fetch_index : Inst → ℕ
fetch_index i = if operation (to_u32 i.imm) == 0xf0 then 0 else i.src

unfoldable pub fetches : Width → ℤ → Bool
fetches w64 imm = to_u32 imm % 2 == 1
fetches w32 imm = to_u32 imm % 2 == 1 || eq_ℤ imm (pos 0xf1) || eq_ℤ imm (pos 0xe1)

abbrev pub width_bytes : Width → ℕ
width_bytes w32 = 4
width_bytes w64 = 8

abbrev word_modulus : Width → ℕ
word_modulus w32 = 2 ^ 32
word_modulus w64 = 2 ^ 64

abbrev cut : Width → ℕ → ℕ
cut w x = x % word_modulus w

unfoldable pub fetched : Width → Inst → ℕ → Outcome → Outcome
fetched w i old (running s) = running (if fetches w i.imm then set_reg s (fetch_index i) old else s)
fetched w i old out = out

unfoldable pub atomic_with : Width → Inst → ℕ → State → ℕ → Option ℕ → Outcome
unfolding leave fetched
atomic_with w i a s old none = failed unknown_atomic s
atomic_with w i a s old (some new) =
    fetched w i old (leave s (mem_store (width_bytes w) s.memory a new))

-- The read and the write of one operation, which is atomic, so nothing comes between them.
unfoldable pub atomic_at : Width → Inst → ℕ → State → Outcome
unfolding atomic_with atomic_value
atomic_at w i a s = elim (mem_load (width_bytes w) s.memory a) [
  | none ↦ fault
  | some old ↦ atomic_with w i a s old (
      atomic_value (word_modulus w) (operation (to_u32 i.imm)) (cut w (s.reg 0)) old
        (cut w (s.reg i.src)))
]

-- The access through `volatile uint64_t *` or `volatile uint32_t *`, which asks for an aligned address
-- or for a target that does without.
unfoldable pub atomic_access : Regions → Width → Inst → ℕ → State → Outcome
unfolding atomic_at
atomic_access r w i a s =
    if a % width_bytes w == 0 || r.target.unaligned_atomics then atomic_at w i a s else fault

-- EBPF_OP_ATOMIC_STORE and EBPF_OP_ATOMIC32_STORE.
unfoldable pub exec_atomic : Vm → Regions → Inst → Width → State → Outcome
unfolding checked_store atomic_access
exec_atomic vm r i w s = checked_store vm r i (width_bytes w) (atomic_access r w i) s
