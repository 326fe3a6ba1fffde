-- ===== src/Interp/Call.antt =====
-- vm/ubpf_vm.c, `ubpf_exec_ex`: EBPF_OP_CALL and EBPF_OP_EXIT, with the stack of frames.
pub mod Return
use ubpf.Prelude.{
  ℕ, ◌+◌, ◌-◌, ◌^◌, Bool, ◌&&◌, ◌||◌, Option, none, some, ltb, leb, ◌==◌, if◌then◌else◌,
}
use ubpf.Prelude.Int.{ℤ, pos, negsuc}
use ubpf.Word.{u64}
use ubpf.Inst.{Inst}
use ubpf.Filter.{eq_ℤ}
use ubpf.Memory.{Memory}
use ubpf.Vm.{
  Vm, Helper, StackUsage, unknown, custom, default, max_call_depth, max_ext_funcs,
  local_function_stack_size,
}
use ubpf.Interp.{
  Regions, State, StackFrame, Outcome, running, returned, failed, fault, call_depth,
  unsupported_call, update, set_reg,
}
use ubpf.Interp.Jump.{jump_by}

-- `ubpf_stack_usage_for_local_func`. The assertion that the usage was calculated is left out: a
-- build with NDEBUG reads the default for an unknown one.
unfoldable pub stack_usage_for_local_func : (ℕ → StackUsage) → ℕ → ℕ
stack_usage_for_local_func table pc = elim (table pc) [
  | custom n ↦ n
  | unknown ↦ local_function_stack_size
  | default ↦ local_function_stack_size
]

-- The entry of a function, before the fetch: its frame learns how much stack it uses.
unfoldable pub entered_frame : Vm → State → StackFrame
unfolding stack_usage_for_local_func
entered_frame vm s = record (s.stack_frames s.stack_frame_index) {
  stack_usage = stack_usage_for_local_func vm.local_func_stack_usage s.pc;
}

unfoldable pub enter_function : Vm → State → State
unfolding entered_frame
enter_function vm s =
    if (s.pc == 0 || vm.int_funcs s.pc) && ltb s.stack_frame_index max_call_depth
    then record s { stack_frames = update s.stack_frames s.stack_frame_index (entered_frame vm s) }
    else s

unfoldable pub run_helper : Helper → ℕ → State → State
run_helper f cookie s =
    let result = f (s.reg 1) (s.reg 2) (s.reg 3) (s.reg 4) (s.reg 5) cookie s.memory in
    record s { reg = update s.reg 0 (u64 result.0); memory = result.1 }

-- The function that a call by number reaches: the dispatcher, or an entry of the table. An index
-- outside the table and an empty entry are faults.
unfoldable pub external_function : Vm → ℤ → Option Helper
external_function vm (negsuc n) = elim vm.dispatcher [
  | none ↦ none
  | some f ↦ some (f (2 ^ 32 - 1 - n))
]
external_function vm (pos n) = elim vm.dispatcher [
  | none ↦ (if ltb n max_ext_funcs then vm.ext_funcs n else none)
  | some f ↦ some (f n)
]

-- A zero result of the unwind function ends the program.
unfoldable pub after_helper : Vm → Inst → State → Outcome
after_helper vm i s =
    if eq_ℤ i.imm vm.unwind_stack_extension_index && s.reg 0 == 0
    then returned (s.reg 0) s
    else running s

unfoldable pub call_external : Vm → Regions → Inst → State → Outcome
unfolding after_helper run_helper
call_external vm r i s = elim (external_function vm i.imm) [
  | none ↦ fault
  | some f ↦ after_helper vm i (run_helper f r.mem s)
]

unfoldable pub saved_frame : State → StackFrame
saved_frame s = record (s.stack_frames s.stack_frame_index) {
  return_address = s.pc;
  saved_6 = s.reg 6;
  saved_7 = s.reg 7;
  saved_8 = s.reg 8;
  saved_9 = s.reg 9;
}

unfoldable pub call_local : Inst → State → Outcome
unfolding saved_frame jump_by
call_local i s =
    if leb max_call_depth s.stack_frame_index
    then failed call_depth s
    else let frame = saved_frame s in
      running (
        jump_by i.imm (record s {
          stack_frames = update s.stack_frames s.stack_frame_index frame;
          reg = update s.reg 10 (u64 (s.reg 10 + 2 ^ 64 - frame.stack_usage));
          stack_frame_index = s.stack_frame_index + 1;
        }))

unfoldable pub exec_call : Vm → Regions → Inst → State → Outcome
unfolding call_external call_local
exec_call vm r i s =
    if i.src == 0
    then call_external vm r i s
    else if i.src == 1
    then call_local i s
    else if i.src == 2
    then failed unsupported_call s
    else running s

unfoldable pub restore : StackFrame → (ℕ → ℕ) → ℕ → ℕ
restore f reg =
    update (update (update (update (update reg 6 f.saved_6) 7 f.saved_7) 8 f.saved_8) 9 f.saved_9)
      10 (u64 (reg 10 + f.stack_usage))

unfoldable pub return_to : StackFrame → State → State
unfolding restore
return_to frame s = record s {
  stack_frame_index = s.stack_frame_index - 1;
  pc = frame.return_address;
  reg = restore frame s.reg;
}

unfoldable pub exec_exit : State → Outcome
unfolding return_to
exec_exit s =
    if ltb 0 s.stack_frame_index
    then running (return_to (s.stack_frames (s.stack_frame_index - 1)) s)
    else returned (s.reg 0) s
