-- ===== src/Interp/Call/Return.antt =====
-- vm/ubpf_vm.c, `ubpf_exec_ex`: a local call (EBPF_OP_CALL with src 1) and the EXIT that ends it.
use ubpf.Prelude.{ℕ, ◌+◌, ◌-◌, ◌^◌, ◌<◌, ◌≡◌, refl, arith, ap, ◌∙◌}
use ubpf.Word.{u64}
use ubpf.Inst.{Inst}
use ubpf.Vm.{max_call_depth}
use ubpf.Interp.{State, running, update}
use ubpf.Interp.Jump.{jump_by}
use ubpf.Interp.Call.{call_local, saved_frame, exec_exit, return_to, restore}

-- What a function may not change while it runs: its own depth, the frame below it and r10.
pub record Returns (t u : State) : Type 0 where
  pub same_depth : u.stack_frame_index ≡ t.stack_frame_index
  pub same_frame :
      u.stack_frames (t.stack_frame_index - 1) ≡ t.stack_frames (t.stack_frame_index - 1)
  pub same_top : u.reg 10 ≡ t.reg 10

-- The caller finds its registers and its place again.
pub record Restored (s u w : State) : Type 0 where
  pub pc_back : w.pc ≡ s.pc
  pub depth_back : w.stack_frame_index ≡ s.stack_frame_index
  pub r6_back : w.reg 6 ≡ s.reg 6
  pub r7_back : w.reg 7 ≡ s.reg 7
  pub r8_back : w.reg 8 ≡ s.reg 8
  pub r9_back : w.reg 9 ≡ s.reg 9
  pub r10_back : w.reg 10 ≡ s.reg 10
  pub result_kept : w.reg 0 ≡ u.reg 0

-- The state in which a called function starts.
abbrev entered : Inst → State → State
entered i s = jump_by i.imm (record s {
  stack_frames = update s.stack_frames s.stack_frame_index (saved_frame s);
  reg = update s.reg 10 (u64 (s.reg 10 + 2 ^ 64 - (saved_frame s).stack_usage));
  stack_frame_index = s.stack_frame_index + 1;
})

call_local-entered :
    (i : Inst) (s : State)
    → s.stack_frame_index < max_call_depth
    → call_local i s ≡ running (entered i s)
unfolding call_local
call_local-entered i s h = ground arith

exec_exit-returns :
    (u : State)
    → 0 < u.stack_frame_index
    → exec_exit u ≡ running (return_to (u.stack_frames (u.stack_frame_index - 1)) u)
unfolding exec_exit
exec_exit-returns u h = ground arith

update_self {ℓ} : {A : Type ℓ} (f : ℕ → A) (i : ℕ) (v : A) → update f i v i ≡ v
update_self f i v = ground arith

pointer_back :
    (top usage : ℕ) → top < 2 ^ 64 → usage < 2 ^ 64 → u64 (u64 (top + 2 ^ 64 - usage) + usage) ≡ top
pointer_back top usage h k = omega arith

return_to-Restored :
    (s u : State) (usage : ℕ)
    → u.stack_frame_index ≡ s.stack_frame_index + 1
    → u.reg 10 ≡ u64 (s.reg 10 + 2 ^ 64 - (saved_frame s).stack_usage)
    → s.reg 10 < 2 ^ 64
    → (saved_frame s).stack_usage < 2 ^ 64
    → Restored s u (return_to (saved_frame s) u)
unfolding return_to restore saved_frame
return_to-Restored s u usage d top h k = record {
  pc_back = refl;
  depth_back = omega arith;
  r6_back = refl;
  r7_back = refl;
  r8_back = refl;
  r9_back = refl;
  r10_back = ap (λ x. u64 (x + (saved_frame s).stack_usage)) top ∙ pointer_back _ _ h k;
  result_kept = refl;
}

-- A local call below the depth limit enters a function; the EXIT of that function, in any state
-- that has kept its depth, the frame and r10, gives the caller its place, depth, r6 to r9 and r10
-- back, with the result in r0.
pub call_local-exec_exit :
    (i : Inst) (s : State)
    → s.stack_frame_index < max_call_depth
    → s.reg 10 < 2 ^ 64
    → (s.stack_frames s.stack_frame_index).stack_usage < 2 ^ 64
    → (t : State) × (call_local i s ≡ running t)
      × ((u : State) → Returns t u → (w : State) × (exec_exit u ≡ running w) × Restored s u w)
unfolding jump_by saved_frame
call_local-exec_exit i s h top usage = (
  entered i s,
  call_local-entered i s h,
  λ u returns.
      let frame_back : u.stack_frames (u.stack_frame_index - 1) ≡ saved_frame s =
        ap (λ d. u.stack_frames (d - 1)) returns.same_depth
        ∙ returns.same_frame
        ∙ ap (update s.stack_frames s.stack_frame_index (saved_frame s)) (omega arith)
        ∙ update_self s.stack_frames s.stack_frame_index (saved_frame s) in
      (
        return_to (saved_frame s) u,
        exec_exit-returns u (omega (arith, returns.same_depth))
            ∙ ap (λ f. running (return_to f u)) frame_back,
        return_to-Restored s u 0 (returns.same_depth) returns.same_top top usage,
      ),
)
