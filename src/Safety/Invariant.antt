-- ===== src/Safety/Invariant.antt =====
-- Changes of one field keep the invariant.
use ubpf.Prelude.{ℕ, ◌^◌, ◌≤◌, ◌<◌, Bool, ◌==◌, if_both}
use ubpf.Prelude.Int.{ℤ}
use ubpf.Memory.{Memory}
use ubpf.Interp.{State, StackFrame, Outcome, update, set_reg, ◌>>=◌}
use ubpf.Safety.{Ends, goes_on, stops, fails, FrameIn, Inv}

-- A property of all values of an array survives a write of a value that has it.
pub update_all {ℓ} :
    {A : Type ℓ} (P : A → Type 0) (f : ℕ → A) (i : ℕ) (v : A)
    → ((k : ℕ) → P (f k))
    → P v
    → (k : ℕ) → P (update f i v k)
update_all P f i v h hv k = if_both P (k == i) hv (h k)

module _ {Keep : Memory → Type 0} {n : ℕ} {s : State} (inv : Inv Keep n s) where
  pub Inv-set_reg : (d v : ℕ) → v < 2 ^ 64 → Inv Keep n (set_reg s d v)
  Inv-set_reg d v h = record {
    pc_in = inv.pc_in;
    depth = inv.depth;
    frames = inv.frames;
    words = update_all (λ x. x < 2 ^ 64) s.reg d v inv.words h;
    kept = inv.kept;
  }

  pub Inv-set_pc : (pc : ℕ) → pc ≤ n → Inv Keep n (record s { pc = pc })
  Inv-set_pc pc h = record {
    pc_in = h;
    depth = inv.depth;
    frames = inv.frames;
    words = inv.words;
    kept = inv.kept;
  }

  pub Inv-set_memory : (m : Memory) → Keep m → Inv Keep n (record s { memory = m })
  Inv-set_memory m h = record {
    pc_in = inv.pc_in;
    depth = inv.depth;
    frames = inv.frames;
    words = inv.words;
    kept = h;
  }

  pub Inv-set_shadow_registers : (x : ℕ → Bool) → Inv Keep n (record s { shadow_registers = x })
  Inv-set_shadow_registers x = record {
    pc_in = inv.pc_in;
    depth = inv.depth;
    frames = inv.frames;
    words = inv.words;
    kept = inv.kept;
  }

  pub Inv-set_shadow_stack : (x : ℕ → Bool) → Inv Keep n (record s { shadow_stack = x })
  Inv-set_shadow_stack x = record {
    pc_in = inv.pc_in;
    depth = inv.depth;
    frames = inv.frames;
    words = inv.words;
    kept = inv.kept;
  }

  pub Inv-set_budget : (x : ℤ) → Inv Keep n (record s { budget = x })
  Inv-set_budget x = record {
    pc_in = inv.pc_in;
    depth = inv.depth;
    frames = inv.frames;
    words = inv.words;
    kept = inv.kept;
  }

  pub Inv-set_frame :
      (k : ℕ) (f : StackFrame)
      → FrameIn n f
      → Inv Keep n (record s { stack_frames = update s.stack_frames k f })
  Inv-set_frame k f h = record {
    pc_in = inv.pc_in;
    depth = inv.depth;
    frames = update_all (FrameIn n) s.stack_frames k f inv.frames h;
    words = inv.words;
    kept = inv.kept;
  }

  pub Inv-set_depth : (k : ℕ) → k ≤ 8 → Inv Keep n (record s { stack_frame_index = k })
  Inv-set_depth k h = record {
    pc_in = inv.pc_in;
    depth = h;
    frames = inv.frames;
    words = inv.words;
    kept = inv.kept;
  }

pub Ends-bind :
    {P : State → Type 0} {out : Outcome} {f : State → Outcome}
    → Ends P out
    → ((s : State) → P s → Ends P (f s))
    → Ends P (out >>= f)
Ends-bind (goes_on h) k = k _ h
Ends-bind (stops h) k = stops h
Ends-bind (fails h) k = fails h

pub Ends-map :
    {P Q : State → Type 0} {out : Outcome} → ((s : State) → P s → Q s) → Ends P out → Ends Q out
Ends-map f (goes_on h) = goes_on (f _ h)
Ends-map f (stops h) = stops (f _ h)
Ends-map f (fails h) = fails (f _ h)
