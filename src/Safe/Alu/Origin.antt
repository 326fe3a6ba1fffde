-- ===== src/Safe/Alu/Origin.antt =====
-- vm/ubpf_safe.c: where the tag of an arithmetic result comes from.
use mathlib.Core.Bool.{not}
use ubpf.Prelude.{
  ℕ, ◌+◌, ◌≤◌, ◌≡◌, ap, arith, true, if_cases, if_both, ==_iff, if◌then◌else◌, ltb, ◌==◌, ◌&&◌,
  ◌||◌, ◌-◌,
}
use ubpf.Prelude.Int.{ℤ, pos, negsuc}
use ubpf.Inst.{Inst}
use ubpf.Filter.{eq_ℤ}
use ubpf.Interp.Bounds.{uint64_max}
use ubpf.Interp.Shadow.{instruction_class, operation, uses_register}
use ubpf.Safe.{Tag, Refusal, scalar_tag, pointer}
use ubpf.Safe.Access.{is_pointer, is_scalar}
use ubpf.Safe.Alu.{
  Tagged, tagged, untaggable, lower_bound, upper_bound, apply_pointer_offset, apply_mov,
  apply_immediate, apply_add, apply_sub, apply_other, apply_alu,
}

-- How many bytes the arithmetic may lead past either end of a region: those that an offset of 16
-- bits spans for the stack, none for another region.
abbrev pub slack : Tag → ℕ
slack tag = if tag.region_id == 0xffff_ffff then 32767 else 0

-- A pointer with a result from the base of its region to one past its last byte, give or take the
-- slack.
pub record Stays (tag : Tag) (result : ℕ) : Type 0 where
  pub points : tag.kind ≡ pointer
  pub above : tag.base ≤ result + slack tag
  pub below : result ≤ tag.base + tag.size + slack tag

-- A number, the source of a plain move, or an operand that is a pointer and stays in bounds.
pub data Origin (i : Inst) (dst src : Tag) (result : ℕ) : Tag → Type 0 where
  number : Origin i dst src result scalar_tag
  moved :
      operation i.opcode ≡ 0xb0
      → uses_register i.opcode ≡ true
      → i.offset ≡ pos 0
      → Origin i dst src result src
  from_dst : Stays dst result → Origin i dst src result dst
  from_src : Stays src result → Origin i dst src result src

-- The tag of the result, where there is one, has the property.
pub data Makes (P : Tag → Type 0) : Tagged → Type 0 where
  makes : {t : Tag} → P t → Makes P (tagged t)
  refuses : {e : Refusal} → Makes P (untaggable e)

eq_zero : (z : ℤ) → eq_ℤ z (pos 0) ≡ true → z ≡ pos 0
eq_zero (pos n) h = ap pos ((==_iff n 0).0 (ground arith))
eq_zero (negsuc n) h = absurd (ground arith)

module _ (i : Inst) (dst src : Tag) (result : ℕ) where
  abbrev From : Tagged → Type 0
  From = Makes (Origin i dst src result)

  offset-Makes :
      (tag : Tag)
      → is_pointer tag.kind ≡ true
      → (Stays tag result → Origin i dst src result tag)
      → From (apply_pointer_offset tag result)
  unfolding apply_pointer_offset lower_bound upper_bound
  offset-Makes tag kind origin =
      if_cases From (ltb (uint64_max - tag.size) tag.base) (λ e. refuses)
        (λ e.
          if_cases From (ltb result (lower_bound tag) || ltb (upper_bound tag) result)
            (λ out. refuses)
            (λ stays. makes (
              origin
                (record { points = ground arith; above = ground arith; below = ground arith }))))

  mov-Origin :
      operation i.opcode ≡ 0xb0
      → uses_register i.opcode ≡ true
      → Origin i dst src result (if eq_ℤ i.offset (pos 0) then src else scalar_tag)
  mov-Origin op reg =
      if_cases (Origin i dst src result) (eq_ℤ i.offset (pos 0))
        (λ e. moved op reg (eq_zero i.offset e)) (λ e. number)

  mov-Makes : operation i.opcode ≡ 0xb0 → From (apply_mov i src)
  unfolding apply_mov
  mov-Makes op =
      if_cases From (uses_register i.opcode)
        (λ reg.
          if_both From (not (eq_ℤ i.offset (pos 0)) && not (is_scalar src.kind)) refuses
            (makes (mov-Origin op reg)))
        (λ e. makes number)

  immediate-Makes : From (apply_immediate dst result)
  unfolding apply_immediate
  immediate-Makes =
      if_cases From (is_pointer dst.kind) (λ e. offset-Makes dst e from_dst)
        (λ e. if_both From (not (is_scalar dst.kind)) refuses (makes number))

  add-Makes : From (apply_add i dst src result)
  unfolding apply_add
  add-Makes = if_both From (not (uses_register i.opcode)) immediate-Makes (
      if_cases From (is_pointer dst.kind && is_scalar src.kind)
        (λ e. offset-Makes dst (ground arith) from_dst)
        (λ _.
          if_cases From (is_scalar dst.kind && is_pointer src.kind)
            (λ e. offset-Makes src (ground arith) from_src)
            (λ _. if_both From (is_scalar dst.kind && is_scalar src.kind) (makes number) refuses)))

  sub-Makes : From (apply_sub i dst src result)
  unfolding apply_sub
  sub-Makes = if_both From (not (uses_register i.opcode)) immediate-Makes (
      if_cases From (is_pointer dst.kind && is_scalar src.kind)
        (λ e. offset-Makes dst (ground arith) from_dst)
        (λ _. if_both From _ (makes number) (if_both From _ (makes number) refuses)))

  other-Makes : From (apply_other i dst src)
  unfolding apply_other
  other-Makes = if_both From _ (makes number) (if_both From _ refuses (makes number))

  -- Arithmetic makes no pointers and no handles: the tag of a result, where the instruction is
  -- not refused, is that of a number, or it is the source of a plain move, or it is the tag of an
  -- operand that is a pointer, and the result is not below the base of its region and at most the
  -- end of it, with 32767 bytes more on either side for the stack.
  pub apply_alu-Origin : Makes (Origin i dst src result) (apply_alu i dst src result)
  unfolding apply_alu
  apply_alu-Origin = if_both From (instruction_class i.opcode == 0x04) (makes number) (
      if_cases From (operation i.opcode == 0xb0) (λ e. mov-Makes ((==_iff _ _).0 e))
        (λ _.
          if_both From (operation i.opcode == 0x00) add-Makes
            (if_both From (operation i.opcode == 0x10) sub-Makes other-Makes)))
