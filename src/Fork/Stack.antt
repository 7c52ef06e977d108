-- ===== src/Fork/Stack.antt =====
-- The stack of the child that `sys_fork` of kernel/syscall.c makes from that of the parent.
use my_kernel.Common.{
  ℕ, ◌+◌, ◌-◌, ◌%◌, ◌^◌, ◌≤◌, ◌<◌, ◌≡◌, refl, ◌∙◌, ◌⊎◌, true, false, List, length, arith,
  if◌then◌else◌,
}
use my_kernel.Common.Run.{ok}
use my_kernel.Memory.{memcpy}
use my_kernel.Memory.Fill.{within, memcpy_lem}
use my_kernel.Process.{Registers}
use my_kernel.Fork.{minus, relocate, copy_stack}
use my_kernel.Fork.Relocate.{Frames, Moved, Beside, relocate-Walked}

-- Two stacks of one page each, the first in use from `esp` on; `used` bytes are copied, to `low`.
pub record Stacks (parent_top child_top esp used low : ℕ) : Type 0 where
  pub parent_used : esp + used ≡ parent_top
  pub child_used : low + used ≡ child_top
  pub page : used ≤ 4096
  pub parent_page : (4096 ≤ parent_top) × (parent_top < 2 ^ 32)
  pub child_page : (4096 ≤ child_top) × (child_top < 2 ^ 32)
  pub apart : (parent_top + 4096 ≤ child_top) ⊎ (child_top + 4096 ≤ parent_top)

module _ (parent_top child_top esp used low : ℕ) (bytes : ℕ → ℕ) (frames : List ℕ) where
  -- The bytes `b` are `bytes` with the stack of the parent copied to that of the child, where the
  -- pointers in the frames are moved.
  pub record Copied (b : ℕ → ℕ) : Type 0 where
    pub outside : (a : ℕ) → (a < low) ⊎ (child_top ≤ a) → b a ≡ bytes a
    pub pointers : Moved esp parent_top low child_top used bytes b frames
    pub beside :
        (d : ℕ)
        → d < used
        → Beside esp parent_top low child_top used bytes d frames
        → b (low + d) ≡ bytes (esp + d)

module _ (parent_top child_top esp used low : ℕ) (s : Stacks parent_top child_top esp used low)
    (bytes : ℕ → ℕ) where
  copy-byte :
      (a : ℕ)
      → memcpy low esp used bytes a
        ≡ (if within low used a then bytes (esp + (a - low)) else bytes a)
  copy-byte a =
      memcpy_lem used low esp bytes a (omega (arith, s.child_used, s.child_page.1))
        (omega (arith, s.parent_used, s.parent_page.1))
        (let o = s.apart in
          let e = s.parent_used in let f = s.child_used in let g = s.page in ground arith)

  copy-inside : (d : ℕ) → d < used → memcpy low esp used bytes (low + d) ≡ bytes (esp + d)
  copy-inside d h =
      let e : low + d - low ≡ d = omega arith in
      let y : within low used (low + d) ≡ true = ground arith in
      copy-byte (low + d) ∙ rw (y, e) refl

  copy_stack-relocate :
      (frames : ℕ) (regs : Registers)
      → regs.user_esp ≡ esp
      → copy_stack frames regs parent_top child_top bytes
        ≡ relocate frames low child_top parent_top
            ((regs.ebp + minus child_top parent_top) % 2 ^ 32)
            (memcpy low esp used bytes)
  unfolding copy_stack
  copy_stack-relocate frames regs e =
      let u : minus parent_top regs.user_esp ≡ used =
        omega (arith, e, s.parent_used, s.page, s.parent_page) in
      let l : minus child_top used ≡ low = omega (arith, s.child_used, s.child_page) in
      let f : minus parent_top used ≡ esp = omega (arith, s.parent_used, s.parent_page) in
      rw (u, l, f) refl

  -- With the frames of the parent from `ebp` on, and fuel for each and the end, the copy ends.
  pub copy_stack-Copied :
      (fuel : ℕ) (regs : Registers) (frames : List ℕ)
      → regs.user_esp ≡ esp
      → regs.ebp < 2 ^ 32
      → Frames bytes esp parent_top regs.ebp frames
      → length frames < fuel
      → (b : ℕ → ℕ) × (copy_stack fuel regs parent_top child_top bytes ≡ ok b)
        × Copied parent_top child_top esp used low bytes frames b
  copy_stack-Copied fuel regs frames e small h enough =
      let first = memcpy low esp used bytes in
      let (b, d, w) =
        relocate-Walked esp parent_top low child_top used bytes s.parent_used s.child_used
          s.parent_page.1 s.child_page.1 (omega (arith, s.child_page)) frames fuel regs.ebp first h
          small enough (λ d l g. copy-inside d (omega (arith, s.parent_used))) in
      (
        b,
        copy_stack-relocate fuel regs e ∙ d,
        record {
          outside = λ a o.
              let f = s.child_used in
              let n : within low used a ≡ false = ground arith in
              w.outside a o ∙ copy-byte a ∙ rw n refl;
          pointers = w.moved;
          beside = λ d l o. w.beside d o ∙ copy-inside d l;
        },
      )
