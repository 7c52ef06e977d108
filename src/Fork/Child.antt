-- ===== src/Fork/Child.antt =====
-- What `sys_fork` of kernel/syscall.c leaves to the parent and to the child.
use my_kernel.Common.{
  ℕ, ◌+◌, ◌%◌, ◌^◌, ◌<◌, ◌≡◌, ◌≢◌, refl, ◌∙◌, true, false, List, length, arith, ◌==◌,
}
use my_kernel.Common.Run.{ok}
use my_kernel.Process.{ready, Registers, Kernel, assign}
use my_kernel.Process.Create.{create_process}
use my_kernel.Computer.{Computer}
use my_kernel.Fork.{minus, stack_top, child_registers, fork_child, sys_fork}
use my_kernel.Fork.Relocate.{Frames}
use my_kernel.Fork.Stack.{Stacks, Copied, copy_stack-Copied}

-- The registers with which the child of a process with the registers `regs` begins: `fork` gives
-- it 0, and its stack stands at `low`, `ebp` moved by the distance of the stacks.
abbrev pub begins : Registers → ℕ → ℕ → ℕ → Registers
begins regs parent_top child_top low = record regs {
  eax = 0;
  user_esp = low;
  ebp = (regs.ebp + minus child_top parent_top) % 2 ^ 32;
}

-- After the fork by `parent` with `create_process` having made `child` in `k`: the child is ready,
-- its parent is the current process, it has a copy of the stack, and nothing else has changed.
pub record Forked (regs : Registers) (parent child used low : ℕ) (frames : List ℕ) (k : Kernel)
    (c d : Computer) : Type 0 where
  pub child_is : d.kernel.proc child ≡ record (k.proc child) { parent = parent; state = ready }
  pub others : (q : ℕ) → q ≢ child → d.kernel.proc q ≡ k.proc q
  pub starts :
      d.kernel.frame (k.proc child).regs
      ≡ begins regs (stack_top (k.proc parent)) (stack_top (k.proc child)) low
  pub other_frames : (p : ℕ) → p ≢ (k.proc child).regs → d.kernel.frame p ≡ k.frame p
  pub goes_on :
      (d.kernel.current_process ≡ k.current_process) × (d.kernel.process_list ≡ k.process_list)
  pub stack :
      Copied
        (stack_top (k.proc parent))
        (stack_top (k.proc child))
        regs.user_esp
        used
        low
        c.bytes
        frames
        d.bytes

assign_here : (f : ℕ → Registers) (p : ℕ) (v : Registers) → assign f p v p ≡ v
unfolding assign
assign_here f p v = let e : (p == p) ≡ true = ground arith in rw e refl

child_registers-begins :
    (regs : Registers) (parent_top child_top used low : ℕ)
    → Stacks parent_top child_top regs.user_esp used low
    → child_registers regs parent_top child_top ≡ begins regs parent_top child_top low
unfolding child_registers
child_registers-begins regs parent_top child_top used low s =
    let u : minus parent_top regs.user_esp ≡ used =
      omega (arith, s.parent_used, s.page, s.parent_page) in
    let l : minus child_top used ≡ low = omega (arith, s.child_used, s.child_page) in rw (u, l) refl

-- When `create_process` gives a child, a process runs, the stacks are apart, each in its own page, a
-- walk from `ebp` over the frames of the parent goes up through `frames`, and there is fuel for each
-- and the end, `sys_fork` ends. It gives the parent the number of the child, and leaves the child
-- ready to return 0 from the same place on a copy of the stack, in which exactly the frame pointers
-- of the walk are changed: each points to the same place in the stack of the child.
pub sys_fork-Forked :
    (blocks fuel rounds process_entry : ℕ) (regs : Registers) (c : Computer) (child : ℕ)
    (k : Kernel) (used low : ℕ) (frames : List ℕ)
    → create_process blocks fuel process_entry 0 1 c.kernel ≡ ok (child, k)
    → child ≢ 0
    → c.kernel.current_process ≢ 0
    → Stacks
        (stack_top (k.proc c.kernel.current_process))
        (stack_top (k.proc child))
        regs.user_esp
        used
        low
    → regs.ebp < 2 ^ 32
    → Frames c.bytes regs.user_esp (stack_top (k.proc c.kernel.current_process)) regs.ebp frames
    → length frames < rounds
    → (d : Computer) × (sys_fork blocks fuel rounds process_entry regs c
        ≡ ok ((k.proc child).pid, record regs { eax = (k.proc child).pid }, d))
      × Forked regs c.kernel.current_process child used low frames k c d
unfolding sys_fork fork_child assign
sys_fork-Forked blocks fuel rounds process_entry regs c child k used low frames made n m s small
      walk enough =
    let parent = c.kernel.current_process in
    let parent_top = stack_top (k.proc parent) in
    let child_top = stack_top (k.proc child) in
    let (b, e, copied) =
      copy_stack-Copied parent_top child_top regs.user_esp used low s c.bytes rounds regs frames
        refl small walk enough in
    let x : (child == 0) ≡ false = ground arith in
    let y : (parent == 0) ≡ false = ground arith in
    (
      record c {
        kernel = record k {
          frame = assign k.frame (k.proc child).regs (child_registers regs parent_top child_top);
          proc = assign k.proc child (record (k.proc child) { parent = parent; state = ready });
        };
        bytes = b;
      },
      rw (made, x, y, e) refl,
      record {
        child_is = ground arith;
        others = λ q o. ground arith;
        starts =
            assign_here k.frame (k.proc child).regs (child_registers regs parent_top child_top)
            ∙ child_registers-begins regs parent_top child_top used low s;
        other_frames = λ p o. ground arith;
        goes_on = (refl, refl);
        stack = copied;
      },
    )
