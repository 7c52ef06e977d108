-- ===== src/Fork/Examples.antt =====
-- A test of `sys_fork` of kernel/syscall.c: the process at 0x1000 has a stack of one page at
-- 0x700000, and one saved frame pointer.
use my_kernel.Common.{ℕ, ◌≡◌, refl, inr, [], ◌∷◌, arith, ◌==◌, if◌then◌else◌}
use my_kernel.Common.Run.{Run, ok, fault, out_of_fuel}
use my_kernel.Pmm.Regions.{allocate}
use my_kernel.Pmm.Paging.{map_page}
use my_kernel.Pmm.Virtual.{allocate_page, allocate_pages_contig}
use my_kernel.Pmm.Heap.{kmalloc}
use my_kernel.Process.{Registers, Kernel, add_process}
use my_kernel.Process.Examples.{process_at, registers, three}
use my_kernel.Process.Created.Examples.{empty_heap}
use my_kernel.Process.Create.{create_process}
use my_kernel.Computer.{Computer}
use my_kernel.Memory.{word_at}
use my_kernel.Fork.{stack_top, sys_fork}
use my_kernel.Fork.Relocate.{Frames}
use my_kernel.Fork.Stack.{Stacks}
use my_kernel.Fork.Child.{Forked, sys_fork-Forked}

abbrev parent_stack : Kernel
parent_stack = record (three 0x1000) {
  heap = empty_heap;
  proc = λ a. record (process_at a) { user_stack = 0x700000 };
}

abbrev result : Run (ℕ × Kernel) → ℕ × Kernel
result (ok r) = r
result fault = (0, parent_stack)
result out_of_fuel = (0, parent_stack)

abbrev made : ℕ × Kernel
made = result (create_process 4 5 0x10000 0 1 parent_stack)

-- `create_process` gives the child at 0x500009 a stack at 0x505000.
makes : create_process 4 5 0x10000 0 1 parent_stack ≡ ok (0x500009, made.1)
unfolding create_process kmalloc allocate_page allocate allocate_pages_contig map_page add_process
makes = refl

child_top : stack_top (made.1.proc 0x500009) ≡ 0x506000
unfolding create_process kmalloc allocate_page allocate allocate_pages_contig map_page add_process
child_top = refl

parent_top : stack_top (made.1.proc 0x1000) ≡ 0x701000
unfolding create_process kmalloc allocate_page allocate allocate_pages_contig map_page add_process
parent_top = refl

-- The frame pointer 0x700F80 is saved at 0x700F40.
abbrev stack_bytes : ℕ → ℕ
stack_bytes a =
    if a == 0x700F40
    then 0x80
    else if a == 0x700F41
    then 0x0F
    else if a == 0x700F42
    then 0x70
    else 0

-- The walk from 0x700F40 visits that frame, and stops at 0x700F80, which saves 0.
walk : Frames stack_bytes 0x700F00 0x701000 0x700F40 (0x700F40 ∷ [])
unfolding word_at
walk = (refl, (omega arith, omega arith), refl, omega arith, inr (inr refl))

abbrev machine : Computer
machine = record {
  kernel = parent_stack;
  bytes = stack_bytes;
  contents = λ p. 0xCC;
  screen = record { cell = λ a. 0x0720; cursor = 0; column = 0; moved = [] };
}

abbrev asks : Registers
asks = record (registers 0x1B) { user_esp = 0x700F00; ebp = 0x700F40 }

both : Stacks 0x701000 0x506000 0x700F00 0x100 0x505F00
both = record {
  parent_used = refl;
  child_used = refl;
  page = omega arith;
  parent_page = (omega arith, omega arith);
  child_page = (omega arith, omega arith);
  apart = inr (omega arith);
}

sys_fork-Forked_example :
    (d : Computer) × (sys_fork 4 5 2 0x10000 asks machine
      ≡ ok ((made.1.proc 0x500009).pid, record asks { eax = (made.1.proc 0x500009).pid }, d))
    × Forked asks 0x1000 0x500009 0x100 0x505F00 (0x700F40 ∷ []) made.1 machine d
sys_fork-Forked_example =
    sys_fork-Forked 4 5 2 0x10000 asks machine 0x500009 made.1 0x100 0x505F00 (0x700F40 ∷ []) makes
      (λ e. omega arith) (λ e. omega arith) (rw (parent_top, child_top) both) (omega arith)
      (rw parent_top walk) (omega arith)
