-- ===== src/Dispatch/Exec.antt =====
-- `sys_exec` of kernel/syscall.c.
use my_kernel.Common.{ℕ, ◌-◌, ◌^◌, ◌≤◌, ◌<◌, ◌≡◌, ◌≢◌, ◌⊎◌}
use my_kernel.Pmm.Paging.{get_map}
use my_kernel.Pmm.Paging.Frames.{Tables}
use my_kernel.Process.{Registers}
use my_kernel.Elf.Load.{Space}
use my_kernel.Elf.Segment.{Exhausted}
use my_kernel.Computer.{Computer, paging_of, user_stack_top}

-- The process begins at `entry` on the user stack, whose page is mapped, unless no memory was left
-- for its page table. All other pages and their bytes are those of the loaded program.
pub record Starts (entry : ℕ) (regs : Registers) (t : Space) (result : ℕ) (started : Registers)
    (d : Computer) : Type 0 where
  pub succeeds : result ≡ 0
  pub registers : started ≡ record regs { eip = entry; ebp = 0; user_esp = user_stack_top }
  pub tables : Tables (paging_of d.kernel)
  pub bytes :
      (v : ℕ)
      → v < 2 ^ 32
      → (v < user_stack_top - 4096) ⊎ (user_stack_top ≤ v)
      → d.bytes v ≡ t.bytes v
  pub others :
      (v : ℕ)
      → v < 2 ^ 32
      → (v < user_stack_top - 4096) ⊎ (user_stack_top ≤ v)
      → get_map v (paging_of d.kernel) ≡ get_map v t.paging
  pub stack :
      Exhausted (paging_of d.kernel)
      ⊎ ((v : ℕ)
          → user_stack_top - 4096 ≤ v
          → v < user_stack_top
          → get_map v (paging_of d.kernel) ≢ 0)
