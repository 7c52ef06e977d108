-- ===== src/Interrupt.antt =====
-- The timer interrupt of kernel/kernel.c.
pub mod Turn
pub mod RoundRobin
pub mod Fault
pub mod Examples
use my_kernel.Common.{ℕ, ◌+◌, ◌%◌, ◌^◌, ◌||◌, ◌==◌, if◌then◌else◌}
use my_kernel.Common.Run.{Run, ok, ◌>>=◌}
use my_kernel.Process.{Registers, Kernel, wake_processes}
use my_kernel.Syscall.{Call, returned, sys_yield}

-- `irq0_handler`; the end of interrupt that it sends to the interrupt controller is left out.
pub irq0_handler : ℕ → Registers → Kernel → Run Call
irq0_handler fuel regs k =
    let t = record k { ticks = (k.ticks + 1) % 2 ^ 32 } in
    let go_on = (do u ← wake_processes fuel t; sys_yield fuel regs u) in
    if t.current_process == 0 || t.process_list == 0 then ok (returned t regs) else go_on
