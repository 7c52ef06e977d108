-- ===== src/System.antt =====
-- The kernel as a machine that events drive: the timer interrupt and the system calls of
-- kernel/syscall.c that hand the processor on.
pub mod Sound
pub mod Create
pub mod Run
pub mod Examples
use my_kernel.Common.{ℕ, List, [], ◌∷◌}
use my_kernel.Common.Run as Result
use my_kernel.Common.Run.{ok, ◌>>=◌}
use my_kernel.Process.{Registers, Kernel, Exit}
use my_kernel.Syscall.{Call, call_kernel, sys_exit, sys_yield, sys_sleep}
use my_kernel.Interrupt.{irq0_handler}

-- What comes next, with the registers that are saved when the current process is interrupted.
pub data Event : Type 0 where
  tick yield : Registers → Event
  sleep : Registers → ℕ → Event
  exit : ℕ → Event

-- The processor runs a process, or has stopped after the message of `exit_process`.
pub data Machine : Type 0 where
  runs stops : Kernel → Machine

abbrev pub machine_kernel : Machine → Kernel
machine_kernel (runs k) = k
machine_kernel (stops k) = k

abbrev pub after_call : Call → Machine
after_call c = runs (call_kernel c)

abbrev pub after_exit : Exit → Machine
after_exit (Exit.switched k r) = runs k
after_exit (Exit.halted k) = stops k

pub step : ℕ → Event → Kernel → Result.Run Machine
step fuel (tick regs) k = do c ← irq0_handler fuel regs k; ok (after_call c)
step fuel (yield regs) k = do c ← sys_yield fuel regs k; ok (after_call c)
step fuel (sleep regs time) k = do c ← sys_sleep fuel regs time k; ok (after_call c)
step fuel (exit status) k = do e ← sys_exit fuel status k; ok (after_exit e)

-- The events in order, while the processor runs.
pub run : ℕ → List Event → Machine → Result.Run Machine
unfolding step
run fuel [] m = ok m
run fuel (e ∷ es) (stops k) = ok (stops k)
run fuel (e ∷ es) (runs k) = do m ← step fuel e k; run fuel es m
