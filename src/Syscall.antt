-- ===== src/Syscall.antt =====
-- System calls of kernel/syscall.c that read or change the processes and the heap. `restore_esp`
-- does not return: `switched` is the process that goes on with the registers that it loads.
pub mod Yield
pub mod Sleep
pub mod Status
pub mod Zombies
pub mod Reap
pub mod Examples
use my_kernel.Common.{
  ℕ, zero, suc, ◌+◌, ◌%◌, ◌^◌, ◌-◌, Bool, true, false, ◌&&◌, ◌||◌, ◌==◌, if◌then◌else◌,
}
use my_kernel.Common.Run.{Run, ok, fault, out_of_fuel, ◌>>=◌}
use my_kernel.Pmm.Heap.{kmalloc, kfree}
use my_kernel.Process.{
  ProcessState, blocked, zombie, Registers, Process, Kernel, Exit, assign, schedule, wake_processes,
  context_switch, exit_process, is_valid_process_ptr,
}

-- How a call that may switch leaves the processor.
pub data Call : Type 0 where
  returned : Kernel → Registers → Call
  switched : Kernel → Registers → Call

abbrev pub call_kernel : Call → Kernel
call_kernel (returned k r) = k
call_kernel (switched k r) = k

-- `context_switch`, which does not return.
pub switch_to : Registers → ℕ → Kernel → Call
switch_to regs next k = let (t, loaded) = context_switch regs next k in switched t loaded

pub sys_exit : ℕ → ℕ → Kernel → Run Exit
unfolding assign
sys_exit fuel status k =
    let c = k.current_process in
    let t = record k { proc = assign k.proc c (record (k.proc c) { exit_code = status }) } in
    if c == 0 then fault else exit_process fuel t

pub sys_yield : ℕ → Registers → Kernel → Run Call
unfolding switch_to
sys_yield fuel regs k = do
  t ← wake_processes fuel k
  next ← schedule fuel t
  ok (if next == 0 || next == k.current_process then returned t regs else switch_to regs next t)

pub sys_sleep : ℕ → Registers → ℕ → Kernel → Run Call
unfolding assign switch_to
sys_sleep fuel regs time k =
    let c = k.current_process in
    let asleep = record (k.proc c) { wake = (k.ticks + time) % 2 ^ 32; state = blocked } in
    let t = record k { proc = assign k.proc c asleep } in
    if c == 0 then fault else do
      next ← schedule fuel t
      ok (if next == 0 || next == c then returned t regs else switch_to regs next t)

pub sys_get_pid : Kernel → Run ℕ
sys_get_pid k = if k.current_process == 0 then fault else ok (k.proc k.current_process).pid

-- -1 as an `int` by its bits.
abbrev pub minus_one : ℕ
minus_one = 2 ^ 32 - 1

pub sys_get_parent_pid : ℕ → ℕ → Kernel → Run ℕ
sys_get_parent_pid fuel pro k = do
  valid ← is_valid_process_ptr fuel pro k
  ok (
      if valid == 0
      then minus_one
      else if (k.proc pro).parent == 0
      then minus_one
      else (k.proc (k.proc pro).parent).pid)

pub sys_kmalloc : ℕ → ℕ → Kernel → Run (ℕ × Kernel)
sys_kmalloc blocks size k = do
  (pointer, heap) ← kmalloc blocks size 7 k.heap
  ok (pointer, record k { heap = heap })

pub sys_free : ℕ → ℕ → Kernel → Run Kernel
sys_free blocks address k = do heap ← kfree blocks address k.heap; ok (record k { heap = heap })

abbrev pub is_zombie : ProcessState → Bool
is_zombie zombie = true
is_zombie _ = false

-- The loop of `sys_wait` from `p` on: the first zombie child, or 0. A parent of `NULL` is read like any
-- other: address 0 is mapped, and `proc 0` is what stands there.
pub zombie_child : ℕ → ℕ → Kernel → Run ℕ
zombie_child zero p k = out_of_fuel
zombie_child (suc fuel) p k =
    let rest = zombie_child fuel (k.proc p).next k in
    let parent = (k.proc p).parent in
    if p == 0
    then ok 0
    else if (k.proc parent).pid == (k.proc k.current_process).pid && is_zombie (k.proc p).state
    then ok p
    else rest

-- `collected` is a return with the pid and the status of a child; `stopped` is the processor halted
-- after the message.
pub data Wait : Type 0 where
  collected : ℕ → ℕ → Wait
  waits : Call → Wait
  stopped : Kernel → Wait

pub sys_wait : ℕ → Registers → Kernel → Run Wait
unfolding zombie_child assign switch_to
sys_wait fuel regs k =
    let c = k.current_process in
    let t = record k { proc = assign k.proc c (record (k.proc c) { state = blocked }) } in
    let block = (do
      next ← schedule fuel t
      ok (
          if next == 0 || next == c
          then stopped t
          else waits (switch_to (record regs { eax = minus_one }) next t))) in
    let answer : ℕ → Run Wait = λ child.
      (if child == 0
        then (if c == 0 then fault else block)
        else ok (collected (k.proc child).pid (k.proc child).exit_code)) in
    zombie_child fuel k.process_list k >>= answer
