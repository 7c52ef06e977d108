-- ===== src/Fork.antt =====
-- `sys_fork` of kernel/syscall.c. `frames` is the fuel of the loop that follows the saved frame
-- pointers on the copied stack.
pub mod Relocate
pub mod Stack
pub mod Child
pub mod Examples
use my_kernel.Common.{ℕ, zero, suc, ◌+◌, ◌-◌, ◌%◌, ◌^◌, Bool, ◌&&◌, ltb, leb, ◌==◌, if◌then◌else◌}
use my_kernel.Common.Run.{Run, ok, fault, out_of_fuel, ◌>>=◌}
use my_kernel.Process.{ready, Registers, Process, Kernel, assign}
use my_kernel.Process.Create.{create_process}
use my_kernel.Memory.{memcpy, word_at, put_word}
use my_kernel.Computer.{Computer}

abbrev pub minus : ℕ → ℕ → ℕ
minus a b = (a + 2 ^ 32 - b) % 2 ^ 32

-- The loop over the frames: those of the child lie from `low` on and below `top`, a saved pointer
-- is one of the parent's if it lies in the page below `parent_top`.
pub relocate : ℕ → ℕ → ℕ → ℕ → ℕ → (ℕ → ℕ) → Run (ℕ → ℕ)
relocate zero low top parent_top frame bytes = out_of_fuel
relocate (suc fuel) low top parent_top frame bytes =
    let saved = word_at bytes frame in
    let moved = (saved + minus top parent_top) % 2 ^ 32 in
    let rest = relocate fuel low top parent_top moved (put_word bytes frame moved) in
    let follow =
      if leb (minus parent_top 4096) saved && ltb saved parent_top then rest else ok bytes in
    if leb low frame && ltb frame (minus top 4) then follow else ok bytes

-- The tops of the stacks of the process at `p`.
abbrev pub stack_top : Process → ℕ
stack_top p = (p.user_stack + 4096) % 2 ^ 32

-- The registers with which the child begins.
pub child_registers : Registers → ℕ → ℕ → Registers
child_registers regs parent_top child_top =
    let used = minus parent_top regs.user_esp in
    record regs {
      eax = 0;
      user_esp = minus child_top used;
      ebp = (regs.ebp + minus child_top parent_top) % 2 ^ 32;
    }

-- The stack of the child: a copy with its frame pointers moved.
pub copy_stack : ℕ → Registers → ℕ → ℕ → (ℕ → ℕ) → Run (ℕ → ℕ)
unfolding relocate
copy_stack frames regs parent_top child_top bytes =
    let used = minus parent_top regs.user_esp in
    let low = minus child_top used in
    relocate frames low child_top parent_top ((regs.ebp + minus child_top parent_top) % 2 ^ 32)
      (memcpy low (minus parent_top used) used bytes)

-- `sys_fork` behind the call of `create_process`, with the child at `child`.
pub fork_child : ℕ → Registers → ℕ → ℕ → Computer → Run (ℕ × Registers × Computer)
unfolding child_registers copy_stack assign
fork_child frames regs parent child c =
    let k = c.kernel in
    let parent_top = stack_top (k.proc parent) in
    let child_top = stack_top (k.proc child) in
    let pid = (k.proc child).pid in
    do
      bytes ← copy_stack frames regs parent_top child_top c.bytes
      ok (
        pid,
        record regs { eax = pid },
        record c {
          kernel = record k {
            frame = assign k.frame (k.proc child).regs (child_registers regs parent_top child_top);
            proc = assign k.proc child (record (k.proc child) { parent = parent; state = ready });
          };
          bytes = bytes;
        },
      )

-- What it returns, the registers of the interrupted process, and the state.
pub sys_fork : ℕ → ℕ → ℕ → ℕ → Registers → Computer → Run (ℕ × Registers × Computer)
unfolding fork_child
sys_fork blocks fuel frames process_entry regs c =
    let parent = c.kernel.current_process in
    do
      made ← create_process blocks fuel process_entry 0 1 c.kernel
      (if made.0 == 0
          then ok (2 ^ 32 - 1, record regs { eax = 2 ^ 32 - 1 }, record c { kernel = made.1 })
          else if parent == 0
          then fault
          else fork_child frames regs parent made.0 (record c { kernel = made.1 }))
