-- ===== src/Dispatch.antt =====
-- `syscall_dispatch` of kernel/syscall.c with the calls that need the whole machine. The bytes of
-- user memory are found by their virtual addresses.
pub mod Numbers
pub mod Print
pub mod Observe
pub mod Exec
pub mod Examples
use my_kernel.Common.{ℕ, ◌+◌, ◌-◌, ◌%◌, ◌^◌, ◌==◌, if◌then◌else◌}
use my_kernel.Common.Run.{Run, ok, ◌>>=◌}
use my_kernel.Pmm.Regions.{allocate}
use my_kernel.Pmm.Paging.{Paging, map_page}
use my_kernel.Process.{Registers, Kernel, Exit, is_valid_process_ptr}
use my_kernel.Process.Create.{create_process}
use my_kernel.Memory.{put_word}
use my_kernel.Elf.Load.{Space, elf_load_file}
use my_kernel.Syscall.{
  Call, returned, switched, Wait, collected, waits, stopped, minus_one, sys_exit, sys_yield,
  sys_sleep, sys_get_pid, sys_get_parent_pid, sys_kmalloc, sys_free, sys_wait,
}
use my_kernel.Computer.{
  Computer, paging_of, with_paging, space_of, with_space, remapped, say, user_stack_top,
}
use my_kernel.Fork.{sys_fork}
use my_kernel.Dispatch.Numbers.*
use my_kernel.Dispatch.Print.{
  sys_prints, sys_printc, sys_printn, sys_printhex, get_seconds, sys_print_seconds,
}

-- The fuel of the walks over the heap, the processes, the frames of a stack and a text; the address
-- of `process_entry`, and what `elf_load_rel` leaves.
pub record Limits : Type 0 where
  pub blocks : ℕ
  pub fuel : ℕ
  pub frames : ℕ
  pub chars : ℕ
  pub process_entry : ℕ
  pub rel : ℕ

-- How the interrupt leaves the processor: back in the process with the registers, in another one
-- with those that it has loaded, or halted.
pub data Answer : Type 0 where
  resumes : Computer → Registers → Answer
  switches : Computer → Registers → Answer
  stops : Computer → Answer

abbrev pub on_kernel : Kernel → Computer → Computer
on_kernel k c = record c { kernel = k }

abbrev pub from_call : Computer → Call → Answer
from_call c (returned k r) = resumes (on_kernel k c) r
from_call c (switched k r) = switches (on_kernel k c) r

abbrev pub from_exit : Computer → Exit → Answer
from_exit c (Exit.switched k r) = switches (on_kernel k c) r
from_exit c (Exit.halted k) = stops (on_kernel k c)

-- `*status = p->exit_code` is a write of the process.
abbrev pub from_wait : Registers → Computer → Wait → Answer
from_wait regs c (collected pid status) =
    resumes (record c { bytes = put_word c.bytes regs.ebx status }) (record regs { eax = pid })
from_wait regs c (waits call) = from_call c call
from_wait regs c (stopped k) = stops (on_kernel k c)

pub sys_create_process : Limits → ℕ → ℕ → Computer → Run (ℕ × Computer)
sys_create_process lim entry mode c = do
  made ← create_process lim.blocks lim.fuel lim.process_entry entry mode c.kernel
  valid ← is_valid_process_ptr lim.fuel made.0 made.1
  ok (
      if valid == 0
      then (0, say "unvalid process" (on_kernel made.1 c))
      else (made.0, on_kernel made.1 c))

-- `sys_exec` behind the load of the file: the result, the registers, and the machine.
pub start_exec : ℕ → Registers → Computer → ℕ × Registers × Computer
start_exec entry regs c =
    let p = paging_of c.kernel in
    let phy = allocate 4096 p.regions in
    let q = record p { regions = phy.1 } in
    let started = record regs { eip = entry; ebp = 0 } in
    if entry == 0
    then (minus_one, regs, c)
    else if phy.0 == 0
    then (minus_one, started, record c { kernel = with_paging q c.kernel })
    else (
      0,
      record started { user_esp = user_stack_top },
      remapped (map_page phy.0 (user_stack_top - 4096) 7 q) c,
    )

pub sys_exec : Limits → ℕ → Registers → Computer → Run (ℕ × Registers × Computer)
unfolding start_exec
sys_exec lim file regs c = do
  loaded ← elf_load_file lim.rel file (space_of c)
  ok (start_exec loaded.0 regs (with_space loaded.1 c))

-- `regs->eax = value` and the return.
abbrev pub gives : Registers → ℕ × Computer → Answer
gives regs (value, c) = resumes c (record regs { eax = value })

abbrev pub gives_with : ℕ × Registers × Computer → Answer
gives_with (value, regs, c) = resumes c (record regs { eax = value })

-- The calls on processes and memory.
unfoldable pub dispatch_kernel : Limits → Registers → Computer → Run Answer
unfolding sys_create_process sys_exec
dispatch_kernel lim regs c =
    if regs.eax == sys_sleep_number
    then (do r ← sys_sleep lim.fuel regs regs.ebx c.kernel; ok (from_call c r))
    else if regs.eax == sys_create_process_number
    then (do r ← sys_create_process lim regs.ebx regs.ecx c; ok (gives regs r))
    else if regs.eax == sys_get_pid_number
    then (do pid ← sys_get_pid c.kernel; ok (gives regs (pid, c)))
    else if regs.eax == sys_malloc_number
    then (do r ← sys_kmalloc lim.blocks regs.ebx c.kernel; ok (gives regs (r.0, on_kernel r.1 c)))
    else if regs.eax == sys_free_number
    then (do k ← sys_free lim.blocks regs.ebx c.kernel; ok (resumes (on_kernel k c) regs))
    else if regs.eax == sys_wait_number
    then (do r ← sys_wait lim.fuel regs c.kernel; ok (from_wait regs c r))
    else if regs.eax == sys_get_parent_pid_number
    then (do pid ← sys_get_parent_pid lim.fuel regs.ebx c.kernel; ok (gives regs (pid, c)))
    else if regs.eax == sys_fork_number
    then (do
      r ← sys_fork lim.blocks lim.fuel lim.frames lim.process_entry regs c
      ok (gives_with r))
    else if regs.eax == sys_exec_number
    then (do r ← sys_exec lim regs.ebx regs c; ok (gives_with r))
    else ok (resumes c regs)

-- The `switch`: first the calls that print, then the others.
unfoldable pub syscall_dispatch : Limits → Registers → Computer → Run Answer
unfolding dispatch_kernel
syscall_dispatch lim regs c =
    if regs.eax == sys_exit_number
    then (do r ← sys_exit lim.fuel regs.ebx c.kernel; ok (from_exit c r))
    else if regs.eax == sys_yield_number
    then (do r ← sys_yield lim.fuel regs c.kernel; ok (from_call c r))
    else if regs.eax == sys_prints_number
    then (do d ← sys_prints lim.chars regs.ebx c; ok (resumes d regs))
    else if regs.eax == sys_printc_number
    then ok (resumes (sys_printc (regs.ebx % 256) c) regs)
    else if regs.eax == sys_printn_number
    then ok (resumes (sys_printn regs.ebx c) regs)
    else if regs.eax == sys_printhex_number
    then ok (resumes (sys_printhex regs.ebx c) regs)
    else if regs.eax == sys_seconds_number
    then ok (gives regs (get_seconds c.kernel, c))
    else if regs.eax == sys_print_seconds_number
    then ok (resumes (sys_print_seconds regs.ebx c) regs)
    else dispatch_kernel lim regs c
