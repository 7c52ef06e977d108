-- ===== src/User.antt =====
-- The wrappers of user/user_space.c: the registers with which each executes `int $0x80`, for a
-- process whose registers are `regs`. The interrupt leaves the result in `eax`.
pub mod Calls
pub mod Examples
use my_kernel.Common.{ℕ, Option, none, some, List, [], ◌∷◌, ◌==◌, if◌then◌else◌}
use my_kernel.Process.{Registers}
use my_kernel.Dispatch.Numbers.{
  sys_exit_number, sys_yield_number, sys_prints_number, sys_printc_number, sys_printn_number,
  sys_printhex_number, sys_sleep_number, sys_seconds_number, sys_print_seconds_number,
  sys_create_process_number, sys_get_pid_number, sys_malloc_number, sys_free_number,
  sys_wait_number, sys_get_parent_pid_number, sys_fork_number, sys_exec_number,
}

unfoldable pub write_string : ℕ → Registers → Registers
write_string str regs = record regs { eax = sys_prints_number; ebx = str }

unfoldable pub write_char : ℕ → Registers → Registers
write_char c regs = record regs { eax = sys_printc_number; ebx = c }

unfoldable pub write_number : ℕ → Registers → Registers
write_number n regs = record regs { eax = sys_printn_number; ebx = n }

unfoldable pub write_hex : ℕ → Registers → Registers
write_hex n regs = record regs { eax = sys_printhex_number; ebx = n }

unfoldable pub write_second : ℕ → Registers → Registers
write_second n regs = record regs { eax = sys_print_seconds_number; ebx = n }

unfoldable pub user_get_second : Registers → Registers
user_get_second regs = record regs { eax = sys_seconds_number }

unfoldable pub user_yield : Registers → Registers
user_yield regs = record regs { eax = sys_yield_number }

unfoldable pub user_exit : ℕ → Registers → Registers
user_exit status regs = record regs { eax = sys_exit_number; ebx = status }

unfoldable pub user_create_process : ℕ → ℕ → Registers → Registers
user_create_process entry mode regs = record regs {
  eax = sys_create_process_number;
  ebx = entry;
  ecx = mode;
}

unfoldable pub user_sleep : ℕ → Registers → Registers
user_sleep time regs = record regs { eax = sys_sleep_number; ebx = time }

unfoldable pub user_get_pid : Registers → Registers
user_get_pid regs = record regs { eax = sys_get_pid_number }

unfoldable pub user_get_parent_pid : ℕ → Registers → Registers
user_get_parent_pid pro regs = record regs { eax = sys_get_parent_pid_number; ebx = pro }

unfoldable pub user_kmalloc : ℕ → Registers → Registers
user_kmalloc size regs = record regs { eax = sys_malloc_number; ebx = size }

unfoldable pub user_free : ℕ → Registers → Registers
user_free address regs = record regs { eax = sys_free_number; ebx = address }

-- One round of the loop of `user_wait`.
unfoldable pub user_wait : ℕ → Registers → Registers
user_wait status regs = record regs { eax = sys_wait_number; ebx = status }

unfoldable pub user_fork : Registers → Registers
user_fork regs = record regs { eax = sys_fork_number }

unfoldable pub user_exec : ℕ → Registers → Registers
user_exec file regs = record regs { eax = sys_exec_number; ebx = file }

-- One round of the loop of `user_up_time`, behind its `write_string`, in which `user_get_second` gives `sec`: the second that
-- is shown, and the call that shows a new one. At first it is `(unsigned long)-1`.
unfoldable pub user_up_time : ℕ → ℕ → ℕ × Option (Registers → Registers)
unfolding write_second
user_up_time sec last = if last == sec then (last, none) else (sec, some (write_second sec))

-- The calls of `user_main` in front of its loop, which then calls `user_yield` for ever: `greeting`
-- is the address of its text, the others are those of `user_up_time` and of `shell`.
unfoldable pub user_main : ℕ → ℕ → ℕ → List (Registers → Registers)
unfolding write_string user_create_process
user_main greeting up_time shell =
    write_string greeting ∷ user_create_process up_time 1 ∷ user_create_process shell 1 ∷ []
