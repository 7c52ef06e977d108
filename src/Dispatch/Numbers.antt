-- ===== src/Dispatch/Numbers.antt =====
-- The numbers of the system calls: kernel/syscall.h.
use my_kernel.Common.{ℕ}

abbrev pub sys_exit_number : ℕ
sys_exit_number = 0

abbrev pub sys_yield_number : ℕ
sys_yield_number = 1

abbrev pub sys_prints_number : ℕ
sys_prints_number = 2

abbrev pub sys_printc_number : ℕ
sys_printc_number = 3

abbrev pub sys_printn_number : ℕ
sys_printn_number = 4

abbrev pub sys_printhex_number : ℕ
sys_printhex_number = 5

abbrev pub sys_sleep_number : ℕ
sys_sleep_number = 6

abbrev pub sys_seconds_number : ℕ
sys_seconds_number = 7

abbrev pub sys_print_seconds_number : ℕ
sys_print_seconds_number = 8

abbrev pub sys_create_process_number : ℕ
sys_create_process_number = 9

abbrev pub sys_get_pid_number : ℕ
sys_get_pid_number = 10

abbrev pub sys_malloc_number : ℕ
sys_malloc_number = 11

abbrev pub sys_free_number : ℕ
sys_free_number = 12

abbrev pub sys_wait_number : ℕ
sys_wait_number = 13

abbrev pub sys_get_parent_pid_number : ℕ
sys_get_parent_pid_number = 14

abbrev pub sys_fork_number : ℕ
sys_fork_number = 15

abbrev pub sys_exec_number : ℕ
sys_exec_number = 16
