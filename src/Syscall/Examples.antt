-- ===== src/Syscall/Examples.antt =====
-- Tests of `sys_yield`, `sys_sleep`, `sys_exit` and `sys_wait` of kernel/syscall.c.
use my_kernel.Common.{ℕ, ◌≡◌, inl, refl, [], ◌∷◌, arith, ◌==◌, if◌then◌else◌}
use my_kernel.Common.Run.{ok}
use my_kernel.Process.{zombie, ready, blocked, switched, Registers, Process, Kernel, assign}
use my_kernel.Process.Examples.{process_at, three, three-Links, first_runs, registers}
use my_kernel.Process.Schedule.{IsRunning, first_ready}
use my_kernel.Syscall.{collected, sys_exit, sys_yield, sys_sleep, sys_wait}
use my_kernel.Syscall.Yield.{Yields, sys_yield-Yields}
use my_kernel.Syscall.Reap.{sys_exit-sys_wait}
use my_kernel.Syscall.Sleep.{Sleeps, put_asleep, sys_sleep-Sleeps}

sys_yield-Yields_example :
    (g : ℕ → Process) × Yields
      (three 0x1000)
      (registers 0x1B)
      []
      (0x2000 ∷ 0x3000 ∷ [])
      (sys_yield 4 (registers 0x1B) (three 0x1000))
      g
sys_yield-Yields_example =
    sys_yield-Yields 4 (registers 0x1B) (three 0x1000) [] (0x2000 ∷ 0x3000 ∷ []) first_runs
      (omega arith)

sys_sleep-Sleeps_example :
    Sleeps 10
      (three 0x1000)
      (registers 0x1B)
      []
      (0x2000 ∷ 0x3000 ∷ [])
      (sys_sleep 4 (registers 0x1B) 3 (three 0x1000))
      (put_asleep 10 (three 0x1000))
sys_sleep-Sleeps_example =
    sys_sleep-Sleeps 4 (registers 0x1B) 3 (three 0x1000) [] (0x2000 ∷ 0x3000 ∷ []) first_runs
      (omega arith)

-- The process at 0x3000, a zombie, and the one at 0x2000 are children of the first one, at 0x1000,
-- which runs and was made when no process ran.
abbrev pub family : ℕ → Process
family a = record (process_at a) {
  parent = if a == 0x1000 then 0 else 0x1000;
  state = if a == 0x3000 then zombie else (process_at a).state;
  exit_code = 42;
}

abbrev pub with_zombie : Kernel
with_zombie = record (three 0x1000) { proc = family }

-- The process at 0x3000 runs, a child of the one at 0x2000, which is ready and a child of the
-- first one, at 0x1000.
abbrev orphan : ℕ → Process
orphan a = record (process_at a) {
  state = if a == 0x2000 then ready else blocked;
  parent = if a == 0x3000 then 0x2000 else if a == 0x2000 then 0x1000 else 0;
  pid = a;
}

abbrev with_child : Kernel
with_child = record (three 0x3000) { proc = orphan }

with_child-IsRunning : IsRunning with_child (0x1000 ∷ 0x2000 ∷ []) []
with_child-IsRunning = record { links = three-Links 0; once_before = refl; once_after = refl }

sys_exit-sys_wait_example :
    (t : Kernel) × (loaded : Registers) × (sys_exit 4 42 with_child ≡ ok (switched t loaded))
    × (t.current_process ≡ 0x2000)
    × (sys_wait 4 (registers 0x1B) t ≡ ok (collected 0x3000 42))
unfolding first_ready assign
sys_exit-sys_wait_example =
    sys_exit-sys_wait 4 42 (registers 0x1B) with_child (0x1000 ∷ 0x2000 ∷ []) [] 0x2000
      with_child-IsRunning (omega arith) refl (λ e. omega arith) (λ e. omega arith)
      (inl (λ e. omega arith), (inl (λ e. omega arith), tt)) refl
