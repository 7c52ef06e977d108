-- ===== src/Process/Examples.antt =====
-- Tests of kernel/process.c on three processes: the one at 0x1000 runs, the one at 0x2000 waits for
-- tick 5, the one at 0x3000 is its child.
use my_kernel.Common.{ℕ, ◌+◌, ◌*◌, ◌/◌, ◌≡◌, refl, [], ◌∷◌, ◌==◌, arith, if◌then◌else◌}
use my_kernel.Common.Run.{ok}
use my_kernel.Pmm.Paging.Examples.{blank}
use my_kernel.Pmm.Virtual.Examples.{vm_with}
use my_kernel.Pmm.Heap.{page_block}
use my_kernel.Process.{
  ProcessState, ready, blocked, Registers, Process, Kernel, save_context, context_switch, schedule,
  wake_processes, exit_process,
}
use my_kernel.Process.Links.{Links}
use my_kernel.Process.Schedule.{IsRunning, first_ready, schedule-first_ready}
use my_kernel.Process.Wake.{Wakes, wake_processes-Wakes}
use my_kernel.Process.ExitProcess.{Exits, exit_process-Exits}
use my_kernel.Process.Context.{resume}

abbrev pub registers : ℕ → Registers
registers cs = record {
  gs = 0x23;
  fs = 0x23;
  es = 0x23;
  ds = 0x23;
  edi = 1;
  esi = 2;
  ebp = 3;
  esp = 4;
  ebx = 5;
  edx = 6;
  ecx = 7;
  eax = 8;
  eip = 0x500000;
  cs = cs;
  eflags = 0x202;
  user_esp = 0x600000;
  user_ss = 0x23;
}

abbrev pub state_at : ℕ → ProcessState
state_at a = if a == 0x2000 then blocked else ready

abbrev pub next_at : ℕ → ℕ
next_at a = if a == 0x1000 then 0x2000 else if a == 0x2000 then 0x3000 else 0

abbrev pub parent_at : ℕ → ℕ
parent_at a = if a == 0x3000 then 0x2000 else 0

abbrev pub process_at : ℕ → Process
process_at a = record {
  pid = a / 0x1000;
  page_directory = 0;
  kernel_stack = a * 0x10;
  kernel_stack_to = a * 0x10 + 0x4000;
  regs = a * 0x10 + 0x3FBC;
  state = state_at a;
  exit_code = 0;
  entry = 0x500000;
  wake = 5;
  next = next_at a;
  parent = parent_at a;
  user_stack = 0;
}

abbrev pub three : ℕ → Kernel
three current = record {
  heap = record { vm = vm_with 0 blank; block = λ a. page_block; heap_head = 0; current_block = 0 };
  proc = process_at;
  frame = λ a. registers 0x1B;
  process_list = 0x1000;
  current_process = current;
  process_number = 4;
  ticks = 7;
  esp0 = 0x14000;
}

pub three-Links : (current : ℕ) → Links process_at 0 0x1000 (0x1000 ∷ 0x2000 ∷ 0x3000 ∷ [])
three-Links current =
    (refl, λ e. omega arith, (refl, λ e. omega arith, (refl, λ e. omega arith, refl)))

pub first_runs : IsRunning (three 0x1000) [] (0x2000 ∷ 0x3000 ∷ [])
first_runs = record { links = three-Links 0; once_before = refl; once_after = refl }

last_runs : IsRunning (three 0x3000) (0x1000 ∷ 0x2000 ∷ []) []
last_runs = record { links = three-Links 0; once_before = refl; once_after = refl }

schedule-first_ready_example :
    schedule 4 (three 0x1000) ≡ ok (first_ready process_at (0x2000 ∷ 0x3000 ∷ []))
schedule-first_ready_example =
    schedule-first_ready 4 (three 0x1000) [] (0x2000 ∷ 0x3000 ∷ []) first_runs (omega arith)

wake_processes-Wakes_example :
    (g : ℕ → Process) × (wake_processes 4 (three 0x1000) ≡ ok (record (three 0x1000) { proc = g }))
    × Wakes 7 (0x1000 ∷ 0x2000 ∷ 0x3000 ∷ []) process_at g
    × Links g 0 0x1000 (0x1000 ∷ 0x2000 ∷ 0x3000 ∷ [])
wake_processes-Wakes_example =
    wake_processes-Wakes 4 (three 0x1000) (0x1000 ∷ 0x2000 ∷ 0x3000 ∷ []) (three-Links 0)
      (omega arith) (omega arith) (λ q. omega arith)

exit_process-Exits_example :
    Exits (three 0x3000) (0x1000 ∷ 0x2000 ∷ []) [] (exit_process 4 (three 0x3000))
exit_process-Exits_example =
    exit_process-Exits 4 (three 0x3000) (0x1000 ∷ 0x2000 ∷ []) [] last_runs (omega arith)
      (λ e. omega arith)

abbrev switched_away : Kernel
switched_away = (context_switch (registers 0x1B) 0x3000 (three 0x1000)).0

switched_proc : switched_away.proc ≡ process_at
unfolding context_switch save_context
switched_proc = refl

switched_current : switched_away.current_process ≡ 0x3000
unfolding context_switch
switched_current = refl

resume_example : (context_switch (registers 0x08) 0x1000 switched_away).1 ≡ registers 0x1B
resume_example =
    resume (registers 0x1B) (registers 0x08) 0x3000 (three 0x1000) switched_away (λ e. omega arith)
      (λ e. omega arith) refl switched_proc refl
      (rw (switched_proc, switched_current) (λ e. omega arith))
