-- ===== src/Process/Create.antt =====
-- `create_process` of kernel/process.c. The first fuel is that of the walks over the heap, the
-- second that of the walk over the processes; `process_entry` is the address of that function.
use my_kernel.Common.{ℕ, ◌+◌, ◌-◌, ◌%◌, ◌^◌, Option, none, some, ◌==◌, if◌then◌else◌}
use my_kernel.Common.Run.{Run, ok, ◌>>=◌, or_fault}
use my_kernel.Pmm.Virtual.{allocate_page, allocate_pages_contig, free_page}
use my_kernel.Pmm.Heap.{Heap, kmalloc, kfree}
use my_kernel.Process.{ready, Registers, Kernel, assign, add_process}

abbrev pub sizeof_process : ℕ
sizeof_process = 48

abbrev pub sizeof_registers : ℕ
sizeof_registers = 68

abbrev pub kernel_stack_size : ℕ
kernel_stack_size = 0x4000

-- `memset(regs, 0, sizeof(registers_t))`
abbrev pub zeroed : Registers
zeroed = record {
  gs = 0;
  fs = 0;
  es = 0;
  ds = 0;
  edi = 0;
  esi = 0;
  ebp = 0;
  esp = 0;
  ebx = 0;
  edx = 0;
  ecx = 0;
  eax = 0;
  eip = 0;
  cs = 0;
  eflags = 0;
  user_esp = 0;
  user_ss = 0;
}

-- The first registers of a process in kernel mode, with its kernel stack ending at `top`.
unfoldable pub kernel_registers : ℕ → ℕ → Registers
kernel_registers process_entry top = record zeroed {
  gs = 0x10;
  fs = 0x10;
  es = 0x10;
  ds = 0x10;
  eip = process_entry;
  cs = 0x08;
  eflags = 0x202;
  esp = top;
}

unfoldable pub user_registers : ℕ → ℕ → ℕ → Registers
user_registers entry top user_stack = record zeroed {
  gs = 0x23;
  fs = 0x23;
  es = 0x23;
  ds = 0x23;
  eip = entry;
  cs = 0x1B;
  eflags = 0x202;
  esp = top;
  user_esp = (user_stack + 4096) % 2 ^ 32;
  user_ss = 0x23;
}

-- The user stack, 0 for a process in kernel mode. Without memory for it the kernel stack and the
-- process are given back, and there is no result.
unfoldable pub user_part : ℕ → ℕ → ℕ → ℕ → Kernel → Run (Option ℕ × Kernel)
user_part blocks mode pro kernel_stack k =
    let (user_stack, vm) = allocate_page 7 k.heap.vm in
    let t = record k { heap = record k.heap { vm = vm } } in
    let undo = (do
      vm' ← or_fault (free_page kernel_stack vm)
      heap ← kfree blocks pro (record k.heap { vm = vm' })
      ok (none, record k { heap = heap })) in
    if mode == 1
    then (if user_stack == 0 then undo else ok (some user_stack, t))
    else ok (some 0, k)

-- The new process and its registers, in their places.
unfoldable pub fill_process : ℕ → ℕ → ℕ → ℕ → ℕ → ℕ → Kernel → Kernel
unfolding kernel_registers user_registers assign
fill_process process_entry entry mode pro kernel_stack user_stack k =
    let top = (kernel_stack + kernel_stack_size) % 2 ^ 32 in
    let regs = (kernel_stack + kernel_stack_size - sizeof_registers) % 2 ^ 32 in
    let old = k.proc pro in
    record k {
      proc = assign k.proc pro (record old {
        user_stack = if mode == 1 then user_stack else old.user_stack;
        regs = regs;
        kernel_stack = kernel_stack;
        kernel_stack_to = top;
        pid = k.process_number;
        state = ready;
        wake = 0;
        next = 0;
        entry = entry;
        parent = k.current_process;
      });
      frame = assign k.frame regs (
          if mode == 0
          then kernel_registers process_entry top
          else user_registers entry top user_stack);
      process_number = (k.process_number + 1) % 2 ^ 16;
    }

-- `create_process` behind the allocation of the user stack.
unfoldable pub finish_process : ℕ → ℕ → ℕ → ℕ → ℕ → ℕ → Option ℕ × Kernel → Run (ℕ × Kernel)
unfolding fill_process
finish_process fuel process_entry entry mode pro kernel_stack (none, k) = ok (0, k)
finish_process fuel process_entry entry mode pro kernel_stack (some user_stack, k) = do
  t ← add_process fuel pro (fill_process process_entry entry mode pro kernel_stack user_stack k)
  ok (pro, t)

-- `create_process` behind the allocation of the kernel stack.
unfoldable pub stack_part : ℕ → ℕ → ℕ → ℕ → ℕ → ℕ → ℕ → Kernel → Run (ℕ × Kernel)
unfolding user_part finish_process
stack_part blocks fuel process_entry entry mode pro kernel_stack k =
    let give_back = (do heap ← kfree blocks pro k.heap; ok (0, record k { heap = heap })) in
    let go_on = (do
      part ← user_part blocks mode pro kernel_stack k
      finish_process fuel process_entry entry mode pro kernel_stack part) in
    if kernel_stack == 0 then give_back else go_on

-- `create_process` behind the call of `kmalloc`.
unfoldable pub process_part : ℕ → ℕ → ℕ → ℕ → ℕ → ℕ × Heap → Kernel → Run (ℕ × Kernel)
unfolding stack_part
process_part blocks fuel process_entry entry mode (pro, heap) k =
    let (kernel_stack, vm) = allocate_pages_contig 4 3 heap.vm in
    let t = record k { heap = record heap { vm = vm } } in
    let go_on = stack_part blocks fuel process_entry entry mode pro kernel_stack t in
    if pro == 0 then ok (0, record k { heap = heap }) else go_on

unfoldable pub create_process : ℕ → ℕ → ℕ → ℕ → ℕ → Kernel → Run (ℕ × Kernel)
unfolding process_part
create_process blocks fuel process_entry entry mode k = do
  new ← kmalloc blocks sizeof_process 3 k.heap
  process_part blocks fuel process_entry entry mode new k
