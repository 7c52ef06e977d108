-- ===== src/Process.antt =====
-- Processes and the scheduler: kernel/process.h and kernel/process.c. A process is found by the
-- address of its `process_t`, its saved registers by the address in `regs`; 0 is `NULL`. The walks
-- along `next` take fuel.
pub mod Links
pub mod Schedule
pub mod Wake
pub mod ExitProcess
pub mod Context
pub mod Append
pub mod Create
pub mod Created
pub mod Remove
pub mod Circle
pub mod Examples
use Prim.Native.Nat.{bit_and}
use Prim.Native.String.{String}
use my_kernel.Common.{
  ℕ, zero, suc, ◌+◌, ◌-◌, ◌*◌, ◌/◌, ◌%◌, ◌^◌, ◌≡◌, Bool, true, false, ◌&&◌, ◌||◌, leb, ◌==◌,
  if◌then◌else◌,
}
use my_kernel.Common.Run.{Run, ok, fault, out_of_fuel, ◌>>=◌, or_fault}
use my_kernel.Pmm.Virtual.{Vm, free_page}
use my_kernel.Pmm.Heap.{Heap, kfree}

pub data ProcessState : Type 0 where
  ready running blocked terminated zombie : ProcessState

pub record Registers : Type 0 where
  pub gs : ℕ
  pub fs : ℕ
  pub es : ℕ
  pub ds : ℕ
  pub edi : ℕ
  pub esi : ℕ
  pub ebp : ℕ
  pub esp : ℕ
  pub ebx : ℕ
  pub edx : ℕ
  pub ecx : ℕ
  pub eax : ℕ
  pub eip : ℕ
  pub cs : ℕ
  pub eflags : ℕ
  pub user_esp : ℕ
  pub user_ss : ℕ

pub record Process : Type 0 where
  pub pid : ℕ
  pub page_directory : ℕ
  pub kernel_stack : ℕ
  pub kernel_stack_to : ℕ
  pub regs : ℕ
  pub state : ProcessState
  pub exit_code : ℕ
  pub entry : ℕ
  pub wake : ℕ
  pub next : ℕ
  pub parent : ℕ
  pub user_stack : ℕ

-- `frame` holds the saved registers, `esp0` is the field of the task state segment.
pub record Kernel : Type 0 where
  pub heap : Heap
  pub proc : ℕ → Process
  pub frame : ℕ → Registers
  pub process_list : ℕ
  pub current_process : ℕ
  pub process_number : ℕ
  pub ticks : ℕ
  pub esp0 : ℕ

abbrev pub is_ready : ProcessState → Bool
is_ready ready = true
is_ready _ = false

abbrev pub is_blocked : ProcessState → Bool
is_blocked blocked = true
is_blocked _ = false

-- `*p = v`
unfoldable pub assign : {A : Type 0} → (ℕ → A) → ℕ → A → ℕ → A
assign f p v q = if q == p then v else f q

abbrev pub with_state : ProcessState → Process → Process
with_state state p = record p { state = state }

-- The walk of `add_process` to the last process, and its write.
unfoldable pub append_from : ℕ → ℕ → ℕ → (ℕ → Process) → Run (ℕ → Process)
unfolding assign
append_from zero pro current proc = out_of_fuel
append_from (suc fuel) pro current proc =
    let rest = append_from fuel pro (proc current).next proc in
    if (proc current).next == 0
    then ok (assign proc current (record (proc current) { next = pro }))
    else rest

unfoldable pub add_process : ℕ → ℕ → Kernel → Run Kernel
unfolding append_from assign
add_process fuel pro k =
    let proc = assign k.proc pro (record (k.proc pro) { next = 0 }) in
    if k.process_list == 0
    then ok (record k { proc = proc; process_list = pro; current_process = pro })
    else do proc' ← append_from fuel pro k.process_list proc; ok (record k { proc = proc' })

pub remove_process : ℕ → ℕ → Kernel → Run Kernel
remove_process fuel pro k = do
  vm ← or_fault (free_page (k.proc pro).kernel_stack k.heap.vm)
  heap ← kfree fuel pro (record k.heap { vm = vm })
  ok (record k { heap = heap })

-- The walk of `remove_process_list` from `current` on, whose predecessor is `previous`. The first
-- fuel is that of `kfree`.
pub unlink_from : ℕ → ℕ → ℕ → ℕ → ℕ → Kernel → Run Kernel
unfolding assign remove_process
unlink_from blocks zero pro current previous k = out_of_fuel
unlink_from blocks (suc fuel) pro current previous k =
    let rest = unlink_from blocks fuel pro (k.proc current).next current k in
    let after = (k.proc current).next in
    if current == 0
    then ok k
    else if current == pro
    then (if previous == 0
        then remove_process blocks current (record k { process_list = after })
        else remove_process blocks current (record k {
          proc = assign k.proc previous (record (k.proc previous) { next = after });
        }))
    else rest

pub remove_process_list : ℕ → ℕ → ℕ → Kernel → Run Kernel
unfolding unlink_from
remove_process_list blocks fuel pro k = unlink_from blocks fuel pro k.process_list 0 k

-- The walk of `find_process` and of `is_valid_process_ptr`.
pub find_from : ℕ → ℕ → ℕ → (ℕ → Process) → Run Bool
find_from zero pro current proc = out_of_fuel
find_from (suc fuel) pro current proc =
    let rest = find_from fuel pro (proc current).next proc in
    if current == 0 then ok false else if current == pro then ok true else rest

pub find_process : ℕ → ℕ → Kernel → Run ℕ
unfolding find_from
find_process fuel pro k = do
  there ← find_from fuel pro k.process_list k.proc
  ok (if there then pro else 0)

pub is_valid_process_ptr : ℕ → ℕ → Kernel → Run ℕ
unfolding find_from
is_valid_process_ptr fuel pro k = do
  there ← find_from fuel pro k.process_list k.proc
  ok (if there then 1 else 0)

pub save_registers : Registers → Registers → Registers
save_registers old r =
    let user = bit_and r.cs 3 == 3 in
    record r {
      user_esp = if user then r.user_esp else old.user_esp;
      user_ss = if user then r.user_ss else old.user_ss;
    }

pub save_context : Registers → Kernel → Kernel
unfolding save_registers assign
save_context r k =
    let p = (k.proc k.current_process).regs in
    if k.current_process == 0 || p == 0
    then k
    else record k { frame = assign k.frame p (save_registers (k.frame p) r) }

-- `context_switch` up to `restore_esp`, which loads the registers that are the second result.
pub context_switch : Registers → ℕ → Kernel → Kernel × Registers
unfolding save_context
context_switch r next k =
    let s = save_context r k in
    let t = record s { current_process = next; esp0 = (s.proc next).kernel_stack_to } in
    (t, t.frame (t.proc next).regs)

-- The loops of `schedule`: to the end of the list, and to the process `stop`.
pub ready_to_end : ℕ → ℕ → (ℕ → Process) → Run ℕ
ready_to_end zero next proc = out_of_fuel
ready_to_end (suc fuel) next proc =
    let rest = ready_to_end fuel (proc next).next proc in
    if next == 0 then ok 0 else if is_ready (proc next).state then ok next else rest

pub ready_to : ℕ → ℕ → ℕ → (ℕ → Process) → Run ℕ
ready_to zero stop next proc = out_of_fuel
ready_to (suc fuel) stop next proc =
    let rest = ready_to fuel stop (proc next).next proc in
    if next == stop
    then ok 0
    else if next == 0
    then fault
    else if is_ready (proc next).state
    then ok next
    else rest

pub schedule : ℕ → Kernel → Run ℕ
unfolding ready_to_end ready_to
schedule fuel k = if k.current_process == 0 then fault else do
  next ← ready_to_end fuel (k.proc k.current_process).next k.proc
  if next == 0 then ready_to fuel k.current_process k.process_list k.proc else ok next

-- `a >= b` of two 32-bit `int`s, given by their bits.
unfoldable pub int_ge : ℕ → ℕ → Bool
int_ge a b = leb ((b + 2 ^ 31) % 2 ^ 32) ((a + 2 ^ 31) % 2 ^ 32)

-- One round of `wake_processes`.
pub wake : ℕ → Process → Process
unfolding int_ge
wake ticks p = if is_blocked p.state && int_ge ticks p.wake then with_state ready p else p

pub wake_from : ℕ → ℕ → ℕ → (ℕ → Process) → Run (ℕ → Process)
unfolding assign wake
wake_from zero ticks p proc = out_of_fuel
wake_from (suc fuel) ticks p proc =
    let rest = wake_from fuel ticks (proc p).next (assign proc p (wake ticks (proc p))) in
    if p == 0 then ok proc else rest

pub wake_processes : ℕ → Kernel → Run Kernel
unfolding wake_from
wake_processes fuel k = do
  proc ← wake_from fuel k.ticks k.process_list k.proc
  ok (record k { proc = proc })

-- How `exit_process` leaves the processor: in another process, or halted after the message.
pub data Exit : Type 0 where
  switched : Kernel → Registers → Exit
  halted : Kernel → Exit

pub exit_process : ℕ → Kernel → Run Exit
unfolding assign
exit_process fuel k =
    let dead = k.current_process in
    let proc = assign k.proc dead (with_state zombie (k.proc dead)) in
    let parent = (proc dead).parent in
    let proc' = if parent == 0 then proc else assign proc parent (with_state ready (proc parent)) in
    let t = record k { proc = proc' } in
    if dead == 0 then fault else do
      next ← schedule fuel t
      ok (
          if next == 0 || next == dead
          then halted t
          else let u = record t { current_process = next } in
            switched u (u.frame (u.proc next).regs))
