-- ===== src/Boot/Runs.antt =====
-- The process in which `kernel` of kernel/kernel.c ends when F10 is not pressed.
use my_kernel.Common.{ℕ, ◌+◌, ◌%◌, ◌^◌, ◌≤◌, ◌≡◌, ◌≢◌, refl, ap, ◌∙◌, List, [], ◌∷◌, arith}
use my_kernel.Common.Run.{Run, ok}
use my_kernel.Pmm.Heap.{Heap}
use my_kernel.Process.{ready, Registers, Kernel}
use my_kernel.Process.Created.{BeginsUser, user_registers-BeginsUser}
use my_kernel.Elf.Load.{Space}
use my_kernel.Computer.{Computer, start_elf, user_stack_top}
use my_kernel.System.{Event, Machine, machine_kernel, runs as going, run}
use my_kernel.System.Sound.{Sound}
use my_kernel.System.Run.{run-Sound}
use my_kernel.Boot.{Waiting, at_ticks, Symbols, Boot, start, End, runs, kernel}
use my_kernel.Boot.Starts.{
  kernel_at, top_of, switch_mode-over, elf_kernel, load-elf_kernel, enter_runs, kernel-calls,
}
use my_kernel.Boot.Made.{Boots, elf_registers, user_main_made}

Sound-of : (k u : Kernel) (xs : List ℕ) → k ≡ u → Sound u xs → Sound k xs
Sound-of k u xs e s = rw e s

BeginsUser-of :
    (k u : Kernel) (p entry top user_top : ℕ)
    → k ≡ u
    → BeginsUser entry top user_top (u.frame (u.proc p).regs)
    → BeginsUser entry top user_top (k.frame (k.proc p).regs)
BeginsUser-of k u p entry top user_top e s = rw e s

elf_registers-BeginsUser :
    (entry stack : ℕ) (heap : Heap)
    → BeginsUser entry (top_of heap) user_stack_top (elf_registers entry heap stack)
elf_registers-BeginsUser entry stack heap =
    let u = user_registers-BeginsUser 0 (top_of heap) stack in
    record {
      eip = refl;
      cs = u.cs;
      data_segments = u.data_segments;
      user_ss = u.user_ss;
      eflags = u.eflags;
      esp = u.esp;
      user_esp = refl;
    }

-- No process there yet, F10 not pressed in either wait, memory at different places for two processes,
-- and the load of the ELF file at an end: then `kernel` ends in the process of the file, at the
-- entry point that the load gave, 0 included, in ring 3 on the common user stack. The process of
-- `user_main` is ready behind it, at its entry point in ring 3. Every sequence of timer interrupts, yields, sleeps and exits that
-- follows runs through, or to the halt, without a fault.
pub kernel-Runs :
    (blocks fuel rel : ℕ) (names : Symbols) (first second : Waiting) (b : Boot) (pro : ℕ)
    (heap1 : Heap) (stack1 : ℕ) (k : Kernel) (entry : ℕ) (t : Space) (next : ℕ) (heap2 : Heap)
    (stack2 : ℕ) (es : List Event)
    → 1 ≤ fuel
    → Boots blocks fuel rel names first second
        (at_ticks first.begins b.computer)
        pro
        heap1
        stack1
        k
        entry
        t
        next
        heap2
        stack2
    → (d : Computer) × (kernel blocks fuel rel names first second b
        ≡ ok (start names b, runs d (elf_registers entry heap1 stack1)))
      × BeginsUser entry (top_of heap1) user_stack_top (elf_registers entry heap1 stack1)
      × (d.kernel.current_process ≡ pro)
      × Sound d.kernel (pro ∷ next ∷ [])
      × ((d.kernel.proc next).state ≡ ready)
      × BeginsUser names.user_main
          (top_of heap2)
          ((stack2 + 4096) % 2 ^ 32)
          (d.kernel.frame (d.kernel.proc next).regs)
      × ((m : Machine) × (run 3 es (going d.kernel) ≡ ok m)
          × Sound (machine_kernel m) (pro ∷ next ∷ []))
unfolding start start_elf
kernel-Runs blocks fuel rel names first second b pro heap1 stack1 k entry t next heap2 stack2 es
      enough h =
    let boots = at_ticks first.begins b.computer in
    let c = at_ticks first.begins (start names b).computer in
    let (u, fu, y, sound, at, regs) =
      user_main_made blocks fuel rel names first second boots pro heap1 stack1 k entry t next heap2
        stack2 enough h in
    let (s1, m1) = switch_mode-over first.begins first.sees c.screen h.early in
    let (d, l, q) =
      load-elf_kernel blocks fuel rel names (record c { screen = s1 }) pro k entry t h.made
        h.room1.nonzero h.loaded in
    let (s2, m2) = switch_mode-over second.begins second.sees d.screen h.late in
    let nz : u.current_process ≢ 0 = rw at h.room1.nonzero in
    let (x, f, same) =
      enter_runs blocks fuel names (at_ticks second.begins (record d { screen = s2 }))
        (kernel_at second.begins (elf_kernel pro entry t k boots)) u next
        (ap (kernel_at second.begins) q) fu nz in
    let e = kernel-calls blocks fuel rel names first second b s1 s2 d _ m1 l m2 f in
    let regs' : u.frame (u.proc u.current_process).regs ≡ elf_registers entry heap1 stack1 =
      ap (λ (a : ℕ). u.frame (u.proc a).regs) at ∙ regs in
    let here = Sound-of x.kernel u (pro ∷ next ∷ []) same sound in
    let result : (r : Registers) → Run (Boot × End) = λ r. ok (start names b, runs x r) in
    (
      x,
      e ∙ ap result regs',
      elf_registers-BeginsUser entry stack1 heap1,
      ap (λ (v : Kernel). v.current_process) same ∙ at,
      here,
      ap (λ (v : Kernel). (v.proc next).state) same ∙ y.state,
      BeginsUser-of x.kernel u next _ _ _ same (y.in_user (λ z. omega arith)),
      run-Sound 3 es (going x.kernel) (pro ∷ next ∷ []) here (omega arith),
    )
