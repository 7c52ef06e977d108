-- ===== src/Process/Created.antt =====
-- What `create_process` of kernel/process.c makes when there is memory for the process.
pub mod KernelMode
pub mod Examples
use my_kernel.Common.{
  ℕ, ◌+◌, ◌-◌, ◌%◌, ◌^◌, ◌≤◌, ◌<◌, ◌≡◌, ◌≢◌, refl, ap, ◌∙◌, ◌⊎◌, inl, inr, Bool, true, false, List,
  [], ◌∷◌, ◌++◌, some, arith, ◌==◌, if◌then◌else◌, length, Bool-cases,
}
use my_kernel.Common.Run.{Run, ok, ◌>>=◌}
use my_kernel.Pmm.Virtual.{allocate_page, allocate_pages_contig}
use my_kernel.Pmm.Heap.{Heap, kmalloc}
use my_kernel.Process.{ready, ProcessState, Registers, Process, Kernel, assign, add_process}
use my_kernel.Process.Links.{Links, Links-same, SameNext-assign, has}
use my_kernel.Process.Circle.{Distinct}
use my_kernel.Process.Append.{Appended, add_process-Appended}
use my_kernel.Process.Create.{
  sizeof_process, kernel_registers, user_registers, user_part, fill_process, finish_process,
  stack_part, process_part, create_process,
}

-- The registers of a process in kernel mode, that begins at `start` with its stack at `top`.
pub record BeginsKernel (start top : ℕ) (r : Registers) : Type 0 where
  pub eip : r.eip ≡ start
  pub cs : r.cs ≡ 0x08
  pub data_segments : (r.ds ≡ 0x10) × (r.es ≡ 0x10) × (r.fs ≡ 0x10) × (r.gs ≡ 0x10)
  pub eflags : r.eflags ≡ 0x202
  pub esp : r.esp ≡ top

-- The registers of a process in user mode, privilege level 3 in `cs` and `user_ss`, that begins at
-- `start` with its own stack at `user_top` and its kernel stack at `top`.
pub record BeginsUser (start top user_top : ℕ) (r : Registers) : Type 0 where
  pub eip : r.eip ≡ start
  pub cs : r.cs ≡ 0x18 + 3
  pub data_segments : (r.ds ≡ 0x23) × (r.es ≡ 0x23) × (r.fs ≡ 0x23) × (r.gs ≡ 0x23)
  pub user_ss : r.user_ss ≡ 0x20 + 3
  pub eflags : r.eflags ≡ 0x202
  pub esp : r.esp ≡ top
  pub user_esp : r.user_esp ≡ user_top

kernel_registers-BeginsKernel :
    (start top : ℕ) → BeginsKernel start top (kernel_registers start top)
unfolding kernel_registers
kernel_registers-BeginsKernel start top = record {
  eip = refl;
  cs = refl;
  data_segments = (refl, refl, refl, refl);
  eflags = refl;
  esp = refl;
}

pub user_registers-BeginsUser :
    (entry top user_stack : ℕ)
    → BeginsUser entry top ((user_stack + 4096) % 2 ^ 32) (user_registers entry top user_stack)
unfolding user_registers
user_registers-BeginsUser entry top user_stack = record {
  eip = refl;
  cs = refl;
  data_segments = (refl, refl, refl, refl);
  user_ss = refl;
  eflags = refl;
  esp = refl;
  user_esp = refl;
}

-- The new process `pro` of `t`, behind the processes `xs` of `k`, with its kernel stack at `stack`.
pub record Created (k : Kernel) (xs : List ℕ) (pro stack user_stack process_entry entry mode : ℕ)
    (t : Kernel) : Type 0 where
  pub links : Links t.proc 0 t.process_list (xs ++ pro ∷ [])
  pub others :
      (q : ℕ) → q ≢ pro → (t.proc q ≡ k.proc q) ⊎ (t.proc q ≡ record (k.proc q) { next = pro })
  pub state : (t.proc pro).state ≡ ready
  pub pid : (t.proc pro).pid ≡ k.process_number
  pub parent : (t.proc pro).parent ≡ k.current_process
  pub stacks :
      ((t.proc pro).kernel_stack ≡ stack)
      × ((t.proc pro).kernel_stack_to ≡ (stack + 0x4000) % 2 ^ 32)
      × (mode ≡ 1 → (t.proc pro).user_stack ≡ user_stack)
  pub saved_at : (t.proc pro).regs ≡ (stack + 0x4000 - 68) % 2 ^ 32
  pub begins : t.frame (t.proc pro).regs ≡ (
      if mode == 0
      then kernel_registers process_entry ((stack + 0x4000) % 2 ^ 32)
      else user_registers entry ((stack + 0x4000) % 2 ^ 32) user_stack)
  pub in_kernel :
      mode ≡ 0 → BeginsKernel process_entry ((stack + 0x4000) % 2 ^ 32) (t.frame (t.proc pro).regs)
  pub in_user :
      mode ≢ 0
      → BeginsUser entry
          ((stack + 0x4000) % 2 ^ 32)
          ((user_stack + 4096) % 2 ^ 32)
          (t.frame (t.proc pro).regs)
  pub frames : (a : ℕ) → a ≢ (stack + 0x4000 - 68) % 2 ^ 32 → t.frame a ≡ k.frame a
  pub number : t.process_number ≡ (k.process_number + 1) % 2 ^ 16
  pub runs :
      ((xs ≡ []) × (t.current_process ≡ pro))
      ⊎ ((xs ≢ []) × (t.current_process ≡ k.current_process))

module _ (fuel process_entry entry mode pro stack user_stack : ℕ) (k : Kernel) (xs : List ℕ)
    (links : Links k.proc 0 k.process_list xs) (distinct : Distinct xs) (new : has pro xs ≡ false)
    (nonzero : pro ≢ 0) (enough : length xs ≤ fuel) where
  abbrev filled : Process
  filled = record (k.proc pro) {
    user_stack = if mode == 1 then user_stack else (k.proc pro).user_stack;
    regs = (stack + 0x4000 - 68) % 2 ^ 32;
    kernel_stack = stack;
    kernel_stack_to = (stack + 0x4000) % 2 ^ 32;
    pid = k.process_number;
    state = ready;
    wake = 0;
    next = 0;
    entry = entry;
    parent = k.current_process;
  }

  finish_process-Created :
      (t : Kernel) × (finish_process fuel process_entry entry mode pro stack (some user_stack, k)
        ≡ ok (pro, t))
      × Created k xs pro stack user_stack process_entry entry mode t
  unfolding finish_process fill_process assign
  finish_process-Created =
      let u = fill_process process_entry entry mode pro stack user_stack k in
      let l =
        Links-same xs k.proc (assign k.proc pro filled) 0 k.process_list
          (SameNext-assign xs k.proc pro filled new) links in
      let (t, e, a, o) = add_process-Appended fuel pro u xs l distinct new nonzero enough in
      let s : (pro == pro) ≡ true = ground arith in
      let frame : t.frame ≡ u.frame = elim o [
        | inl h ↦ ap (λ (v : Kernel). v.frame) h.1
        | inr h ↦ ap (λ (v : Kernel). v.frame) h.1
      ] in
      let place = (stack + 0x4000 - 68) % 2 ^ 32 in
      let same : (place == place) ≡ true = ground arith in
      let p : t.proc pro ≡ filled = a.others pro new ∙ rw s refl in
      let r : (t.proc pro).regs ≡ place = ap (λ (v : Process). v.regs) p in
      let top = (stack + 0x4000) % 2 ^ 32 in
      let first : t.frame (t.proc pro).regs ≡ (
          if mode == 0
          then kernel_registers process_entry top
          else user_registers entry top user_stack) =
        ap (λ (f : ℕ → Registers). f (t.proc pro).regs) frame ∙ ap u.frame r ∙ rw same refl in
      (
        t,
        rw e refl,
        record {
          links = a.links;
          others = λ q n.
              let m : (q == pro) ≡ false = ground arith in
              elim (a.fields q) [ inl h ↦ inl (h ∙ rw m refl) | inr h ↦ inr (h ∙ rw m refl) ];
          state = ap (λ (r : Process). r.state) p;
          pid = ap (λ (r : Process). r.pid) p;
          parent = ap (λ (r : Process). r.parent) p;
          stacks = (
            ap (λ (r : Process). r.kernel_stack) p,
            ap (λ (r : Process). r.kernel_stack_to) p,
            λ one. ap (λ (r : Process). r.user_stack) p ∙ ground arith,
          );
          saved_at = r;
          begins = first;
          in_kernel = λ z.
              let y : (mode == 0) ≡ true = ground arith in
              rw (first, y) (kernel_registers-BeginsKernel process_entry top);
          in_user = λ n.
              let y : (mode == 0) ≡ false = ground arith in
              rw (first, y) (user_registers-BeginsUser entry top user_stack);
          frames = λ a n.
              let m : (a == place) ≡ false = ground arith in
              ap (λ (f : ℕ → Registers). f a) frame ∙ rw m refl;
          number = elim o [
            | inl h ↦ ap (λ (v : Kernel). v.process_number) h.1
            | inr h ↦ ap (λ (v : Kernel). v.process_number) h.1
          ];
          runs = elim o [
            | inl h ↦ inl (h.0, ap (λ (v : Kernel). v.current_process) h.1)
            | inr h ↦ inr (h.0, ap (λ (v : Kernel). v.current_process) h.1)
          ];
        },
      )

-- The heap of the kernel makes no difference.
Created-heap :
    (h : Heap) (k : Kernel) (xs : List ℕ) (pro stack user_stack process_entry entry mode : ℕ)
    (t : Kernel)
    → Created (record k { heap = h }) xs pro stack user_stack process_entry entry mode t
    → Created k xs pro stack user_stack process_entry entry mode t
Created-heap h k xs pro stack user_stack process_entry entry mode t c = record {
  links = c.links;
  others = c.others;
  state = c.state;
  pid = c.pid;
  parent = c.parent;
  stacks = c.stacks;
  saved_at = c.saved_at;
  begins = c.begins;
  in_kernel = c.in_kernel;
  in_user = c.in_user;
  frames = c.frames;
  number = c.number;
  runs = c.runs;
}

-- The stack of a process in user mode, if there is a page for it.
user_part-some :
    (blocks mode pro stack : ℕ) (k : Kernel)
    → (mode ≡ 1 → (allocate_page 7 k.heap.vm).0 ≢ 0)
    → (h : Heap) × (user_part blocks mode pro stack k
        ≡ ok (some (if mode == 1 then (allocate_page 7 k.heap.vm).0 else 0), record k { heap = h }))
unfolding user_part
user_part-some blocks mode pro stack k there = elim (Bool-cases (mode == 1)) [
  | inl y ↦
      let z : ((allocate_page 7 k.heap.vm).0 == 0) ≡ false = ground (arith, there (ground arith)) in
      (record k.heap { vm = (allocate_page 7 k.heap.vm).1 }, rw (y, z) refl)
  | inr n ↦ (k.heap, rw n refl)
]

-- With the processes in a list without repetition and fuel for each: when `kmalloc` gives a place
-- `pro` that is not in the list, and there are pages for the kernel stack and, in user mode, for
-- the user stack, `create_process` ends. The process is ready, stands behind the others with the
-- next number and the current process as its parent. In kernel mode it begins at `process_entry` in
-- ring 0 on its kernel stack, in user mode at `entry` in ring 3 at the top of its user stack, with
-- interrupts on. No field of another process but `next` changes, nor do other saved registers; the first process
-- becomes the current one.
pub create_process-Created :
    (blocks fuel process_entry entry mode : ℕ) (k : Kernel) (xs : List ℕ) (pro : ℕ) (heap : Heap)
    → Links k.proc 0 k.process_list xs
    → Distinct xs
    → length xs ≤ fuel
    → kmalloc blocks sizeof_process 3 k.heap ≡ ok (pro, heap)
    → pro ≢ 0
    → has pro xs ≡ false
    → (allocate_pages_contig 4 3 heap.vm).0 ≢ 0
    → (mode ≡ 1 → (allocate_page 7 (allocate_pages_contig 4 3 heap.vm).1).0 ≢ 0)
    → (t : Kernel) × (create_process blocks fuel process_entry entry mode k ≡ ok (pro, t))
      × Created k xs pro
          (allocate_pages_contig 4 3 heap.vm).0
          (if mode == 1 then (allocate_page 7 (allocate_pages_contig 4 3 heap.vm).1).0 else 0)
          process_entry
          entry
          mode
          t
unfolding create_process process_part stack_part
create_process-Created blocks fuel process_entry entry mode k xs pro heap l d enough m nz out there
      user =
    let stack = allocate_pages_contig 4 3 heap.vm in
    let u = record k { heap = record heap { vm = stack.1 } } in
    let (h, e) = user_part-some blocks mode pro stack.0 u user in
    let (t, f, c) =
      finish_process-Created fuel process_entry entry mode pro stack.0
        (if mode == 1 then (allocate_page 7 stack.1).0 else 0) (record u { heap = h }) xs l d out nz
        enough in
    let x : (pro == 0) ≡ false = ground arith in
    let y : (stack.0 == 0) ≡ false = ground arith in
    (t, rw (m, x, y, e) f, Created-heap h k xs pro stack.0 _ process_entry entry mode t c)
