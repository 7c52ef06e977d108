-- ===== src/Boot/Starts.antt =====
-- `kernel` of kernel/kernel.c when F10 is not pressed: which process begins.
use my_kernel.Common.{
  ℕ, ◌+◌, ◌-◌, ◌%◌, ◌^◌, ◌≤◌, ◌≡◌, ◌≢◌, refl, sym, true, false, List, [], ◌∷◌, ◌++◌, arith, ltb,
  ◌==◌, length,
}
use my_kernel.Common.Run.{ok}
use my_kernel.Pmm.Paging.{build_first_page}
use my_kernel.Pmm.Virtual.{init_virtual_allocator, allocate_page, allocate_pages_contig}
use my_kernel.Pmm.Heap.{Heap, kmalloc}
use my_kernel.Process.{Kernel}
use my_kernel.Process.Links.{Links, has}
use my_kernel.Process.Circle.{Distinct}
use my_kernel.Process.Create.{sizeof_process, create_process}
use my_kernel.Process.Created.{Created, create_process-Created}
use my_kernel.Vga.{Screen, clear_screen}
use my_kernel.Vga.Output.{text, hex, draw}
use my_kernel.Elf.Load.{Space, elf_load_file}
use my_kernel.Computer.{Computer, space_of, start_elf}
use my_kernel.Computer.Started.{create_elf_process-calls}
use my_kernel.Boot.{
  Seen, Waiting, at_ticks, key_f10, switch_rounds, switch_mode, Symbols, Boot, start, End, runs,
  restore, load, enter_user, kernel,
}
use my_kernel.Boot.Mode.{AllWait}

-- There is a block for a process, with pages for its kernel stack and its user stack.
pub record UserRoom (blocks : ℕ) (h : Heap) (pro : ℕ) (heap : Heap) (user_stack : ℕ) : Type 0 where
  pub block : kmalloc blocks sizeof_process 3 h ≡ ok (pro, heap)
  pub nonzero : pro ≢ 0
  pub stack : (allocate_pages_contig 4 3 heap.vm).0 ≢ 0
  pub user : (allocate_page 7 (allocate_pages_contig 4 3 heap.vm).1).0 ≡ user_stack
  pub user_nonzero : user_stack ≢ 0

-- The place of the first registers of a process with the kernel stack that follows `heap`.
abbrev pub place_of : Heap → ℕ
place_of heap = ((allocate_pages_contig 4 3 heap.vm).0 + 0x4000 - 68) % 2 ^ 32

abbrev pub top_of : Heap → ℕ
top_of heap = ((allocate_pages_contig 4 3 heap.vm).0 + 0x4000) % 2 ^ 32

pub user_made :
    (blocks fuel process_entry entry : ℕ) (k : Kernel) (xs : List ℕ) (pro : ℕ) (heap : Heap)
    (user_stack : ℕ)
    → Links k.proc 0 k.process_list xs
    → Distinct xs
    → length xs ≤ fuel
    → has pro xs ≡ false
    → UserRoom blocks k.heap pro heap user_stack
    → (t : Kernel) × (create_process blocks fuel process_entry entry 1 k ≡ ok (pro, t))
      × Created k xs pro (allocate_pages_contig 4 3 heap.vm).0 user_stack process_entry entry 1 t
user_made blocks fuel process_entry entry k xs pro heap user_stack l d short new r =
    let (t, e, c) =
      create_process-Created blocks fuel process_entry entry 1 k xs pro heap l d short r.block
        r.nonzero new r.stack (λ h. rw r.user r.user_nonzero) in
    (t, e, rw r.user at c)

-- A list of observations in which the time passes without F10.
pub record TimesOut (end : ℕ) (seen : List Seen) : Type 0 where
  pub before : List Seen
  pub last : Seen
  pub later : List Seen
  pub splits : seen ≡ before ++ last ∷ later
  pub waited : AllWait end before
  pub over : end ≤ last.ticks

switch_rounds-over :
    (end : ℕ) (before later : List Seen) (s : Seen)
    → AllWait end before
    → end ≤ s.ticks
    → switch_rounds end (before ++ s ∷ later) ≡ ok 1
unfolding switch_rounds
switch_rounds-over end [] later s w h = let z : ltb s.ticks end ≡ false = ground arith in rw z refl
switch_rounds-over end (x ∷ before) later s ((hx, nx), w) h =
    let y : ltb x.ticks end ≡ true = ground arith in
    let z : (x.last_key == key_f10) ≡ false = ground arith in
    rw (y, z) (switch_rounds-over end before later s w h)

pub switch_mode-over :
    (ticks : ℕ) (seen : List Seen) (s : Screen)
    → TimesOut ((ticks + 300) % 2 ^ 32) seen
    → (t : Screen) × (switch_mode ticks seen s ≡ ok (1, t))
unfolding switch_mode
switch_mode-over ticks seen s o =
    let t = draw (text "click f10 if you want to stay in the bios" ∷ []) s in
    let e = switch_rounds-over _ o.before o.later o.last o.waited o.over in
    (record t { cursor = 400; column = 0 }, rw (o.splits, e) refl)

-- The kernel behind `build_first_page`.
abbrev pub paged : Symbols → Kernel → Kernel
paged sym k =
    let vm = init_virtual_allocator sym.kernel_end k.heap.vm in
    record k {
      heap = record k.heap {
        vm = record vm { paging = build_first_page sym.page_table vm.paging };
      };
    }

-- The kernel that `create_elf_process` leaves.
abbrev pub elf_kernel : ℕ → ℕ → Space → Kernel → Computer → Kernel
elf_kernel pro entry t k c = (start_elf pro (entry, t) (record c { kernel = k })).1.kernel

abbrev pub kernel_at : ℕ → Kernel → Kernel
kernel_at ticks k = record k { ticks = ticks }

pub load-elf_kernel :
    (blocks fuel rel : ℕ) (sym : Symbols) (c : Computer) (pro : ℕ) (k : Kernel) (entry : ℕ)
    (t : Space)
    → create_process blocks fuel sym.process_entry 0 1 (paged sym c.kernel) ≡ ok (pro, k)
    → pro ≢ 0
    → elf_load_file rel sym.elf_file (space_of (record c { kernel = k })) ≡ ok (entry, t)
    → (d : Computer) × (load blocks fuel rel sym c ≡ ok d) × (d.kernel ≡ elf_kernel pro entry t k c)
unfolding load start_elf
load-elf_kernel blocks fuel rel sym c pro k entry t e nz l =
    let z : (pro == 0) ≡ false = ground arith in
    let c' = record c {
      kernel = paged sym c.kernel;
      screen = draw (text "\n" ∷ hex sym.elf_file ∷ []) c.screen;
    } in
    let f =
      create_elf_process-calls blocks fuel sym.process_entry rel sym.elf_file c' pro k entry t e nz
        l in
    let d = (start_elf pro (entry, t) (record c' { kernel = k })).1 in
    let s = draw (text "ELF process loaded successfully\n" ∷ hex pro ∷ []) d.screen in
    (record d { screen = s }, rw (f, z) refl, refl)

pub enter_runs :
    (blocks fuel : ℕ) (sym : Symbols) (d : Computer) (k t : Kernel) (next : ℕ)
    → d.kernel ≡ k
    → create_process blocks fuel sym.process_entry sym.user_main 1 k ≡ ok (next, t)
    → t.current_process ≢ 0
    → (x : Computer) × (enter_user blocks fuel sym 1 d
        ≡ ok (runs x (t.frame (t.proc t.current_process).regs)))
      × (x.kernel ≡ t)
unfolding enter_user restore
enter_runs blocks fuel sym d k t next same e nz =
    let z : (t.current_process == 0) ≡ false = ground arith in
    (record d { kernel = t; screen = clear_screen d.screen }, rw (same, e, z) refl, refl)

pub kernel-calls :
    (blocks fuel rel : ℕ) (sym : Symbols) (first second : Waiting) (b : Boot) (s1 s2 : Screen)
    (d : Computer) (e : End)
    → let c = at_ticks first.begins (start sym b).computer in
      switch_mode first.begins first.sees c.screen ≡ ok (1, s1)
      → load blocks fuel rel sym (record c { screen = s1 }) ≡ ok d
      → switch_mode second.begins second.sees d.screen ≡ ok (1, s2)
      → enter_user blocks fuel sym 1 (at_ticks second.begins (record d { screen = s2 })) ≡ ok e
      → kernel blocks fuel rel sym first second b ≡ ok (start sym b, e)
unfolding kernel
kernel-calls blocks fuel rel sym first second b s1 s2 d e m l n f = rw (m, l, n, f) refl
