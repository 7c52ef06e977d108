-- ===== src/Boot/Examples.antt =====
-- Tests of the start of the kernel in kernel/kernel.c.
use my_kernel.Common.{ℕ, ◌≡◌, refl, [], ◌∷◌, List, arith}
use my_kernel.Common.Run.{Run, ok, fault, out_of_fuel}
use my_kernel.Pmm.Paging.{get_pte, get_map, map_page, build_first_page}
use my_kernel.Pmm.Virtual.{init_virtual_allocator, allocate_page, allocate_pages_contig}
use my_kernel.Pmm.Regions.{allocate}
use my_kernel.Pmm.Heap.{Heap, kmalloc}
use my_kernel.Process.{ready, Kernel, add_process}
use my_kernel.Process.Examples.{three}
use my_kernel.Process.Create.{create_process}
use my_kernel.Process.Created.{BeginsUser}
use my_kernel.Process.Created.Examples.{empty_heap}
use my_kernel.Vga.{Screen}
use my_kernel.Memory.{half_at, word_at}
use my_kernel.Elf.{check_elf_supported}
use my_kernel.Elf.Load.{Space, accessible, ehdr_at, elf_load_exec, elf_load_file}
use my_kernel.Computer.{Computer, space_of, start_elf, map_user_stack}
use my_kernel.Descriptors.{GdtEntry, InterruptDes}
use my_kernel.Descriptors.Tables.{TablePtr, init_tss}
use my_kernel.Dispatch.Examples.{machine}
use my_kernel.System.{Machine, machine_kernel, runs as going, run}
use my_kernel.System.Sound.{Sound}
use my_kernel.System.Examples.{events}
use my_kernel.Boot.{Seen, Waiting, Symbols, Boot, start, runs, switch_mode, kernel}
use my_kernel.Boot.Mode.{Chosen, switch_mode-Chosen}
use my_kernel.Boot.Gates.{Low, IsGate, Open, start-Gates}
use my_kernel.Boot.Starts.{UserRoom, paged, elf_kernel, top_of}
use my_kernel.Boot.Made.{Boots, elf_registers}
use my_kernel.Boot.Runs.{kernel-Runs}

abbrev names : Symbols
names = record {
  irq0 = 0x10100;
  isr8 = 0x10200;
  isr13 = 0x10300;
  isr14 = 0x10400;
  syscall_handler = 0x10500;
  keyboard_isr = 0x10600;
  idt_at = 0x11000;
  gdt_at = 0x12000;
  tss_at = 0x13000;
  page_table = 0x14000;
  kernel_end = 0x1FF00;
  process_entry = 0x10000;
  uptime_task = 0x10700;
  user_main = 0x10800;
  elf_file = 0xA000;
}

abbrev no_table : TablePtr
no_table = record { limit = 0; base = 0 }

abbrev no_segment : GdtEntry
no_segment = record {
  limit_low = 0;
  base_low = 0;
  base_middle = 0;
  access = 0;
  granularity = 0;
  base_high = 0;
}

abbrev no_gate : InterruptDes
no_gate = record { offset_1 = 0; selector = 0; zeros = 0; type = 0; offset_2 = 0 }

abbrev reset : Computer
reset = record machine {
  kernel = record (three 0) {
    heap = record empty_heap { vm = record empty_heap.vm { next_virtual = 0 } };
    process_list = 0;
    ticks = 0;
  };
}

abbrev off : Boot
off = record {
  computer = reset;
  gdt = λ n. no_segment;
  gp = no_table;
  tss = init_tss;
  idt = λ n. no_gate;
  ptr = no_table;
}

-- No key is pressed.
abbrev waits_then : ℕ → ℕ → List Seen
waits_then before ticks =
    (record { ticks = before; last_key = 0 }) ∷ (record { ticks = ticks; last_key = 0 }) ∷ []

abbrev first : Waiting
first = record { begins = 0; sees = waits_then 10 300 }

abbrev second : Waiting
second = record { begins = 310; sees = waits_then 320 610 }

switch_mode-Chosen_example :
    (choice : ℕ) × (t : Screen) × (switch_mode 0 (waits_then 10 300) reset.screen ≡ ok (choice, t))
    × (t.cursor ≡ 400)
    × (t.column ≡ 0)
    × Chosen 300 (waits_then 10 300) choice
switch_mode-Chosen_example =
    switch_mode-Chosen 0 ((record { ticks = 10; last_key = 0 }) ∷ []) []
      (record { ticks = 300; last_key = 0 }) reset.screen (omega arith)

names-Low : Low names
names-Low = record {
  irq0 = omega arith;
  isr8 = omega arith;
  isr13 = omega arith;
  isr14 = omega arith;
  syscall_handler = omega arith;
  keyboard_isr = omega arith;
}

start-Gates_example :
    let idt = (start names off).idt in
    IsGate 0 0x10100 (idt 32)
    × IsGate 0 0x10600 (idt 33)
    × IsGate 0 0x10200 (idt 8)
    × IsGate 0 0x10300 (idt 13)
    × IsGate 0 0x10400 (idt 14)
    × IsGate 3 0x10500 (idt 0x80)
    × ((n : ℕ) → Open (idt n) → n ≡ 0x80)
start-Gates_example = start-Gates names off names-Low (λ n. refl)

abbrev at_heap : Run (ℕ × Heap) → Heap
at_heap (ok r) = r.1
at_heap fault = empty_heap
at_heap out_of_fuel = empty_heap

abbrev at_kernel : Run (ℕ × Kernel) → Kernel
at_kernel (ok r) = r.1
at_kernel fault = reset.kernel
at_kernel out_of_fuel = reset.kernel

abbrev heap1 : Heap
heap1 = at_heap (kmalloc 4 48 3 (paged names reset.kernel).heap)

abbrev elf_made : Kernel
elf_made = at_kernel (create_process 4 4 0x10000 0 1 (paged names reset.kernel))

abbrev loaded : Space
loaded = space_of (record reset { kernel = elf_made })

room1 : UserRoom 4 (paged names reset.kernel).heap 0x20009 heap1 0x25000
unfolding kmalloc allocate_page allocate map_page allocate_pages_contig init_virtual_allocator
    build_first_page
room1 = record {
  block = refl;
  nonzero = λ e. omega arith;
  stack = λ e. omega arith;
  user = refl;
  user_nonzero = λ e. omega arith;
}

elf-made : create_process 4 4 0x10000 0 1 (paged names reset.kernel) ≡ ok (0x20009, elf_made)
unfolding create_process kmalloc allocate_page allocate map_page allocate_pages_contig
    init_virtual_allocator build_first_page add_process
elf-made = refl

elf-loaded :
    elf_load_file 0 0xA000 (space_of (record reset { kernel = elf_made })) ≡ ok (0x8000, loaded)
unfolding create_process kmalloc allocate_page allocate map_page allocate_pages_contig
    init_virtual_allocator build_first_page add_process elf_load_file elf_load_exec accessible
    get_map get_pte check_elf_supported ehdr_at half_at word_at
elf-loaded = refl

abbrev elf_started : Kernel
elf_started = elf_kernel 0x20009 0x8000 loaded elf_made reset

abbrev heap2 : Heap
heap2 = at_heap (kmalloc 4 48 3 elf_started.heap)

room2 : UserRoom 4 elf_started.heap 0x20042 heap2 0x2A000
unfolding create_process kmalloc allocate_page allocate map_page allocate_pages_contig
    init_virtual_allocator build_first_page add_process start_elf map_user_stack
room2 = record {
  block = refl;
  nonzero = λ e. omega arith;
  stack = λ e. omega arith;
  user = refl;
  user_nonzero = λ e. omega arith;
}

boots :
    Boots 4 4 0 names first second reset 0x20009 heap1 0x25000 elf_made 0x8000 loaded 0x20042 heap2
      0x2A000
unfolding create_process kmalloc allocate_page allocate map_page allocate_pages_contig
    init_virtual_allocator build_first_page add_process start_elf map_user_stack
boots = record {
  fresh = refl;
  idle = refl;
  early = record {
    before = (record { ticks = 10; last_key = 0 }) ∷ [];
    last = record { ticks = 300; last_key = 0 };
    later = [];
    splits = refl;
    waited = ((omega arith, λ e. omega arith), tt);
    over = omega arith;
  };
  room1 = room1;
  made = elf-made;
  loaded = elf-loaded;
  late = record {
    before = (record { ticks = 320; last_key = 0 }) ∷ [];
    last = record { ticks = 610; last_key = 0 };
    later = [];
    splits = refl;
    waited = ((omega arith, λ e. omega arith), tt);
    over = omega arith;
  };
  room2 = room2;
  apart = λ e. omega arith;
  places = λ e. omega arith;
}

kernel-Runs_example :
    (d : Computer) × (kernel 4 4 0 names first second off
      ≡ ok (start names off, runs d (elf_registers 0x8000 heap1 0x25000)))
    × BeginsUser 0x8000 (top_of heap1) 0xBFFFF000 (elf_registers 0x8000 heap1 0x25000)
    × (d.kernel.current_process ≡ 0x20009)
    × Sound d.kernel (0x20009 ∷ 0x20042 ∷ [])
    × ((d.kernel.proc 0x20042).state ≡ ready)
    × BeginsUser 0x10800 (top_of heap2) 0x2B000 (d.kernel.frame (d.kernel.proc 0x20042).regs)
    × ((m : Machine) × (run 3 events (going d.kernel) ≡ ok m)
        × Sound (machine_kernel m) (0x20009 ∷ 0x20042 ∷ []))
kernel-Runs_example =
    kernel-Runs 4 4 0 names first second off 0x20009 heap1 0x25000 elf_made 0x8000 loaded 0x20042
      heap2 0x2A000 events (omega arith) boots
