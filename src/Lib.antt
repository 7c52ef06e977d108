-- ===== src/Lib.antt =====
-- The kernel of this repository, a small 32-bit x86 kernel in C, as functions, with the theorems
-- that make its parts correct.
--
-- Common holds the shared names: Boolean tests on the native numbers (Tests), lists over them
-- (Lists), bit masks as arithmetic (Bits), and the results of code that may fault (Run).
--
-- Pmm models kernel/pmm.c in four layers, each a record of the state that it adds.
--   Pmm/Regions  `allocate` and `free` over the memory map at 0x504. A table with `*entry` entries
--                is a list; fields of 64 bits wrap. Its children prove the search (BestFit), what
--                an address is used for (Order, Ownership, Free, Merge, RoundTrip) and whole pages
--                (Pages).
--   Pmm/Paging   `build_first_page`, `map_page`, `get_pte`, `get_map`, `unmap_page`. The directory
--                is a function of the index; page tables are words at physical addresses, which is
--                how the source writes them. `invlpg` and `print_string` calls are logged.
--   Pmm/Virtual  `allocate_page`, `allocate_pages_contig`, `free_page`: the next fresh address and
--                the stack of freed ones.
--   Pmm/Heap     `kmalloc` and `kfree` over block headers, a function of the header's address.
--                Place, Scan, Malloc, Grow, Release and Lost prove what they do to the list.
-- Process models kernel/process.h and kernel/process.c on top of the heap: a process is found by
-- its address, its saved registers by the address in `regs`; `restore_esp` ends a step and is the
-- registers that it loads. Its children prove the list walks (Links), the scheduler (Schedule),
-- waking (Wake), the end of a process (ExitProcess) and the context switch (Context); Create is
-- `create_process` (Append, Created), Remove is `remove_process_list`; Circle is the list as a
-- circle. Syscall models the calls of kernel/syscall.c that yield, sleep, exit, wait, ask for ids
-- or allocate; Yield, Sleep, Status, Zombies and Reap prove them. Interrupt is `irq0_handler` of
-- kernel/kernel.c with its turns (Turn, RoundRobin), and `fault_handler` (Fault). System drives the
-- kernel by events, the timer and the calls that hand the processor on, with the invariant of the
-- processes (Sound) and its preservation along every sequence (Run) and by a new process (Create).
--
-- Memory models `memset` and `memcpy` of kernel/pmm.c and words of memory. Bytes are found by
-- their virtual addresses, apart from the words of the page tables and the kernel's variables,
-- which no write to a byte changes. Elf models the checks of kernel/elf.c, Elf/Load its loader
-- (Segment: the pages, Access: the accesses, Bytes: the bytes). There an access to a page that is
-- not mapped is a fault, and a page that is mapped anew shows what its frame holds, which is a
-- parameter, `contents`; outside the loader user memory is taken to be mapped. Computer is the
-- whole state: the kernel, the bytes of memory and the screen, and `create_elf_process`. Fork is
-- `sys_fork` with the frame pointers (Relocate), the stack (Stack) and the result (Child).
-- Dispatch is `syscall_dispatch` with the calls that print (Print) and `sys_exec`; User the
-- wrappers of user/user_space.c, as the registers with which they interrupt.
--
-- Keyboard models `read` of kernel/keyboard.c, Vga the text screen of kernel/vga.c (Bounds, Calls,
-- Digits), Console `keyboard_handler` of kernel/kernel.c with the line that it edits, where
-- `fault` is a write behind the line or the call of `add_line` without its argument. Shell is
-- `strcmp`, the commands and the round of the loop of user/shell.c. Descriptors models
-- `gdt_set_gate`, the gates of `init_gdt` and `add` of kernel/tss.c and kernel/idt.c, its Tables the
-- task state segment and the selectors.
--
-- Boot is `kernel` of kernel/kernel.c on all of this: its interrupt gates (Gates), `switch_mode`
-- (Mode) and the way to the first process (Starts, Made, Runs); Clock
-- has the functions over `ticks`. A loop that halts until the next interrupt goes over a list of
-- what its tests see. Tests models kernel/tests.c: the tests of pages (Pages), of processes
-- (Processes, with Listed, Linked and Scheduled), of the heap (Blocks) and of the selectors
-- (Segments), each as the list of its print calls (Vga/Output) with the state it leaves; Pmm/Print
-- is `search` and `inspect`. A module Examples beside a component runs its theorems on concrete
-- states.
--
-- Fuel. The walks along `next` pointers take fuel, one round for each element and one for the end;
-- the theorems ask for just more than the length of the list. `print_number` has ten rounds, since
-- `unsigned long` has 32 bits here; `load_segment` has 2 ^ 20 + 1, one for each page of the address
-- space and one for the end, and `elf_load_exec` 2 ^ 16, since its counter has 16 bits. The loop of
-- `sys_fork` over saved frame pointers takes fuel, since pointers that do not go up can make it run
-- for ever; where they go up, fuel for each frame and the end is enough. A text is read with fuel,
-- since it may lack an end mark. All other loops are bounded by the source.
--
-- Messages of the kernel are logged by `print_string` calls in `printed` and do not move the cursor
-- of the modelled screen; numbers printed beside them are left out. What the calls of user programs
-- print goes to the screen.
--
-- Address 0 is mapped to itself and is read and written like any other where `sys_wait` reads the
-- parent of the first process and `kmalloc` is given no page. Where a current process, or one that a
-- test has made, is needed and there is none, the model stops with a fault.
--
-- Not modelled: the timer's set-up (kernel/pit.c), port I/O and assembly, what interrupts do while
-- `switch_mode` waits besides the clock and the key, a segment or a stack that lies on the page
-- tables or the kernel's variables, and the test programs of user/. The linker
-- symbols are parameters, and so is what `elf_load_rel`, which returns nothing, leaves.
pub mod Common
pub mod Pmm
pub mod Process
pub mod Keyboard
pub mod Vga
pub mod Shell
pub mod Descriptors
pub mod Elf
pub mod Syscall
pub mod Interrupt
pub mod System
pub mod Console
pub mod Memory
pub mod Computer
pub mod Fork
pub mod Dispatch
pub mod User
pub mod Tests
pub mod Boot
