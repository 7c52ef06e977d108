-- ===== src/Boot.antt =====
-- The start of the kernel: `kernel` of kernel/kernel.c with `switch_mode`. What happens in a loop that halts until the next interrupt is a list of
-- observations, one for each test of the loop; `out_of_fuel` is a loop that goes on.
pub mod Clock
pub mod Mode
pub mod Gates
pub mod Starts
pub mod Made
pub mod Runs
pub mod Examples
use my_kernel.Common.{ℕ, ◌+◌, ◌-◌, ◌*◌, ◌/◌, ◌%◌, ◌^◌, List, [], ◌∷◌, ltb, ◌==◌, if◌then◌else◌}
use my_kernel.Common.Run.{Run, ok, fault, out_of_fuel, ◌>>=◌}
use my_kernel.Pmm.Paging.{Paging, build_first_page}
use my_kernel.Pmm.Virtual.{Vm, init_virtual_allocator}
use my_kernel.Process.{blocked, ProcessState, Registers, Process, Kernel, assign, is_ready}
use my_kernel.Process.Create.{create_process}
use my_kernel.Vga.{Screen, print_number, print_time_message, clear_screen}
use my_kernel.Vga.Output.{Output, text, hex, number, bytes, draw}
use my_kernel.Keyboard.{key_none}
use my_kernel.Descriptors.{GdtEntry, init_gdt, InterruptDes, add}
use my_kernel.Descriptors.Tables.{Tss, sizeof_tss, init_tss, TablePtr, gdt_ptr}
use my_kernel.Elf.Load.{Space}
use my_kernel.Computer.{Computer, create_elf_process}

abbrev pub key_f10 : ℕ
key_f10 = 269

-- What one test of the loop of `switch_mode` reads.
pub record Seen : Type 0 where
  pub ticks : ℕ
  pub last_key : ℕ

unfoldable pub switch_rounds : ℕ → List Seen → Run ℕ
switch_rounds end [] = out_of_fuel
switch_rounds end (seen ∷ later) =
    let rest = switch_rounds end later in
    if ltb seen.ticks end then (if seen.last_key == key_f10 then ok 0 else rest) else ok 1

-- `switch_mode`, called at `ticks`. It sets `last_key` to `KEY_NONE` first: a key that `seen` holds
-- was pressed later.
unfoldable pub switch_mode : ℕ → List Seen → Screen → Run (ℕ × Screen)
unfolding switch_rounds
switch_mode ticks seen s =
    let t = draw (text "click f10 if you want to stay in the bios" ∷ []) s in
    do
      choice ← switch_rounds ((ticks + 300) % 2 ^ 32) seen
      ok (choice, record t { cursor = 400; column = 0 })

-- The addresses that the linker chooses; `elf_file` is `_binary_user_elf_test_elf_start`.
pub record Symbols : Type 0 where
  pub irq0 : ℕ
  pub isr8 : ℕ
  pub isr13 : ℕ
  pub isr14 : ℕ
  pub syscall_handler : ℕ
  pub keyboard_isr : ℕ
  pub idt_at : ℕ
  pub gdt_at : ℕ
  pub tss_at : ℕ
  pub page_table : ℕ
  pub kernel_end : ℕ
  pub process_entry : ℕ
  pub uptime_task : ℕ
  pub user_main : ℕ
  pub elf_file : ℕ

pub record Boot : Type 0 where
  pub computer : Computer
  pub gdt : ℕ → GdtEntry
  pub gp : TablePtr
  pub tss : Tss
  pub idt : ℕ → InterruptDes
  pub ptr : TablePtr

abbrev pub on_screen : (Screen → Screen) → Computer → Computer
on_screen f c = record c { screen = f c.screen }

abbrev pub on_pages : (Vm → Vm) → Computer → Computer
on_pages f c = record c {
  kernel = record c.kernel { heap = record c.kernel.heap { vm = f c.kernel.heap.vm } };
}

-- The calls of `add` in `kernel`.
unfoldable pub add_gates : Symbols → (ℕ → InterruptDes) → ℕ → InterruptDes
add_gates sym idt = add 33 sym.keyboard_isr 0x8E (
    add 0x80 sym.syscall_handler 0xEE (
      add 14 sym.isr14 0x8E
        (add 13 sym.isr13 0x8E (add 8 sym.isr8 0x8E (add 32 sym.irq0 0x8E idt)))))

-- `kernel` up to the first `switch_mode`; what it sends to the ports is left out.
unfoldable pub start : Symbols → Boot → Boot
unfolding add_gates
start sym b = record b {
  computer =
      on_screen
        (λ s.
          draw (text "Before paging \n" ∷ [])
            (print_time_message (bytes "start os") 240 (clear_screen s)))
        b.computer;
  gdt = init_gdt sym.tss_at sizeof_tss b.gdt;
  gp = gdt_ptr sym.gdt_at;
  tss = init_tss;
  idt = add_gates sym b.idt;
  ptr = record { limit = 256 * 8 - 1; base = sym.idt_at };
}

-- How `kernel` ends: in a process, with the registers that `restore_esp` loads, or it returns.
pub data End : Type 0 where
  runs : Computer → Registers → End
  returns : Computer → End

-- `restore_esp(current_process)`
unfoldable pub restore : Computer → Run End
restore c =
    let k = c.kernel in
    if k.current_process == 0 then fault else ok (runs c (k.frame (k.proc k.current_process).regs))

-- The branch of `kernel` for F10.
unfoldable pub stay : ℕ → ℕ → Symbols → Computer → Run End
unfolding restore
stay blocks fuel sym c =
    let d =
      on_screen
        (λ s.
          draw (text "Staying in BIOS mode. Halting...\n" ∷ text "from the bios" ∷ [])
            (clear_screen s))
        c in
    do
      made ← create_process blocks fuel sym.process_entry sym.uptime_task 0 d.kernel
      restore (record d { kernel = made.1 })

-- `kernel` from `init_virtual_allocator` to `create_elf_process` and its messages.
unfoldable pub load : ℕ → ℕ → ℕ → Symbols → Computer → Run Computer
load blocks fuel rel sym c =
    let d =
      on_pages
        (λ vm.
          let vm' = init_virtual_allocator sym.kernel_end vm in
          record vm' { paging = build_first_page sym.page_table vm'.paging })
        c in
    do
      made ←
          create_elf_process blocks fuel sym.process_entry rel sym.elf_file
            (on_screen (draw (text "\n" ∷ hex sym.elf_file ∷ [])) d)
      ok (
          if made.0 == 0
          then made.1
          else on_screen (draw (text "ELF process loaded successfully\n" ∷ hex made.0 ∷ [])) made.1)

-- `kernel` behind the second `switch_mode`, which chose `choice`.
unfoldable pub enter_user : ℕ → ℕ → Symbols → ℕ → Computer → Run End
unfolding restore
enter_user blocks fuel sym choice c =
    let d = on_screen clear_screen c in
    if choice == 1
    then (do
      made ← create_process blocks fuel sym.process_entry sym.user_main 1 d.kernel
      restore (record d { kernel = made.1 }))
    else ok (returns d)

abbrev pub at_ticks : ℕ → Computer → Computer
at_ticks ticks c = record c { kernel = record c.kernel { ticks = ticks } }

-- A call of `switch_mode`: the clock when it begins, and what its loop sees.
pub record Waiting : Type 0 where
  pub begins : ℕ
  pub sees : List Seen

-- `kernel`; `first` and `second` are the two calls of `switch_mode`. What interrupts change besides
-- the clock and the last key is left out.
unfoldable pub kernel : ℕ → ℕ → ℕ → Symbols → Waiting → Waiting → Boot → Run (Boot × End)
unfolding start stay load enter_user switch_mode
kernel blocks fuel rel sym first second b =
    let b' = start sym b in
    let c = at_ticks first.begins b'.computer in
    do
      chosen ← switch_mode first.begins first.sees c.screen
      (let d = record c { screen = chosen.1 } in
          if chosen.0 == 0 then (do e ← stay blocks fuel sym d; ok (b', e)) else (do
            loaded ← load blocks fuel rel sym d
            again ← switch_mode second.begins second.sees loaded.screen
            e ←
                enter_user blocks fuel sym again.0
                  (at_ticks second.begins (record loaded { screen = again.1 }))
            ok (b', e)))
