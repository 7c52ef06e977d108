-- ===== src/Dispatch/Examples.antt =====
-- Tests of `syscall_dispatch` of kernel/syscall.c on the processes of Process/Examples, and of
-- `sys_exec` on a program without segments.
use my_kernel.Common.{ℕ, ◌<◌, ◌≡◌, refl, List, [], ◌∷◌, arith, ◌==◌, if◌then◌else◌}
use my_kernel.Common.Run.{ok}
use my_kernel.Process.{Registers}
use my_kernel.Process.Examples.{registers, three}
use my_kernel.Pmm.Paging.Examples.{booted}
use my_kernel.Vga.{Screen}
use my_kernel.Vga.Bounds.{Within}
use my_kernel.Computer.{Computer, with_paging}
use my_kernel.Dispatch.{Limits, resumes, syscall_dispatch}
use my_kernel.Dispatch.Print.{text_at}
use my_kernel.Dispatch.Observe.{syscall_dispatch-Shows}

abbrev pub limits : Limits
limits = record { blocks = 4; fuel = 4; frames = 4; chars = 4; process_entry = 0x10000; rel = 0 }

-- "hi" stands at 0x9000, and at 0xA000 the header of a program that begins at 0x8000.
abbrev pub memory : ℕ → ℕ
memory a =
    if a == 0x9000
    then b'h'
    else if a == 0x9001
    then b'i'
    else if a == 0xA000
    then 0x7F
    else if a == 0xA001
    then b'E'
    else if a == 0xA002
    then b'L'
    else if a == 0xA003
    then b'F'
    else if a == 0xA004
    then 1
    else if a == 0xA005
    then 1
    else if a == 0xA006
    then 1
    else if a == 0xA010
    then 2
    else if a == 0xA012
    then 3
    else if a == 0xA014
    then 1
    else if a == 0xA019
    then 0x80
    else 0

abbrev pub machine : Computer
machine = record {
  kernel = with_paging booted (three 0x1000);
  bytes = memory;
  contents = λ p. 0xCC;
  screen = record { cell = λ a. 0x0720; cursor = 1999; column = 79; moved = [] };
}

abbrev call : ℕ → ℕ → Registers
call eax ebx = record (registers 0x1B) { eax = eax; ebx = ebx }

hi : (text : List ℕ) × (text_at 4 0x9000 memory ≡ ok text)
unfolding text_at
hi = (b'h' ∷ b'i' ∷ [], refl)

syscall_dispatch-Shows_example :
    (s : Screen) × (syscall_dispatch limits (call 2 0x9000) machine
      ≡ ok (resumes (record machine { screen = s }) (call 2 0x9000)))
    × Within machine.screen s
    × (s.cursor < 2000)
syscall_dispatch-Shows_example =
    syscall_dispatch-Shows limits (call 2 0x9000) machine refl (λ e. hi) (omega arith)

abbrev entry : ℕ
entry = 0x8000
