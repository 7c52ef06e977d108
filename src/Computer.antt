-- ===== src/Computer.antt =====
-- The kernel's state with the bytes that are seen in memory, what stands in physical memory that is
-- not mapped yet (`contents`) and the screen, and the calls of kernel/elf.c and
-- kernel/syscall.c that need them. `blocks` is the fuel of the walks over the heap, `fuel` that of
-- the walks over the processes; messages are logged where `map_page` logs its own, the numbers that
-- are printed beside them are left out.
pub mod Started
use Prim.Native.String.{String}
use my_kernel.Common.{ℕ, ◌-◌, ◌∷◌, ◌==◌, if◌then◌else◌}
use my_kernel.Common.Run.{Run, ok, ◌>>=◌}
use my_kernel.Pmm.Regions.{allocate}
use my_kernel.Pmm.Paging.{Paging, map_page}
use my_kernel.Process.{Registers, Kernel, assign}
use my_kernel.Process.Create.{create_process}
use my_kernel.Vga.{Screen}
use my_kernel.Elf.Load.{Space, shows, elf_load_file}

pub record Computer : Type 0 where
  pub kernel : Kernel
  pub bytes : ℕ → ℕ
  pub contents : ℕ → ℕ
  pub screen : Screen

abbrev pub paging_of : Kernel → Paging
paging_of k = k.heap.vm.paging

abbrev pub with_paging : Paging → Kernel → Kernel
with_paging paging k = record k {
  heap = record k.heap { vm = record k.heap.vm { paging = paging } };
}

abbrev pub space_of : Computer → Space
space_of c = record { paging = paging_of c.kernel; bytes = c.bytes; contents = c.contents }

abbrev pub with_space : Space → Computer → Computer
with_space t c = record c { kernel = with_paging t.paging c.kernel; bytes = t.bytes }

-- `print_string` of a message.
abbrev pub say : String → Computer → Computer
say message c =
    let p = paging_of c.kernel in
    record c { kernel = with_paging (record p { printed = message ∷ p.printed }) c.kernel }

abbrev pub user_stack_top : ℕ
user_stack_top = 0xBFFFF000

-- The tables become `after`: what the addresses show follows them.
abbrev pub remapped : Paging → Computer → Computer
remapped after c = record c {
  kernel = with_paging after c.kernel;
  bytes = shows c.contents (paging_of c.kernel) after c.bytes;
}

-- `map_page(phy, USER_STACK_TOP - 4096, ...)`, where `phy` is what `allocate` gave.
unfoldable pub map_user_stack : Computer → Computer
map_user_stack c =
    let p = paging_of c.kernel in
    let phy = allocate 4096 p.regions in
    remapped (map_page phy.0 (user_stack_top - 4096) 7 (record p { regions = phy.1 })) c

-- `create_elf_process` behind the load of the file, which gave `loaded`.
unfoldable pub start_elf : ℕ → ℕ × Space → Computer → ℕ × Computer
unfolding map_user_stack assign
start_elf p (entry, t) c =
    let d =
      say (if entry == 0 then "ELF loading FAILED\n" else "ELF loaded successfully\n")
        (with_space t c) in
    let regs = (d.kernel.proc p).regs in
    let put = λ (r : Registers). λ (e : Computer). record e {
      kernel = record e.kernel { frame = assign e.kernel.frame regs r };
    } in
    let e = map_user_stack (put (record (d.kernel.frame regs) { eip = entry }) d) in
    (p, put (record (e.kernel.frame regs) { user_esp = user_stack_top }) e)

pub create_elf_process : ℕ → ℕ → ℕ → ℕ → ℕ → Computer → Run (ℕ × Computer)
unfolding start_elf
create_elf_process blocks fuel process_entry rel file c = do
  made ← create_process blocks fuel process_entry 0 1 c.kernel
  (if made.0 == 0 then ok (0, say "process creation faild" (record c { kernel = made.1 })) else do
    loaded ← elf_load_file rel file (space_of (record c { kernel = made.1 }))
    ok (start_elf made.0 loaded (record c { kernel = made.1 })))
