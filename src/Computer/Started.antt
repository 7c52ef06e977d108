-- ===== src/Computer/Started.antt =====
-- `create_elf_process` of kernel/elf.c: the process that it leaves.
use my_kernel.Common.{ℕ, ◌≡◌, ◌≢◌, refl, true, false, arith, ◌==◌}
use my_kernel.Common.Run.{ok}
use my_kernel.Process.{Kernel, assign}
use my_kernel.Process.Create.{create_process}
use my_kernel.Elf.Load.{Space, elf_load_file}
use my_kernel.Computer.{
  Computer, space_of, user_stack_top, map_user_stack, start_elf, create_elf_process,
}

-- The process `pro`, made in `k`, begins at `entry` on the common user stack; the processes, their
-- order and all other registers are those of `k`.
pub record Started (k : Kernel) (pro entry : ℕ) (d : Computer) : Type 0 where
  pub procs : d.kernel.proc ≡ k.proc
  pub list : d.kernel.process_list ≡ k.process_list
  pub current : d.kernel.current_process ≡ k.current_process
  pub ticks : d.kernel.ticks ≡ k.ticks
  pub registers :
      d.kernel.frame (k.proc pro).regs
      ≡ record (k.frame (k.proc pro).regs) { eip = entry; user_esp = user_stack_top }
  pub others : (a : ℕ) → a ≢ (k.proc pro).regs → d.kernel.frame a ≡ k.frame a

pub start_elf-Started :
    (pro entry : ℕ) (t : Space) (c : Computer)
    → ((start_elf pro (entry, t) c).0 ≡ pro)
      × Started c.kernel pro entry (start_elf pro (entry, t) c).1
unfolding start_elf map_user_stack assign
start_elf-Started pro entry t c =
    let regs = (c.kernel.proc pro).regs in
    let s : (regs == regs) ≡ true = ground arith in
    (
      refl,
      record {
        procs = refl;
        list = refl;
        current = refl;
        ticks = refl;
        registers = rw s refl;
        others = λ a ne. let n : (a == regs) ≡ false = ground arith in rw n refl;
      },
    )

-- The calls that `create_elf_process` makes when there is a process and the load of the file ends.
pub create_elf_process-calls :
    (blocks fuel process_entry rel file : ℕ) (c : Computer) (pro : ℕ) (k : Kernel) (entry : ℕ)
    (t : Space)
    → create_process blocks fuel process_entry 0 1 c.kernel ≡ ok (pro, k)
    → pro ≢ 0
    → elf_load_file rel file (space_of (record c { kernel = k })) ≡ ok (entry, t)
    → create_elf_process blocks fuel process_entry rel file c
      ≡ ok (start_elf pro (entry, t) (record c { kernel = k }))
unfolding create_elf_process
create_elf_process-calls blocks fuel process_entry rel file c pro k entry t e nz l =
    let z : (pro == 0) ≡ false = ground arith in rw (e, z, l) refl
