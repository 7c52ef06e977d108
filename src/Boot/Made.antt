-- ===== src/Boot/Made.antt =====
-- The two processes that `kernel` of kernel/kernel.c makes when F10 is not pressed.
use my_kernel.Common.{
  ℕ, ◌+◌, ◌%◌, ◌^◌, ◌≤◌, ◌≡◌, ◌≢◌, refl, sym as reversed, ap, ◌∙◌, ◌⊎◌, inl, inr, true, false, [],
  ◌∷◌, arith, ◌==◌,
}
use my_kernel.Common.Run.{Run, ok, fault, out_of_fuel}
use my_kernel.Pmm.Virtual.{allocate_pages_contig}
use my_kernel.Pmm.Heap.{Heap}
use my_kernel.Process.{Process, Registers, Kernel}
use my_kernel.Process.Links.{has}
use my_kernel.Process.Create.{user_registers, create_process}
use my_kernel.Process.Created.{Created}
use my_kernel.Elf.Load.{Space, elf_load_file}
use my_kernel.Computer.{Computer, space_of, user_stack_top}
use my_kernel.Computer.Started.{start_elf-Started}
use my_kernel.System.Sound.{Sound}
use my_kernel.System.Create.{Created-Sound}
use my_kernel.Boot.{Waiting, Symbols}
use my_kernel.Boot.Starts.{
  UserRoom, place_of, top_of, user_made, TimesOut, paged, elf_kernel, kernel_at,
}

-- No process is there yet, F10 is not pressed while `kernel` waits, there is memory at different
-- places for the ELF process `pro` and for the process `next` of `user_main`, and the load of the
-- file ends with `entry`.
pub record Boots (blocks fuel rel : ℕ) (names : Symbols) (first second : Waiting) (c : Computer)
    (pro : ℕ) (heap1 : Heap) (stack1 : ℕ) (k : Kernel) (entry : ℕ) (t : Space) (next : ℕ)
    (heap2 : Heap) (stack2 : ℕ) : Type 0 where
  pub fresh : c.kernel.process_list ≡ 0
  pub idle : c.kernel.current_process ≡ 0
  pub early : TimesOut ((first.begins + 300) % 2 ^ 32) first.sees
  pub room1 : UserRoom blocks (paged names c.kernel).heap pro heap1 stack1
  pub made : create_process blocks fuel names.process_entry 0 1 (paged names c.kernel) ≡ ok (pro, k)
  pub loaded : elf_load_file rel names.elf_file (space_of (record c { kernel = k })) ≡ ok (entry, t)
  pub late : TimesOut ((second.begins + 300) % 2 ^ 32) second.sees
  pub room2 : UserRoom blocks (elf_kernel pro entry t k c).heap next heap2 stack2
  pub apart : next ≢ pro
  pub places : place_of heap1 ≢ place_of heap2

abbrev pub elf_registers : ℕ → Heap → ℕ → Registers
elf_registers entry heap stack = record (user_registers 0 (top_of heap) stack) {
  eip = entry;
  user_esp = user_stack_top;
}

second_of : (p q : ℕ) (k t : Kernel) → ◌≡◌ {A = Run (ℕ × Kernel)} (ok (p, k)) (ok (q, t)) → k ≡ t
second_of p q k t e = ap out e
  where
    out : Run (ℕ × Kernel) → Kernel
    out (ok r) = r.1
    out fault = k
    out out_of_fuel = k

regs_kept : (p q : Process) (n : ℕ) → (p ≡ q) ⊎ (p ≡ record q { next = n }) → p.regs ≡ q.regs
regs_kept p q n (inl e) = ap (λ (x : Process). x.regs) e
regs_kept p q n (inr e) = ap (λ (x : Process). x.regs) e

module _ (blocks fuel rel : ℕ) (names : Symbols) (first second : Waiting) (c : Computer) (pro : ℕ)
    (heap1 : Heap) (stack1 : ℕ) (k : Kernel) (entry : ℕ) (t : Space) (next : ℕ) (heap2 : Heap)
    (stack2 : ℕ) (enough : 1 ≤ fuel)
    (h : Boots blocks fuel rel names first second c pro heap1 stack1 k entry t next heap2
      stack2) where
  elf_made :
      Created
        (paged names c.kernel)
        []
        pro
        (allocate_pages_contig 4 3 heap1.vm).0
        stack1
        names.process_entry
        0
        1
        k
  elf_made =
      let (k', e, x) =
        user_made blocks fuel names.process_entry 0 (paged names c.kernel) [] pro heap1 stack1
          h.fresh tt (omega arith) refl h.room1 in
      rw (second_of pro pro k' k (reversed e ∙ h.made)) at x

  runs_first : k.current_process ≡ pro
  runs_first = elim elf_made.runs [ inl r ↦ r.1 | inr r ↦ absurd (r.0 refl) ]

  next_new : has next (pro ∷ []) ≡ false
  next_new = let n : (next == pro) ≡ false = ground (arith, h.apart) in rw n refl

  -- The ELF process alone is sound: it is not its own parent, since no process ran before.
  elf_Sound : Sound (kernel_at second.begins (elf_kernel pro entry t k c)) (pro ∷ [])
  elf_Sound =
      let x = elf_made in
      let s = (start_elf-Started pro entry t (record c { kernel = k })).1 in
      let only : (q : ℕ) → has q (pro ∷ []) ≡ true → q ≡ pro = λ q m. ground arith in
      let self : (pro == pro) ≡ true = ground arith in
      let at_pro : (kernel_at second.begins (elf_kernel pro entry t k c)).proc pro ≡ k.proc pro =
        ap (λ (f : ℕ → Process). f pro) s.procs in
      record {
        links = rw (s.procs, s.list) x.links;
        distinct = (refl, tt);
        current = rw (s.current, runs_first, self) refl;
        settles = λ q m. rw (only q m, at_pro, x.state) refl;
        parent = λ q m e. h.room1.nonzero (
            reversed (only q m)
            ∙ reversed e
            ∙ ap (λ (a : ℕ). ((kernel_at second.begins (elf_kernel pro entry t k c)).proc a).parent)
                (only q m)
            ∙ ap (λ (p : Process). p.parent) at_pro
            ∙ x.parent
            ∙ h.idle);
      }

  -- `create_process` for `user_main`, behind the ELF process.
  pub user_main_made :
      (u : Kernel) × (create_process blocks fuel names.process_entry names.user_main 1
          (kernel_at second.begins (elf_kernel pro entry t k c))
        ≡ ok (next, u))
      × Created
          (kernel_at second.begins (elf_kernel pro entry t k c))
          (pro ∷ [])
          next
          (allocate_pages_contig 4 3 heap2.vm).0
          stack2
          names.process_entry
          names.user_main
          1
          u
      × Sound u (pro ∷ next ∷ [])
      × (u.current_process ≡ pro)
      × (u.frame (u.proc pro).regs ≡ elf_registers entry heap1 stack1)
  user_main_made =
      let x = elf_made in
      let s = (start_elf-Started pro entry t (record c { kernel = k })).1 in
      let e = kernel_at second.begins (elf_kernel pro entry t k c) in
      let (u, f, y) =
        user_made blocks fuel names.process_entry names.user_main e (pro ∷ []) next heap2 stack2
          elf_Sound.links (refl, tt) (omega arith) next_new h.room2 in
      let stays : u.current_process ≡ e.current_process = elim y.runs [
        | inl r ↦ absurd (cc r.0)
        | inr r ↦ r.1
      ] in
      let regs : (u.proc pro).regs ≡ place_of heap1 =
        regs_kept (u.proc pro) (e.proc pro) next (y.others pro (λ q. h.apart (reversed q)))
        ∙ ap (λ (f : ℕ → Process). (f pro).regs) s.procs
        ∙ x.saved_at in
      (
        u,
        f,
        y,
        Created-Sound e u (pro ∷ []) next (allocate_pages_contig 4 3 heap2.vm).0 stack2
            names.process_entry names.user_main 1 elf_Sound next_new y,
        stays ∙ s.current ∙ runs_first,
        ap u.frame regs
            ∙ y.frames (place_of heap1) h.places
            ∙ ap e.frame (reversed x.saved_at)
            ∙ s.registers
            ∙ ap (λ (r : Registers). record r { eip = entry; user_esp = user_stack_top }) x.begins,
      )
