-- ===== src/Process/Context.antt =====
-- `save_context` and `context_switch` of kernel/process.c.
use Prim.Native.Nat.{bit_and}
use my_kernel.Common.{
  sym, ℕ, ◌%◌, ◌≡◌, ◌≢◌, refl, ◌∙◌, inl, inr, true, false, ◌||◌, arith, ◌==◌, Bool-cases,
}
use my_kernel.Common.Bits.{bit_and-0x3}
use my_kernel.Process.{Registers, Kernel, assign, save_registers, save_context, context_switch}

-- The interrupt came from user mode.
abbrev pub FromUser : Registers → Type 0
FromUser r = r.cs % 4 ≡ 3

save_registers-user : (old r : Registers) → FromUser r → save_registers old r ≡ r
unfolding save_registers
save_registers-user old r h =
    let z : (bit_and r.cs 3 == 3) ≡ true = ground (arith, bit_and-0x3 r.cs) in rw z

save_registers-kernel :
    (old r : Registers)
    → ¬ FromUser r
    → save_registers old r ≡ record r { user_esp = old.user_esp; user_ss = old.user_ss }
unfolding save_registers
save_registers-kernel old r h =
    let z : (bit_and r.cs 3 == 3) ≡ false = ground (arith, bit_and-0x3 r.cs) in rw z

save_context-other :
    (s : Registers) (k : Kernel) (a : ℕ)
    → a ≢ (k.proc k.current_process).regs
    → ((save_context s k).frame a ≡ k.frame a) × ((save_context s k).proc ≡ k.proc)
unfolding save_context assign
save_context-other s k a h =
    elim (Bool-cases (k.current_process == 0 || (k.proc k.current_process).regs == 0)) [
      | inl y ↦ rw y (refl, refl)
      | inr n ↦ rw n (ground arith, refl)
    ]

pub context_switch-same :
    (r : Registers) (next : ℕ) (k : Kernel)
    → let t = (context_switch r next k).0 in
      (t.proc ≡ k.proc) × (t.process_list ≡ k.process_list) × (t.current_process ≡ next)
unfolding context_switch save_context
context_switch-same r next k = (ground arith, ground arith, refl)

-- A switch to `next` and, later, a switch of `after` back to the process that was interrupted.
module _ (r : Registers) (next : ℕ) (k : Kernel) (some_process : k.current_process ≢ 0)
    (some_frame : (k.proc k.current_process).regs ≢ 0) where
  saved :
      (save_context r k).frame (k.proc k.current_process).regs
      ≡ save_registers (k.frame (k.proc k.current_process).regs) r
  unfolding save_context assign
  saved =
      let z : (k.current_process == 0 || (k.proc k.current_process).regs == 0) ≡ false =
        ground arith in
      rw z (ground arith)

  -- `context_switch` saves the interrupted registers in the frame of the current process: all of
  -- them if the interrupt came from user mode, else all but the user stack. It makes `next` the
  -- current process, points `esp0` to its kernel stack and loads its frame. The frames of other
  -- processes and the processes themselves stay as they are.
  pub context_switch_lem :
      let (t, loaded) = context_switch r next k in
      let p = k.proc k.current_process in
      (FromUser r → t.frame p.regs ≡ r)
      × (¬ FromUser r
          → t.frame p.regs
            ≡ record r { user_esp = (k.frame p.regs).user_esp; user_ss = (k.frame p.regs).user_ss })
      × ((a : ℕ) → a ≢ p.regs → t.frame a ≡ k.frame a)
      × (t.proc ≡ k.proc)
      × (t.current_process ≡ next)
      × (t.esp0 ≡ (k.proc next).kernel_stack_to)
      × (loaded ≡ t.frame (k.proc next).regs)
  unfolding context_switch save_context assign
  context_switch_lem =
      let p = k.proc k.current_process in
      let z : (k.current_process == 0 || p.regs == 0) ≡ false = ground arith in
      (
        λ u. saved ∙ save_registers-user (k.frame p.regs) r u,
        λ u. saved ∙ save_registers-kernel (k.frame p.regs) r u,
        λ a n. rw z (ground arith),
        rw z,
        refl,
        rw z,
        rw z,
      )

-- A process that is interrupted in user mode resumes with the registers that it had, however
-- many switches between other processes lie between, as long as none writes its frame.
pub resume :
    (r s : Registers) (next : ℕ) (k between : Kernel)
    → k.current_process ≢ 0
    → (k.proc k.current_process).regs ≢ 0
    → FromUser r
    → between.proc ≡ k.proc
    → between.frame (k.proc k.current_process).regs
      ≡ (context_switch r next k).0.frame (k.proc k.current_process).regs
    → (between.proc between.current_process).regs ≢ (k.proc k.current_process).regs
    → (context_switch s k.current_process between).1 ≡ r
unfolding context_switch
resume r s next k between nz nf u e f g =
    let a = (k.proc k.current_process).regs in
    let (x, y) = save_context-other s between a (λ q. g (sym q)) in
    let back = (context_switch_lem r next k nz nf).0 u in
    let at_frame : ((save_context s between).proc k.current_process).regs ≡ a = rw (y, e) in
    rw at_frame (x ∙ f ∙ back)
