-- ===== src/Syscall/Yield.antt =====
-- `sys_yield` of kernel/syscall.c: it wakes, then goes round.
use my_kernel.Common.{
  ℕ, ◌<◌, ◌≡◌, ◌≢◌, ◌⊎◌, inl, inr, true, false, List, ◌∷◌, ◌++◌, arith, ◌==◌, length, Bool-cases,
}
use my_kernel.Common.Run.{Run, ok}
use my_kernel.Process.{Registers, Process, Kernel, is_ready}
use my_kernel.Process.Schedule.{IsRunning, first_ready, schedule-first_ready, first_ready-Ready}
use my_kernel.Process.Links.{Links}
use my_kernel.Process.Context.{context_switch-same}
use my_kernel.Process.Wake.{Woken, wake_processes-Woken}
use my_kernel.Syscall.{Call, call_kernel, returned, switch_to, sys_yield}

-- The switch changes no process and no link.
pub switch_to-same :
    (regs : Registers) (next : ℕ) (k : Kernel)
    → let t = call_kernel (switch_to regs next k) in
      (t.proc ≡ k.proc) × (t.process_list ≡ k.process_list) × (t.current_process ≡ next)
unfolding switch_to
switch_to-same regs next k = context_switch-same regs next k

-- `g` are the processes after waking.
pub record Yields (k : Kernel) (regs : Registers) (before after : List ℕ) (out : Run Call)
    (g : ℕ → Process) : Type 0 where
  pub links : Links g 0 k.process_list (before ++ k.current_process ∷ after)
  pub woken : Woken k.ticks (before ++ k.current_process ∷ after) k.proc g
  pub result :
      let t = record k { proc = g } in
      let next = first_ready g (after ++ before) in
      ((next ≡ 0) × (out ≡ ok (returned t regs)))
      ⊎ ((next ≢ 0)
          × (is_ready (g next).state ≡ true)
          × (next ≢ k.current_process)
          × (out ≡ ok (switch_to regs next t)))

-- With the current process once in the list, `sys_yield` makes the processes ready whose time has
-- come, and switches to the first ready process in round-robin order behind the current one. It
-- returns to the current process if no other one is ready then.
pub sys_yield-Yields :
    (fuel : ℕ) (regs : Registers) (k : Kernel) (before after : List ℕ)
    → IsRunning k before after
    → length (before ++ k.current_process ∷ after) < fuel
    → (g : ℕ → Process) × Yields k regs before after (sys_yield fuel regs k) g
unfolding sys_yield
sys_yield-Yields fuel regs k before after r h =
    let all = before ++ k.current_process ∷ after in
    let (g, e, w, links) = wake_processes-Woken fuel k all r.links h in
    let t = record k { proc = g } in
    let r' : IsRunning t before after = record {
      links = links;
      once_before = r.once_before;
      once_after = r.once_after;
    } in
    let s = schedule-first_ready fuel t before after r' h in
    let next = first_ready g (after ++ before) in
    (
      g,
      record {
        links = links;
        woken = w;
        result = elim (Bool-cases (next == 0)) [
          | inl y ↦ inl (ground arith, rw (e, s, y))
          | inr n ↦ elim (first_ready-Ready t before after r') [
            | inl z ↦ absurd (ground (arith, z))
            | inr (m, ready) ↦
                let o : (next == k.current_process) ≡ false = ground arith in
                inr (ground arith, ready, m, rw (e, s, n, o))
          ]
        ];
      },
    )
