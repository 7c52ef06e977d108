-- ===== src/Interrupt/Turn.antt =====
-- One turn of the scheduler, from a timer interrupt of kernel/kernel.c.
use my_kernel.Common.{
  ℕ, ◌+◌, ◌%◌, ◌^◌, ◌<◌, ◌≡◌, refl, ◌∙◌, inl, inr, true, false, ◌||◌, List, ◌∷◌, ◌++◌, arith, ◌==◌,
  if◌then◌else◌, length,
}
use my_kernel.Common.Run.{Run, ok}
use my_kernel.Process.{Registers, Process, Kernel, is_ready}
use my_kernel.Process.Links.{Links, Links-split, Links-head_ne}
use my_kernel.Process.Schedule.{IsRunning, first_ready}
use my_kernel.Process.Wake.{
  Woken, wake_processes-Woken, wake_ready, wake-parent, wake_settled, settled,
}
use my_kernel.Syscall.{Call, call_kernel, returned, switch_to}
use my_kernel.Syscall.Yield.{Yields, sys_yield-Yields, switch_to-same}
use my_kernel.Interrupt.{irq0_handler}

-- The kernel `t`, with the processes `g`, runs the first of them that is ready behind the current
-- one, or the current one again; processes that were ready still are.
pub record Turns (k : Kernel) (before after : List ℕ) (t : Kernel) (g : ℕ → Process) : Type 0 where
  pub kept : (q : ℕ) → is_ready (k.proc q).state ≡ true → is_ready (g q).state ≡ true
  pub links : Links g 0 k.process_list (before ++ k.current_process ∷ after)
  pub parent : (q : ℕ) → (g q).parent ≡ (k.proc q).parent
  pub settles : (q : ℕ) → settled (k.proc q).state ≡ true → settled (g q).state ≡ true
  pub proc : t.proc ≡ g
  pub head : t.process_list ≡ k.process_list
  pub current : t.current_process ≡ (
      if first_ready g (after ++ before) == 0
      then k.current_process
      else first_ready g (after ++ before))

Woken-ready :
    (ticks : ℕ) (xs : List ℕ) (f g : ℕ → Process) (q : ℕ)
    → Woken ticks xs f g
    → is_ready (f q).state ≡ true
    → is_ready (g q).state ≡ true
Woken-ready ticks xs f g q w r = ground (arith, w q, wake_ready ticks (f q))

Woken-parent :
    (ticks : ℕ) (xs : List ℕ) (f g : ℕ → Process) (q : ℕ)
    → Woken ticks xs f g
    → (g q).parent ≡ (f q).parent
Woken-parent ticks xs f g q w = ground (arith, w q, wake-parent ticks (f q))

Woken-settled :
    (ticks : ℕ) (xs : List ℕ) (f g : ℕ → Process) (q : ℕ)
    → Woken ticks xs f g
    → settled (f q).state ≡ true
    → settled (g q).state ≡ true
Woken-settled ticks xs f g q w r = ground (arith, w q, wake_settled ticks (f q))

-- What `sys_yield` leaves is a turn.
pub Yields-Turns :
    (k : Kernel) (regs : Registers) (before after : List ℕ) (out : Run Call) (g : ℕ → Process)
    → Yields k regs before after out g
    → (c : Call) × (out ≡ ok c) × Turns k before after (call_kernel c) g
Yields-Turns k regs before after out g y =
    let all = before ++ k.current_process ∷ after in
    let next = first_ready g (after ++ before) in
    let kept : (q : ℕ) → is_ready (k.proc q).state ≡ true → is_ready (g q).state ≡ true =
      λ q r. Woken-ready k.ticks all k.proc g q y.woken r in
    let parent : (q : ℕ) → (g q).parent ≡ (k.proc q).parent =
      λ q. Woken-parent k.ticks all k.proc g q y.woken in
    let settles : (q : ℕ) → settled (k.proc q).state ≡ true → settled (g q).state ≡ true =
      λ q r. Woken-settled k.ticks all k.proc g q y.woken r in
    elim y.result [
      | inl (z, e) ↦ (
        returned (record k { proc = g }) regs,
        e,
        record {
          kept = kept;
          parent = parent;
          settles = settles;
          links = y.links;
          proc = refl;
          head = refl;
          current = ground arith;
        },
      )
      | inr (z, r, n, e) ↦
          let (p, h, c) = switch_to-same regs next (record k { proc = g }) in
          (
            switch_to regs next (record k { proc = g }),
            e,
            record {
              kept = kept;
              parent = parent;
              settles = settles;
              links = y.links;
              proc = p;
              head = h;
              current = let o : (next == 0) ≡ false = ground arith in rw o c;
            },
          )
    ]

-- With the current process once in the list, and fuel for every process and the end, a timer
-- interrupt ends in a turn.
pub irq0_handler-Turns :
    (fuel : ℕ) (regs : Registers) (k : Kernel) (before after : List ℕ)
    → IsRunning k before after
    → length (before ++ k.current_process ∷ after) < fuel
    → (c : Call) × (g : ℕ → Process) × (irq0_handler fuel regs k ≡ ok c)
      × Turns k before after (call_kernel c) g
unfolding irq0_handler
irq0_handler-Turns fuel regs k before after r h =
    let all = before ++ k.current_process ∷ after in
    let nz = (Links-split before after k.proc 0 k.process_list _ r.links).1 in
    let nl = Links-head_ne before after k.proc 0 k.process_list _ r.links in
    let running : (k.current_process == 0 || k.process_list == 0) ≡ false = ground arith in
    let t = record k { ticks = (k.ticks + 1) % 2 ^ 32 } in
    let (f, e, w, links) = wake_processes-Woken fuel t all r.links h in
    let u = record t { proc = f } in
    let r' : IsRunning u before after = record {
      links = links;
      once_before = r.once_before;
      once_after = r.once_after;
    } in
    let (g, y) = sys_yield-Yields fuel regs u before after r' h in
    let (c, d, turn) = Yields-Turns u regs before after _ g y in
    (
      c,
      g,
      rw (running, e) d,
      record {
        kept = λ q a. turn.kept q (Woken-ready t.ticks all k.proc f q w a);
        parent = λ q. turn.parent q ∙ Woken-parent t.ticks all k.proc f q w;
        settles = λ q a. turn.settles q (Woken-settled t.ticks all k.proc f q w a);
        links = turn.links;
        proc = turn.proc;
        head = turn.head;
        current = turn.current;
      },
    )
