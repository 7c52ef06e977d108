-- ===== src/Interrupt/RoundRobin.antt =====
-- The timer of kernel/kernel.c and the scheduler of kernel/process.c together: no ready process
-- waits for ever.
use my_kernel.Common.{
  ℕ, zero, suc, ◌≤◌, ◌<◌, ◌≡◌, ap, ◌∙◌, ◌⊎◌, inl, inr, true, false, List, ◌∷◌, ◌++◌, arith, ◌==◌,
  length, length-append, append_assoc,
}
use my_kernel.Common.Run.{Run, ok, ◌>>=◌}
use my_kernel.Process.{Registers, Process, Kernel, is_ready}
use my_kernel.Process.Links.{Links, Links-split}
use my_kernel.Process.Schedule.{first_ready}
use my_kernel.Process.Circle.{Circle, Circle-IsRunning, rotate, first_ready-before}
use my_kernel.Syscall.{Call, call_kernel}
use my_kernel.Interrupt.{irq0_handler}
use my_kernel.Interrupt.Turn.{Turns, irq0_handler-Turns}

-- `n` timer interrupts, with the interrupted registers of each.
pub timer : ℕ → ℕ → (ℕ → Registers) → Kernel → Run Kernel
timer fuel zero regs k = ok k
timer fuel (suc n) regs k = do
  c ← irq0_handler fuel (regs 0) k
  timer fuel n (λ i. regs (suc i)) (call_kernel c)

-- A turn to `x`, which stands behind `pre` in the circle.
turned :
    (k t : Kernel) (before after pre post : List ℕ) (x : ℕ) (g : ℕ → Process)
    → Circle k before after
    → Turns k before after t g
    → after ++ before ≡ pre ++ x ∷ post
    → first_ready g (after ++ before) ≡ x
    → (t.current_process ≡ x)
      × ((before' : List ℕ) × (after' : List ℕ) × Circle t before' after'
          × (before' ++ x ∷ after' ≡ before ++ k.current_process ∷ after)
          × (after' ++ before' ≡ post ++ k.current_process ∷ pre))
turned k t before after pre post x g c turn e f =
    let (b, a, same, round) = rotate before after pre post k.current_process x e in
    let l : Links g 0 k.process_list (b ++ x ∷ a) = rw same turn.links in
    let nz = (Links-split b a g 0 k.process_list x l).1 in
    let z : (x == 0) ≡ false = ground arith in
    let now : t.current_process ≡ x = turn.current ∙ rw (f, z) in
    (
      now,
      (
        b,
        a,
        record { links = rw (now, turn.proc, turn.head) l; distinct = rw (now, same) c.distinct },
        same,
        round,
      ),
    )

-- `q` is nearer than `us` in the circle of `t`, and still ready.
record Nearer (t : Kernel) (us : List ℕ) (q size : ℕ) : Type 0 where
  before : List ℕ
  after : List ℕ
  circle : Circle t before after
  same : length (before ++ t.current_process ∷ after) ≡ size
  us' : List ℕ
  vs' : List ℕ
  ahead : after ++ before ≡ us' ++ q ∷ vs'
  less : length us' < length us
  ready : is_ready (t.proc q).state ≡ true

one_turn :
    (k t : Kernel) (before after us vs : List ℕ) (q : ℕ) (g : ℕ → Process)
    → Circle k before after
    → Turns k before after t g
    → after ++ before ≡ us ++ q ∷ vs
    → is_ready (k.proc q).state ≡ true
    → (t.current_process ≡ q) ⊎ Nearer t us q (length (before ++ k.current_process ∷ after))
one_turn k t before after us vs q g c turn e r =
    elim (first_ready-before g us vs q (turn.kept q r)) [
      | inl f ↦ inl ((turned k t before after us vs q g c turn e (rw e f)).0)
      | inr (pre, x, rest, s, f) ↦
          let e' : after ++ before ≡ pre ++ x ∷ (rest ++ q ∷ vs) =
            e ∙ rw s (append_assoc pre (x ∷ rest) (q ∷ vs)) in
          let (now, (b, a, circle, same, round)) =
            turned k t before after pre (rest ++ q ∷ vs) x g c turn e' (rw e f) in
          inr (record {
            before = b;
            after = a;
            circle = circle;
            same = rw (now, same);
            us' = rest;
            vs' = vs ++ k.current_process ∷ pre;
            ahead = round ∙ append_assoc rest (q ∷ vs) (k.current_process ∷ pre);
            less = omega (arith, ap length s, length-append {0} pre (x ∷ rest));
            ready = rw turn.proc (turn.kept q r);
          })
    ]

first_turn :
    (fuel : ℕ) (regs : Registers) (k : Kernel) (before after us vs : List ℕ) (q : ℕ)
    → Circle k before after
    → length (before ++ k.current_process ∷ after) < fuel
    → after ++ before ≡ us ++ q ∷ vs
    → is_ready (k.proc q).state ≡ true
    → (c : Call) × (irq0_handler fuel regs k ≡ ok c)
      × (((call_kernel c).current_process ≡ q)
          ⊎ Nearer (call_kernel c) us q (length (before ++ k.current_process ∷ after)))
first_turn fuel regs k before after us vs q c enough e r =
    let (call, g, d, turn) =
      irq0_handler-Turns fuel regs k before after (Circle-IsRunning k before after c) enough in
    (call, d, one_turn k (call_kernel call) before after us vs q g c turn e r)

reaches :
    (m fuel : ℕ) (regs : ℕ → Registers) (k : Kernel) (before after us vs : List ℕ) (q : ℕ)
    → length us ≤ m
    → Circle k before after
    → length (before ++ k.current_process ∷ after) < fuel
    → after ++ before ≡ us ++ q ∷ vs
    → is_ready (k.proc q).state ≡ true
    → (n : ℕ) × (t : Kernel) × (n ≤ length us)
      × (timer fuel (suc n) regs k ≡ ok t)
      × (t.current_process ≡ q)
unfolding timer
reaches zero fuel regs k before after us vs q small c enough e r =
    let (call, d, o) = first_turn fuel (regs 0) k before after us vs q c enough e r in
    elim o [
      | inl now ↦ (0, call_kernel call, omega arith, rw d, now)
      | inr n ↦ absurd (omega (arith, n.less))
    ]
reaches (suc m) fuel regs k before after us vs q small c enough e r =
    let (call, d, o) = first_turn fuel (regs 0) k before after us vs q c enough e r in
    elim o [
      | inl now ↦ (0, call_kernel call, omega arith, rw d, now)
      | inr n ↦
          let (i, t, le, run, now) =
            reaches m fuel (λ i. regs (suc i)) (call_kernel call) n.before n.after n.us' n.vs' q
              (omega (arith, n.less)) n.circle (omega (arith, n.same)) n.ahead n.ready in
          (suc i, t, omega (arith, n.less), rw d run, now)
    ]

-- From a list of processes without repetition, with the current one in it, and fuel for every
-- process and the end, every ready process is reached: if `us` stands between the current process
-- and `q`, going round, then `q` has the processor after at most one timer interrupt more than
-- there are processes in `us`, whatever the registers at each interrupt and whichever processes
-- wake meanwhile.
pub timer-reaches :
    (fuel : ℕ) (regs : ℕ → Registers) (k : Kernel) (before after us vs : List ℕ) (q : ℕ)
    → Circle k before after
    → length (before ++ k.current_process ∷ after) < fuel
    → after ++ before ≡ us ++ q ∷ vs
    → is_ready (k.proc q).state ≡ true
    → (n : ℕ) × (t : Kernel) × (n ≤ length us)
      × (timer fuel (suc n) regs k ≡ ok t)
      × (t.current_process ≡ q)
timer-reaches fuel regs k before after us vs q c enough e r =
    reaches (length us) fuel regs k before after us vs q (omega arith) c enough e r
