-- ===== src/System/Run.antt =====
-- Sequences of timer interrupts and system calls on the processes of kernel/process.c.
use my_kernel.Common.{
  ℕ, ◌+◌, ◌%◌, ◌^◌, ◌<◌, ◌≡◌, ◌≢◌, refl, sym, ap, ◌∙◌, ◌⊎◌, inl, inr, true, List, [], ◌∷◌, ◌++◌,
  arith, length,
}
use my_kernel.Common.Run as Result
use my_kernel.Common.Run.{ok, ◌>>=◌}
use my_kernel.Process.{Registers, Process, Kernel, assign}
use my_kernel.Process.Links.{Links-split, has, has-append}
use my_kernel.Process.Schedule.{IsRunning, first_ready, first_ready-cases}
use my_kernel.Process.Wake.{settled}
use my_kernel.Process.Circle.{Circle-IsRunning}
use my_kernel.Process.ExitProcess.{marked, marked-IsRunning, exit_process-Exits}
use my_kernel.Syscall.{call_kernel, switch_to}
use my_kernel.Syscall.Yield.{switch_to-same, sys_yield-Yields}
use my_kernel.Syscall.Sleep.{put_asleep, put_asleep-IsRunning, sys_sleep-Sleeps}
use my_kernel.Syscall.Status.{
  with_status, with_status-same, with_status-IsRunning, sys_exit-exit_process,
}
use my_kernel.Interrupt.Turn.{Turns, Yields-Turns, irq0_handler-Turns}
use my_kernel.System.{
  Event, tick, yield, sleep, exit, Machine, runs, stops, machine_kernel, after_call, step, run,
}
use my_kernel.System.Sound.{Sound, Sound-Circle, Keeps, Keeps-Sound, has-middle}

-- The first ready process stands in the list, unless there is none.
next-has :
    (f : ℕ → Process) (before after : List ℕ) (c : ℕ)
    → (first_ready f (after ++ before) ≡ 0)
      ⊎ (has (first_ready f (after ++ before)) (before ++ c ∷ after) ≡ true)
next-has f before after c =
    let n = first_ready f (after ++ before) in
    elim (first_ready-cases f (after ++ before)) [
      | inl z ↦ inl z
      | inr (h, r) ↦
          inr (ground (arith, has-append n after before, has-append n before (c ∷ after)))
    ]

Turns-Keeps :
    (k t : Kernel) (before after : List ℕ) (g : ℕ → Process)
    → Turns k before after t g
    → Keeps k (before ++ k.current_process ∷ after) t
Turns-Keeps k t before after g turn = record {
  links = rw (turn.proc, turn.head) turn.links;
  current = ground (
    arith,
    turn.current,
    next-has g before after k.current_process,
    has-middle k.current_process before after,
  );
  settles = λ q s. rw turn.proc (turn.settles q s);
  parent = λ q. rw turn.proc (turn.parent q);
}

-- A machine whose kernel keeps what `k` had.
abbrev Continues : Kernel → List ℕ → Result.Run Machine → Type 0
Continues k xs out = (m : Machine) × (out ≡ ok m) × Keeps k xs (machine_kernel m)

tick-Continues :
    (fuel : ℕ) (regs : Registers) (k : Kernel) (before after : List ℕ)
    → IsRunning k before after
    → length (before ++ k.current_process ∷ after) < fuel
    → Continues k (before ++ k.current_process ∷ after) (step fuel (tick regs) k)
unfolding step
tick-Continues fuel regs k before after r h =
    let (c, g, e, t) = irq0_handler-Turns fuel regs k before after r h in
    (after_call c, rw e, Turns-Keeps k (call_kernel c) before after g t)

yield-Continues :
    (fuel : ℕ) (regs : Registers) (k : Kernel) (before after : List ℕ)
    → IsRunning k before after
    → length (before ++ k.current_process ∷ after) < fuel
    → Continues k (before ++ k.current_process ∷ after) (step fuel (yield regs) k)
unfolding step
yield-Continues fuel regs k before after r h =
    let (g, y) = sys_yield-Yields fuel regs k before after r h in
    let (c, e, t) = Yields-Turns k regs before after _ g y in
    (after_call c, rw e, Turns-Keeps k (call_kernel c) before after g t)

put_asleep-settled :
    (due : ℕ) (k : Kernel) (q : ℕ)
    → (settled (k.proc q).state ≡ true → settled (put_asleep due k q).state ≡ true)
      × ((put_asleep due k q).parent ≡ (k.proc q).parent)
unfolding assign
put_asleep-settled due k q = (λ s. ground arith, ground arith)

sleep-Continues :
    (fuel : ℕ) (regs : Registers) (time : ℕ) (k : Kernel) (before after : List ℕ)
    → IsRunning k before after
    → length (before ++ k.current_process ∷ after) < fuel
    → Continues k (before ++ k.current_process ∷ after) (step fuel (sleep regs time) k)
unfolding step
sleep-Continues fuel regs time k before after r h =
    let due = (k.ticks + time) % 2 ^ 32 in
    let f = put_asleep due k in
    let t = record k { proc = f } in
    let l = (put_asleep-IsRunning due k before after r).links in
    let s = sys_sleep-Sleeps fuel regs time k before after r h in
    let next = first_ready f (after ++ before) in
    elim s.result [
      | inl (z, e) ↦ (
        runs t,
        rw e,
        record {
          links = l;
          current = has-middle k.current_process before after;
          settles = λ q. (put_asleep-settled due k q).0;
          parent = λ q. (put_asleep-settled due k q).1;
        },
      )
      | inr (nz, on, n, e) ↦
          let (p, hd, cur) = switch_to-same regs next t in
          (
            after_call (switch_to regs next t),
            rw e,
            record {
              links = rw (p, hd) l;
              current = rw cur (ground (arith, next-has f before after k.current_process));
              settles = λ q. rw p (put_asleep-settled due k q).0;
              parent = λ q. rw p (put_asleep-settled due k q).1;
            },
          )
    ]

marked-settled :
    (k : Kernel) (q : ℕ)
    → (settled (k.proc q).state ≡ true → settled (marked k q).state ≡ true)
      × ((marked k q).parent ≡ (k.proc q).parent)
unfolding assign
marked-settled k q = (λ s. ground arith, ground arith)

exit-Continues :
    (fuel status : ℕ) (k : Kernel) (before after : List ℕ)
    → IsRunning k before after
    → length (before ++ k.current_process ∷ after) < fuel
    → (k.proc k.current_process).parent ≢ k.current_process
    → Continues k (before ++ k.current_process ∷ after) (step fuel (exit status) k)
unfolding step
exit-Continues fuel status k before after r h np =
    let c = k.current_process in
    let u = with_status status k in
    let r' = with_status-IsRunning status k before after r in
    let nz = (Links-split before after k.proc 0 k.process_list c r.links).1 in
    let x =
      exit_process-Exits fuel u before after r' h
        (λ e. np (sym (with_status-same status k c).1 ∙ e)) in
    let d = sys_exit-exit_process fuel status k nz in
    let l = (marked-IsRunning u before after r').links in
    let f = marked u in
    let next = first_ready f (after ++ before) in
    let settles : (q : ℕ) → settled (k.proc q).state ≡ true → settled (f q).state ≡ true =
      λ q s. (marked-settled u q).0 (ap settled (with_status-same status k q).0 ∙ s) in
    let parent : (q : ℕ) → (f q).parent ≡ (k.proc q).parent =
      λ q. (marked-settled u q).1 ∙ (with_status-same status k q).1 in
    elim x.result [
      | inl (z, e) ↦ (
        stops (record u { proc = f }),
        rw (d, e),
        record {
          links = l;
          current = has-middle c before after;
          settles = settles;
          parent = parent;
        },
      )
      | inr (n, on, ne, e) ↦ (
        runs (record u { proc = f; current_process = next }),
        rw (d, e),
        record {
          links = l;
          current = ground (arith, next-has f before after c);
          settles = settles;
          parent = parent;
        },
      )
    ]

step-Continues :
    (fuel : ℕ) (e : Event) (k : Kernel) (before after : List ℕ)
    → IsRunning k before after
    → length (before ++ k.current_process ∷ after) < fuel
    → (k.proc k.current_process).parent ≢ k.current_process
    → Continues k (before ++ k.current_process ∷ after) (step fuel e k)
step-Continues fuel (tick regs) k before after r h np = tick-Continues fuel regs k before after r h
step-Continues fuel (yield regs) k before after r h np =
    yield-Continues fuel regs k before after r h
step-Continues fuel (sleep regs time) k before after r h np =
    sleep-Continues fuel regs time k before after r h
step-Continues fuel (exit status) k before after r h np =
    exit-Continues fuel status k before after r h np

-- From a sound kernel an event ends without a fault, with fuel for every process and the end, and
-- leaves a sound kernel with the same list of processes.
pub step-Sound :
    (fuel : ℕ) (e : Event) (k : Kernel) (xs : List ℕ)
    → Sound k xs
    → length xs < fuel
    → (m : Machine) × (step fuel e k ≡ ok m) × Sound (machine_kernel m) xs
step-Sound fuel e k xs s h =
    let (before, after, same, c) = Sound-Circle k xs s in
    let (m, d, keeps) =
      step-Continues fuel e k before after (Circle-IsRunning k before after c) (rw same at h)
        (s.parent k.current_process s.current) in
    (m, d, Keeps-Sound k (machine_kernel m) xs s (rw same keeps))

-- From a sound kernel, with fuel for every process and the end, every sequence of timer
-- interrupts, yields, sleeps and exits runs through, or to the halt, without a fault, and leaves a
-- sound kernel with the same list of processes.
pub run-Sound :
    (fuel : ℕ) (es : List Event) (m : Machine) (xs : List ℕ)
    → Sound (machine_kernel m) xs
    → length xs < fuel
    → (m' : Machine) × (run fuel es m ≡ ok m') × Sound (machine_kernel m') xs
unfolding run
run-Sound fuel [] m xs s h = (m, refl, s)
run-Sound fuel (e ∷ es) (stops k) xs s h = (stops k, refl, s)
run-Sound fuel (e ∷ es) (runs k) xs s h =
    let (m, d, t) = step-Sound fuel e k xs s h in
    let (m', d', t') = run-Sound fuel es m xs t h in (m', rw d d', t')
