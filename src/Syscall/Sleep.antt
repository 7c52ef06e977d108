-- ===== src/Syscall/Sleep.antt =====
-- `sys_sleep` of kernel/syscall.c.
use my_kernel.Common.{
  ℕ, ◌+◌, ◌%◌, ◌^◌, ◌<◌, ◌≡◌, ◌≢◌, refl, ◌⊎◌, inl, inr, true, false, List, ◌∷◌, ◌++◌, arith, ◌==◌,
  if◌then◌else◌, length, Bool-cases,
}
use my_kernel.Common.Run.{Run, ok}
use my_kernel.Process.{
  blocked, ready, Registers, Process, Kernel, is_ready, assign, with_state, int_ge, wake,
}
use my_kernel.Process.Links.{Links-split, Links-same, SameNext-all}
use my_kernel.Process.Schedule.{IsRunning, first_ready, schedule-first_ready, first_ready-Ready}
use my_kernel.Process.Wake.{wake-blocked}
use my_kernel.Syscall.{Call, returned, switch_to, sys_sleep}

-- The process once it sleeps until `due`.
abbrev pub asleep : ℕ → Process → Process
asleep due p = record p { wake = due; state = blocked }

-- The processes when the current one sleeps.
abbrev pub put_asleep : ℕ → Kernel → ℕ → Process
put_asleep due k = assign k.proc k.current_process (asleep due (k.proc k.current_process))

pub put_asleep-IsRunning :
    (due : ℕ) (k : Kernel) (before after : List ℕ)
    → IsRunning k before after
    → IsRunning (record k { proc = put_asleep due k }) before after
unfolding assign
put_asleep-IsRunning due k before after r =
    let same : (q : ℕ) → (put_asleep due k q).next ≡ (k.proc q).next = λ q. ground arith in
    let all = before ++ k.current_process ∷ after in
    record {
      links =
          Links-same all k.proc (put_asleep due k) 0 k.process_list
            (SameNext-all all k.proc (put_asleep due k) same) r.links;
      once_before = r.once_before;
      once_after = r.once_after;
    }

-- The call leaves the processes `f`, in which the current one sleeps until `due` and wakes then.
pub record Sleeps (due : ℕ) (k : Kernel) (regs : Registers) (before after : List ℕ) (out : Run Call)
    (f : ℕ → Process) : Type 0 where
  pub sleeper : f k.current_process ≡ asleep due (k.proc k.current_process)
  pub others : (q : ℕ) → q ≢ k.current_process → f q ≡ k.proc q
  pub wakes :
      (now : ℕ)
      → wake now (f k.current_process)
        ≡ (if int_ge now due then with_state ready (f k.current_process) else f k.current_process)
  pub result :
      let t = record k { proc = f } in
      let next = first_ready f (after ++ before) in
      ((next ≡ 0) × (out ≡ ok (returned t regs)))
      ⊎ ((next ≢ 0)
          × (is_ready (f next).state ≡ true)
          × (next ≢ k.current_process)
          × (out ≡ ok (switch_to regs next t)))

-- With the current process once in the list, `sys_sleep` blocks it until the tick that it asks
-- for, which `wake_processes` recognizes, changes no other process and switches to the first ready
-- one in round-robin order. Without a ready process it returns to the caller, which runs on
-- although it is blocked.
pub sys_sleep-Sleeps :
    (fuel : ℕ) (regs : Registers) (time : ℕ) (k : Kernel) (before after : List ℕ)
    → IsRunning k before after
    → length (before ++ k.current_process ∷ after) < fuel
    → let due = (k.ticks + time) % 2 ^ 32 in
      Sleeps due k regs before after (sys_sleep fuel regs time k) (put_asleep due k)
unfolding sys_sleep assign
sys_sleep-Sleeps fuel regs time k before after r h =
    let due = (k.ticks + time) % 2 ^ 32 in
    let f = put_asleep due k in
    let t = record k { proc = f } in
    let r' = put_asleep-IsRunning due k before after r in
    let s = schedule-first_ready fuel t before after r' h in
    let next = first_ready f (after ++ before) in
    let nz : (k.current_process == 0) ≡ false =
      ground (arith, (Links-split before after k.proc 0 k.process_list _ r.links).1) in
    let self : (k.current_process == k.current_process) ≡ true = ground arith in
    record {
      sleeper = rw self;
      others = λ q n. ground arith;
      wakes = λ now. rw (self, wake-blocked now (asleep due (k.proc k.current_process)) refl);
      result = elim (Bool-cases (next == 0)) [
        | inl y ↦ inl (ground arith, rw (nz, s, y))
        | inr n ↦ elim (first_ready-Ready t before after r') [
          | inl z ↦ absurd (ground (arith, z))
          | inr (m, on) ↦
              let o : (next == k.current_process) ≡ false = ground arith in
              inr (ground arith, on, m, rw (nz, s, n, o))
        ]
      ];
    }
