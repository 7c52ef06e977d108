-- ===== src/Process/ExitProcess.antt =====
-- `exit_process` of kernel/process.c.
use my_kernel.Common.{
  ℕ, ◌<◌, ◌≡◌, ◌≢◌, ◌⊎◌, inl, inr, true, false, List, ◌∷◌, ◌++◌, arith, ◌==◌, if◌then◌else◌, length,
  Bool-cases,
}
use my_kernel.Common.Run.{Run, ok}
use my_kernel.Process.{
  Process, ready, zombie, Kernel, is_ready, assign, with_state, Exit, switched, halted,
  exit_process,
}
use my_kernel.Process.Links.{Links-same, Links-split, SameNext-all}
use my_kernel.Process.Schedule.{IsRunning, first_ready, first_ready-Ready, schedule-first_ready}

-- The processes after `exit_process` has marked them.
abbrev pub marked : Kernel → ℕ → Process
marked k =
    let dead = k.current_process in
    let proc = assign k.proc dead (with_state zombie (k.proc dead)) in
    let parent = (proc dead).parent in
    if parent == 0 then proc else assign proc parent (with_state ready (proc parent))

marked-next : (k : Kernel) (q : ℕ) → (marked k q).next ≡ (k.proc q).next
unfolding assign
marked-next k q = ground arith

pub marked-IsRunning :
    (k : Kernel) (before after : List ℕ)
    → IsRunning k before after
    → IsRunning (record k { proc = marked k }) before after
marked-IsRunning k before after r = record {
  links =
      Links-same (before ++ k.current_process ∷ after) k.proc (marked k) 0 k.process_list
        (SameNext-all _ k.proc (marked k) (marked-next k)) r.links;
  once_before = r.once_before;
  once_after = r.once_after;
}

-- The process that exits is a zombie, its parent is ready whatever it was before, all others are
-- as before.
pub record Marks (k : Kernel) (f : ℕ → Process) : Type 0 where
  pub dead : f k.current_process ≡ with_state zombie (k.proc k.current_process)
  pub parent :
      let p = (k.proc k.current_process).parent in p ≢ 0 → f p ≡ with_state ready (k.proc p)
  pub others :
      (q : ℕ) → q ≢ k.current_process → q ≢ (k.proc k.current_process).parent → f q ≡ k.proc q

marked-Marks :
    (k : Kernel) → (k.proc k.current_process).parent ≢ k.current_process → Marks k (marked k)
unfolding assign
marked-Marks k h = record {
  dead = ground arith;
  parent = λ n. ground arith;
  others = λ q a b. ground arith;
}

-- The processor goes to the first ready process in round-robin order, or halts if there is none.
-- Either way `esp0` still points to the kernel stack of the process that is gone.
pub record Exits (k : Kernel) (before after : List ℕ) (out : Run Exit) : Type 0 where
  pub marks : Marks k (marked k)
  pub result :
      let t = record k { proc = marked k } in
      let next = first_ready (marked k) (after ++ before) in
      ((next ≡ 0) × (out ≡ ok (halted t)))
      ⊎ ((next ≢ 0)
          × (is_ready (marked k next).state ≡ true)
          × (next ≢ k.current_process)
          × (out
              ≡ ok (switched (record t { current_process = next }) (k.frame (marked k next).regs))))

-- With the current process once in the list and not its own parent, `exit_process` marks it as a
-- zombie and its parent as ready, and hands the processor to the first ready process in
-- round-robin order, without changing `esp0`. It halts if there is no ready process.
pub exit_process-Exits :
    (fuel : ℕ) (k : Kernel) (before after : List ℕ)
    → IsRunning k before after
    → length (before ++ k.current_process ∷ after) < fuel
    → (k.proc k.current_process).parent ≢ k.current_process
    → Exits k before after (exit_process fuel k)
unfolding exit_process
exit_process-Exits fuel k before after r h np =
    let t = record k { proc = marked k } in
    let r' = marked-IsRunning k before after r in
    let e = schedule-first_ready fuel t before after r' h in
    let next = first_ready (marked k) (after ++ before) in
    let nz : (k.current_process == 0) ≡ false =
      ground (arith, (Links-split before after k.proc 0 k.process_list _ r.links).1) in
    record {
      marks = marked-Marks k np;
      result = elim (Bool-cases (next == 0)) [
        | inl y ↦ inl (ground arith, rw (nz, e, y, exit_process))
        | inr z ↦ elim (first_ready-Ready t before after r') [
          | inl q ↦ absurd (ground arith)
          | inr (ne, y) ↦
              let w : (next == k.current_process) ≡ false = ground arith in
              inr (ground arith, y, ne, rw (nz, e, z, w, exit_process))
        ]
      ];
    }
