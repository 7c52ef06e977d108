-- ===== src/Syscall/Zombies.antt =====
-- `sys_wait` of kernel/syscall.c: the search for a zombie child.
use my_kernel.Common.{
  ℕ, zero, suc, ◌+◌, ◌-◌, ◌<◌, ◌≡◌, ◌≢◌, refl, ◌∙◌, ◌⊎◌, inl, inr, true, false, List, [], ◌∷◌, ◌++◌,
  arith, ◌==◌, length, append-nil, Bool-cases,
}
use my_kernel.Common.Run.{ok}
use my_kernel.Process.{blocked, Registers, Process, Kernel, assign}
use my_kernel.Process.Links.{Links, Links-split, Links-same, SameNext-all}
use my_kernel.Process.Schedule.{IsRunning, first_ready, schedule-first_ready, first_ready-Ready}
use my_kernel.Syscall.{
  is_zombie, zombie_child, collected, waits, stopped, switch_to, minus_one, sys_wait,
}

-- No process of `us` is a zombie that the current process waits for; for one without a parent the
-- number is what stands at address 0.
abbrev pub PassedBy : Kernel → List ℕ → Type 0
PassedBy k [] = Unit {0}
PassedBy k (u ∷ us) =
    (((k.proc (k.proc u).parent).pid ≢ (k.proc k.current_process).pid)
      ⊎ (is_zombie (k.proc u).state ≡ false))
    × PassedBy k us

-- The process `q` is a zombie whose parent has the number of the current process.
pub record Collects (k : Kernel) (q : ℕ) : Type 0 where
  pub same : (k.proc (k.proc q).parent).pid ≡ (k.proc k.current_process).pid
  pub state : is_zombie (k.proc q).state ≡ true

-- The search goes by such processes.
zombie_child-PassedBy :
    (fuel p : ℕ) (k : Kernel) (us vs : List ℕ)
    → Links k.proc 0 p (us ++ vs)
    → PassedBy k us
    → length us < fuel
    → (rest p' : ℕ) × Links k.proc 0 p' vs
      × (fuel ≡ length us + rest)
      × (zombie_child fuel p k ≡ zombie_child rest p' k)
unfolding zombie_child
zombie_child-PassedBy fuel p k [] vs l h enough = (fuel, p, l, omega arith, refl)
zombie_child-PassedBy zero p k (u ∷ us) vs l h enough = absurd (omega arith)
zombie_child-PassedBy (suc fuel) p k (u ∷ us) vs (e, nz, l) (o, h) enough =
    let (rest, p', l', f, q) =
      zombie_child-PassedBy fuel (k.proc u).next k us vs l h (omega arith) in
    (rest, p', l', omega arith, rw e (ground (arith, q)))

-- The search has passed by `us` and stands at `q`.
zombie_child-at :
    (fuel : ℕ) (k : Kernel) (us vs : List ℕ) (q : ℕ)
    → Links k.proc 0 k.process_list (us ++ q ∷ vs)
    → PassedBy k us
    → length us < fuel
    → (rest : ℕ) × (q ≢ 0) × (zombie_child fuel k.process_list k ≡ zombie_child (suc rest) q k)
zombie_child-at fuel k us vs q l h enough =
    let (rest, p', l', f, e) = zombie_child-PassedBy fuel k.process_list k us (q ∷ vs) l h enough in
    let r : rest ≡ suc (rest - 1) = omega arith in (rest - 1, l'.1, rw (← r, ← l'.0) e)

-- `sys_wait` gives the number and the exit code of the first zombie in the list that is a child of
-- the current process.
pub sys_wait-Collects :
    (fuel : ℕ) (regs : Registers) (k : Kernel) (us vs : List ℕ) (q : ℕ)
    → Links k.proc 0 k.process_list (us ++ q ∷ vs)
    → PassedBy k us
    → Collects k q
    → length us < fuel
    → sys_wait fuel regs k ≡ ok (collected (k.proc q).pid (k.proc q).exit_code)
unfolding sys_wait zombie_child
sys_wait-Collects fuel regs k us vs q l h c enough =
    let (rest, nz, e) = zombie_child-at fuel k us vs q l h enough in
    let f : zombie_child (suc rest) q k ≡ ok q = ground (arith, c.same, c.state) in
    let z : (q == 0) ≡ false = ground arith in rw (e, f, z)

-- The processes when the current one waits.
abbrev pub put_blocked : Kernel → ℕ → Process
put_blocked k =
    assign k.proc k.current_process (record (k.proc k.current_process) { state = blocked })

put_blocked-IsRunning :
    (k : Kernel) (before after : List ℕ)
    → IsRunning k before after
    → IsRunning (record k { proc = put_blocked k }) before after
unfolding assign
put_blocked-IsRunning k before after r =
    let same : (q : ℕ) → (put_blocked k q).next ≡ (k.proc q).next = λ q. ground arith in
    let all = before ++ k.current_process ∷ after in
    record {
      links =
          Links-same all k.proc (put_blocked k) 0 k.process_list
            (SameNext-all all k.proc (put_blocked k) same) r.links;
      once_before = r.once_before;
      once_after = r.once_after;
    }

zombie_child-none :
    (fuel : ℕ) (k : Kernel) (xs : List ℕ)
    → Links k.proc 0 k.process_list xs
    → PassedBy k xs
    → length xs < fuel
    → zombie_child fuel k.process_list k ≡ ok 0
unfolding zombie_child
zombie_child-none fuel k xs l h enough =
    let (rest, p', l', f, e) =
      zombie_child-PassedBy fuel k.process_list k xs [] (rw (append-nil xs) l) h enough in
    let r : rest ≡ suc (rest - 1) = omega arith in e ∙ rw (r, l') refl

-- With the current process once in the list, fuel for every process and the end, and no zombie
-- child in it, `sys_wait` blocks the current process. The first ready process
-- in round-robin order runs, and the caller will see -1; without a ready process the processor
-- halts.
pub sys_wait-blocks :
    (fuel : ℕ) (regs : Registers) (k : Kernel) (before after : List ℕ)
    → IsRunning k before after
    → PassedBy k (before ++ k.current_process ∷ after)
    → length (before ++ k.current_process ∷ after) < fuel
    → let t = record k { proc = put_blocked k } in
      let next = first_ready (put_blocked k) (after ++ before) in
      ((next ≡ 0) × (sys_wait fuel regs k ≡ ok (stopped t)))
      ⊎ ((next ≢ 0)
          × (next ≢ k.current_process)
          × (sys_wait fuel regs k
              ≡ ok (waits (switch_to (record regs { eax = minus_one }) next t))))
unfolding sys_wait
sys_wait-blocks fuel regs k before after r h enough =
    let all = before ++ k.current_process ∷ after in
    let nz = (Links-split before after k.proc 0 k.process_list k.current_process r.links).1 in
    let t = record k { proc = put_blocked k } in
    let r' = put_blocked-IsRunning k before after r in
    let e = zombie_child-none fuel k all r.links h enough in
    let s = schedule-first_ready fuel t before after r' enough in
    let z : (k.current_process == 0) ≡ false = ground arith in
    let next = first_ready (put_blocked k) (after ++ before) in
    elim (Bool-cases (next == 0)) [
      | inl y ↦ inl (ground arith, rw (e, z, s, y))
      | inr n ↦ elim (first_ready-Ready t before after r') [
        | inl o ↦ absurd (ground (arith, o))
        | inr (m, on) ↦
            let o : (next == k.current_process) ≡ false = ground arith in
            inr (ground arith, m, rw (e, z, s, n, o))
      ]
    ]
