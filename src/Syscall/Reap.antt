-- ===== src/Syscall/Reap.antt =====
-- `sys_exit` of a child and then `sys_wait` of its parent, of kernel/syscall.c.
use my_kernel.Common.{
  ℕ, ◌<◌, ◌≡◌, ◌≢◌, refl, sym, ap, ◌∙◌, inl, inr, true, false, List, [], ◌∷◌, ◌++◌, arith, length,
  length-append,
}
use my_kernel.Common.Run.{Run, ok}
use my_kernel.Process.{Registers, Kernel, assign, Exit, switched}
use my_kernel.Process.Links.{Links-split, has}
use my_kernel.Process.Schedule.{IsRunning, first_ready}
use my_kernel.Process.ExitProcess.{marked, marked-IsRunning, exit_process-Exits}
use my_kernel.Syscall.{is_zombie, Wait, collected, sys_exit, sys_wait}
use my_kernel.Syscall.Status.{
  with_status, with_status-same, with_status-IsRunning, sys_exit-exit_process,
}
use my_kernel.Syscall.Zombies.{PassedBy, Collects, sys_wait-Collects}

-- The exit keeps all numbers and parents, makes a zombie of no process but the one that exits, and
-- leaves its status there.
exited :
    (status : ℕ) (k : Kernel) (q : ℕ)
    → let f = marked (with_status status k) in
      ((f q).pid ≡ (k.proc q).pid)
      × ((f q).parent ≡ (k.proc q).parent)
      × (q ≢ k.current_process → is_zombie (k.proc q).state ≡ false → is_zombie (f q).state ≡ false)
unfolding assign
exited status k q = (ground arith, ground arith, λ n z. ground arith)

exited_child :
    (status : ℕ) (k : Kernel)
    → (k.proc k.current_process).parent ≢ k.current_process
    → let f = marked (with_status status k) in
      (is_zombie (f k.current_process).state ≡ true) × ((f k.current_process).exit_code ≡ status)
unfolding assign
exited_child status k n = (ground arith, ground arith)

-- The processes that the search of the parent passes by are the same behind the exit.
PassedBy-exited :
    (status parent : ℕ) (k : Kernel) (us : List ℕ)
    → has k.current_process us ≡ false
    → PassedBy (record k { current_process = parent }) us
    → PassedBy (record k { proc = marked (with_status status k); current_process = parent }) us
PassedBy-exited status parent k [] out h = tt
PassedBy-exited status parent k (u ∷ us) out (other, h) =
    let f = marked (with_status status k) in
    let (_, par, zombie) = exited status k u in
    let number = λ (q : ℕ). (exited status k q).0 in
    (
      elim other [
        | inl n ↦ inl (λ e. n (
            sym (number (k.proc u).parent)
            ∙ ap (λ (q : ℕ). (f q).pid) (sym par)
            ∙ e
            ∙ number parent))
        | inr z ↦ inr (zombie (ground arith) z)
      ],
      PassedBy-exited status parent k us (ground arith) h,
    )

-- With the current process once in the list, fuel for every process and the end, and its parent the
-- first ready process in round-robin order once it is a zombie: `sys_exit` hands the processor to
-- the parent, and the `sys_wait` that the parent then makes gives the number of the child and the
-- status of its exit, if the search of `sys_wait` passes by the processes in front of the child.
pub sys_exit-sys_wait :
    (fuel status : ℕ) (regs : Registers) (k : Kernel) (before after : List ℕ) (parent : ℕ)
    → IsRunning k before after
    → length (before ++ k.current_process ∷ after) < fuel
    → (k.proc k.current_process).parent ≡ parent
    → parent ≢ 0
    → parent ≢ k.current_process
    → PassedBy (record k { current_process = parent }) before
    → first_ready (marked (with_status status k)) (after ++ before) ≡ parent
    → (t : Kernel) × (loaded : Registers) × (sys_exit fuel status k ≡ ok (switched t loaded))
      × (t.current_process ≡ parent)
      × (sys_wait fuel regs t ≡ ok (collected (k.proc k.current_process).pid status))
sys_exit-sys_wait fuel status regs k before after parent r h par nz ne passed turn =
    let c = k.current_process in
    let u = with_status status k in
    let f = marked u in
    let r' = with_status-IsRunning status k before after r in
    let not_own : (k.proc c).parent ≢ c = λ e. ne (sym par ∙ e) in
    let x =
      exit_process-Exits fuel u before after r' h
        (λ e. not_own (sym (with_status-same status k c).1 ∙ e)) in
    let child_nz = (Links-split before after k.proc 0 k.process_list c r.links).1 in
    let e = sys_exit-exit_process fuel status k child_nz in
    let t = record u { proc = f; current_process = parent } in
    let (number, same_parent, _) = exited status k c in
    let (zombie, code) = exited_child status k not_own in
    let links = (marked-IsRunning u before after r').links in
    let collects : Collects t c = record {
      same = ap (λ (q : ℕ). (f q).pid) (same_parent ∙ par);
      state = zombie;
    } in
    let w =
      sys_wait-Collects fuel regs t before after c links
        (PassedBy-exited status parent k before r.once_before passed) collects
        (omega (arith, length-append before (c ∷ after))) in
    let to : ℕ → Run Exit =
      λ n. ok (switched (record t { current_process = n }) (k.frame (f n).regs)) in
    let numbered : ℕ → Run Wait = λ n. ok (collected n (f c).exit_code) in
    let coded : ℕ → Run Wait = λ n. ok (collected (k.proc c).pid n) in
    elim x.result [
      | inl (z, o) ↦ absurd (nz (sym turn ∙ z))
      | inr (n, on, other, o) ↦ (
        t,
        k.frame (f parent).regs,
        e ∙ o ∙ ap to turn,
        refl,
        w ∙ ap numbered number ∙ ap coded code,
      )
    ]
