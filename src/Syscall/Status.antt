-- ===== src/Syscall/Status.antt =====
-- `sys_exit`, `sys_get_pid` and `sys_get_parent_pid` of kernel/syscall.c.
use my_kernel.Common.{
  ℕ, ◌<◌, ◌≡◌, ◌≢◌, false, not, ◌&&◌, List, ◌∷◌, ◌++◌, arith, ◌==◌, if◌then◌else◌, length,
  Bool-cases, inl, inr,
}
use my_kernel.Common.Run.{ok}
use my_kernel.Process.{Kernel, assign, exit_process}
use my_kernel.Process.Links.{Links, Links-same, SameNext-all, has, pointer-has}
use my_kernel.Process.Schedule.{IsRunning}
use my_kernel.Syscall.{minus_one, sys_exit, sys_get_pid, sys_get_parent_pid}

-- The kernel once the status is written.
abbrev pub with_status : ℕ → Kernel → Kernel
with_status status k = record k {
  proc = assign k.proc k.current_process (record (k.proc k.current_process) { exit_code = status });
}

pub sys_exit-exit_process :
    (fuel status : ℕ) (k : Kernel)
    → k.current_process ≢ 0
    → sys_exit fuel status k ≡ exit_process fuel (with_status status k)
unfolding sys_exit
sys_exit-exit_process fuel status k n =
    let z : (k.current_process == 0) ≡ false = ground arith in rw z

-- The status changes nothing else.
pub with_status-same :
    (status : ℕ) (k : Kernel) (q : ℕ)
    → (((with_status status k).proc q).state ≡ (k.proc q).state)
      × (((with_status status k).proc q).parent ≡ (k.proc q).parent)
      × (((with_status status k).proc q).next ≡ (k.proc q).next)
unfolding assign
with_status-same status k q = (ground arith, ground arith, ground arith)

pub with_status-IsRunning :
    (status : ℕ) (k : Kernel) (before after : List ℕ)
    → IsRunning k before after
    → IsRunning (with_status status k) before after
with_status-IsRunning status k before after r = record {
  links =
      Links-same (before ++ k.current_process ∷ after) k.proc (with_status status k).proc 0
        k.process_list
        (SameNext-all _ k.proc (with_status status k).proc (λ q. (with_status-same status k q).2))
        r.links;
  once_before = r.once_before;
  once_after = r.once_after;
}

pub sys_get_pid-ok :
    (k : Kernel) → k.current_process ≢ 0 → sys_get_pid k ≡ ok (k.proc k.current_process).pid
unfolding sys_get_pid
sys_get_pid-ok k n = let z : (k.current_process == 0) ≡ false = ground arith in rw z

-- The walk of `is_valid_process_ptr` decides whether the pointer is in the list.
pub sys_get_parent_pid-has :
    (fuel pro : ℕ) (k : Kernel) (xs : List ℕ)
    → Links k.proc 0 k.process_list xs
    → length xs < fuel
    → sys_get_parent_pid fuel pro k
      ≡ ok (
          if has pro xs && not ((k.proc pro).parent == 0)
          then (k.proc (k.proc pro).parent).pid
          else minus_one)
unfolding sys_get_parent_pid
sys_get_parent_pid-has fuel pro k xs l h =
    let e = (pointer-has fuel pro k xs l h).0 in
    elim (Bool-cases (has pro xs)) [
      | inl y ↦ rw (e, y) (ground arith)
      | inr n ↦ rw (e, n) (ground arith)
    ]
