-- ===== src/User/Calls.antt =====
-- From the wrappers of user/user_space.c to the calls of kernel/syscall.c: the numbers and the
-- registers of the arguments on the two sides agree.
use my_kernel.Common.{ℕ, ◌^◌, ◌≡◌, refl, ◌∙◌, List, ◌∷◌, ◌++◌, ◌<◌, length}
use my_kernel.Common.Run.{ok, ◌>>=◌}
use my_kernel.Process.{Registers}
use my_kernel.Syscall.{sys_exit, sys_yield, sys_sleep, sys_kmalloc, sys_free, sys_wait}
use my_kernel.Memory.{word_at, put_word}
use my_kernel.Process.Links.{Links}
use my_kernel.Syscall.Zombies.{PassedBy, Collects, sys_wait-Collects}
use my_kernel.Fork.Relocate.{word_at-put_word}
use my_kernel.Computer.{Computer}
use my_kernel.Fork.{sys_fork}
use my_kernel.Dispatch.{
  Limits, resumes, from_call, from_exit, from_wait, on_kernel, sys_create_process, sys_exec,
  dispatch_kernel, syscall_dispatch, gives, gives_with,
}
use my_kernel.User.{
  user_yield, user_exit, user_create_process, user_sleep, user_kmalloc, user_free, user_wait,
  user_fork, user_exec,
}

-- What each wrapper that changes processes or memory asks of the kernel.
pub record Asks (lim : Limits) (regs : Registers) (c : Computer) : Type 0 where
  pub exits :
      (status : ℕ)
      → syscall_dispatch lim (user_exit status regs) c
        ≡ (do r ← sys_exit lim.fuel status c.kernel; ok (from_exit c r))
  pub yields :
      syscall_dispatch lim (user_yield regs) c
      ≡ (do r ← sys_yield lim.fuel (user_yield regs) c.kernel; ok (from_call c r))
  pub sleeps :
      (time : ℕ)
      → syscall_dispatch lim (user_sleep time regs) c
        ≡ (do r ← sys_sleep lim.fuel (user_sleep time regs) time c.kernel; ok (from_call c r))
  pub creates :
      (entry mode : ℕ)
      → syscall_dispatch lim (user_create_process entry mode regs) c ≡ (do
        r ← sys_create_process lim entry mode c
        ok (gives (user_create_process entry mode regs) r))
  pub takes :
      (size : ℕ)
      → syscall_dispatch lim (user_kmalloc size regs) c ≡ (do
        r ← sys_kmalloc lim.blocks size c.kernel
        ok (gives (user_kmalloc size regs) (r.0, on_kernel r.1 c)))
  pub frees :
      (address : ℕ)
      → syscall_dispatch lim (user_free address regs) c ≡ (do
        k ← sys_free lim.blocks address c.kernel
        ok (resumes (on_kernel k c) (user_free address regs)))
  pub waits_for :
      (status : ℕ)
      → syscall_dispatch lim (user_wait status regs) c ≡ (do
        r ← sys_wait lim.fuel (user_wait status regs) c.kernel
        ok (from_wait (user_wait status regs) c r))
  pub forks : syscall_dispatch lim (user_fork regs) c ≡ (do
    r ← sys_fork lim.blocks lim.fuel lim.frames lim.process_entry (user_fork regs) c
    ok (gives_with r))
  pub executes :
      (file : ℕ)
      → syscall_dispatch lim (user_exec file regs) c
        ≡ (do r ← sys_exec lim file (user_exec file regs) c; ok (gives_with r))

-- Each wrapper that changes processes or memory reaches the call of its name, with its arguments in
-- their order, and gets the result of that call.
pub syscall_dispatch-Asks : (lim : Limits) (regs : Registers) (c : Computer) → Asks lim regs c
unfolding syscall_dispatch dispatch_kernel user_yield user_exit user_create_process user_sleep
    user_kmalloc user_free user_wait user_fork user_exec
syscall_dispatch-Asks lim regs c = record {
  exits = λ status. refl;
  yields = refl;
  sleeps = λ time. refl;
  creates = λ entry mode. refl;
  takes = λ size. refl;
  frees = λ address. refl;
  waits_for = λ status. refl;
  forks = refl;
  executes = λ file. refl;
}

-- With a zombie child in the list, none in front of it, fuel to reach it and an exit code of 32 bits, a
-- round of `user_wait` ends: `eax` is the
-- number of the first such child, and its exit code is written to the address of the caller. The
-- processes are as before.
pub user_wait-Collects :
    (lim : Limits) (regs : Registers) (c : Computer) (status : ℕ) (us vs : List ℕ) (q : ℕ)
    → Links c.kernel.proc 0 c.kernel.process_list (us ++ q ∷ vs)
    → PassedBy c.kernel us
    → Collects c.kernel q
    → length us < lim.fuel
    → (c.kernel.proc q).exit_code < 2 ^ 32
    → (d : Computer) × (syscall_dispatch lim (user_wait status regs) c
        ≡ ok (resumes d (record (user_wait status regs) { eax = (c.kernel.proc q).pid })))
      × (word_at d.bytes status ≡ (c.kernel.proc q).exit_code)
      × (d.kernel ≡ c.kernel)
unfolding user_wait
user_wait-Collects lim regs c status us vs q l h z enough small =
    let w = sys_wait-Collects lim.fuel (user_wait status regs) c.kernel us vs q l h z enough in
    (
      record c { bytes = put_word c.bytes status (c.kernel.proc q).exit_code },
      (syscall_dispatch-Asks lim regs c).waits_for status ∙ rw w refl,
      word_at-put_word c.bytes status (c.kernel.proc q).exit_code small,
      refl,
    )
