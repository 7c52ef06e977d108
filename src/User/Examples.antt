-- ===== src/User/Examples.antt =====
-- A test of `user_wait` of user/user_space.c with a zombie child.
use my_kernel.Common.{◌≡◌, refl, inl, inr, [], ◌∷◌, arith}
use my_kernel.Common.Run.{ok}
use my_kernel.Memory.{word_at}
use my_kernel.Process.Examples.{three-Links, registers}
use my_kernel.Syscall.Examples.{with_zombie}
use my_kernel.Computer.{Computer}
use my_kernel.Dispatch.{resumes, syscall_dispatch}
use my_kernel.Dispatch.Examples.{limits, machine}
use my_kernel.User.{user_wait}
use my_kernel.User.Calls.{user_wait-Collects}

abbrev with_child : Computer
with_child = record machine { kernel = with_zombie }

user_wait-Collects_example :
    (d : Computer) × (syscall_dispatch limits (user_wait 0x700F00 (registers 0x1B)) with_child
      ≡ ok (resumes d (record (user_wait 0x700F00 (registers 0x1B)) { eax = 3 })))
    × (word_at d.bytes 0x700F00 ≡ 42)
    × (d.kernel ≡ with_zombie)
user_wait-Collects_example =
    user_wait-Collects limits (registers 0x1B) with_child 0x700F00 (0x1000 ∷ 0x2000 ∷ []) [] 0x3000
      (three-Links 0) (inl (λ e. omega arith), (inr refl, tt))
      (record { same = refl; state = refl }) (omega arith) (omega arith)
