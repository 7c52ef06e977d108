-- ===== src/Interrupt/Examples.antt =====
-- A test of the timer of kernel/kernel.c on the three processes of Process/Examples: the one at
-- 0x3000 is ready, the one at 0x2000 before it is woken first.
use my_kernel.Common.{ℕ, ◌≤◌, ◌≡◌, refl, suc, List, [], ◌∷◌, arith, length}
use my_kernel.Common.Run.{ok}
use my_kernel.Process.{Kernel}
use my_kernel.Process.Examples.{registers, three, three-Links}
use my_kernel.Process.Circle.{Circle}
use my_kernel.Interrupt.RoundRobin.{timer, timer-reaches}

pub three-Circle : Circle (three 0x1000) [] (0x2000 ∷ 0x3000 ∷ [])
three-Circle = record { links = three-Links 0x1000; distinct = (refl, (refl, (refl, tt))) }

abbrev between : List ℕ
between = 0x2000 ∷ []

timer-reaches_example :
    (n : ℕ) × (t : Kernel) × (n ≤ length between)
    × (timer 4 (suc n) (λ i. registers 0x1B) (three 0x1000) ≡ ok t)
    × (t.current_process ≡ 0x3000)
timer-reaches_example =
    timer-reaches 4 (λ i. registers 0x1B) (three 0x1000) [] (0x2000 ∷ 0x3000 ∷ []) between [] 0x3000
      three-Circle (omega arith) refl refl
