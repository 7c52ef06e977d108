-- ===== src/System/Examples.antt =====
-- A test of sequences of events on the three processes of Process/Examples.
use my_kernel.Common.{ℕ, ◌≡◌, ◌≢◌, refl, true, List, [], ◌∷◌, arith}
use my_kernel.Common.Run.{ok}
use my_kernel.Process.{Kernel}
use my_kernel.Process.Links.{has}
use my_kernel.Process.Wake.{settled}
use my_kernel.Process.Examples.{process_at, registers, three, three-Links}
use my_kernel.Process.Create.{create_process}
use my_kernel.Process.Created.Examples.{with_memory, taken, takes, kernel_stack_at, user_stack_at}
use my_kernel.System.{Event, tick, yield, sleep, exit, Machine, runs, machine_kernel, run}
use my_kernel.System.Sound.{Sound}
use my_kernel.System.Run.{run-Sound}
use my_kernel.System.Create.{create_process-Sound}

abbrev all : List ℕ
all = 0x1000 ∷ 0x2000 ∷ 0x3000 ∷ []

three-settled : (q : ℕ) → settled (process_at q).state ≡ true
three-settled q = ground arith

three-parent : (q : ℕ) → has q all ≡ true → (process_at q).parent ≢ q
three-parent q h = ground arith

three-Sound : Sound (three 0x1000) all
three-Sound = record {
  links = three-Links 0x1000;
  distinct = (refl, (refl, (refl, tt)));
  current = refl;
  settles = λ q h. three-settled q;
  parent = three-parent;
}

abbrev pub events : List Event
events = tick (registers 0x1B) ∷ sleep (registers 0x1B) 100 ∷ exit 3 ∷ yield (registers 0x1B) ∷ []

run-Sound_example :
    (m : Machine) × (run 4 events (runs (three 0x1000)) ≡ ok m) × Sound (machine_kernel m) all
run-Sound_example = run-Sound 4 events (runs (three 0x1000)) all three-Sound (omega arith)

create_process-Sound_example :
    (t : Kernel) × (create_process 4 3 0x10000 0x600000 1 with_memory ≡ ok (0x500009, t))
    × Sound t (0x1000 ∷ 0x2000 ∷ 0x3000 ∷ 0x500009 ∷ [])
create_process-Sound_example =
    create_process-Sound 4 3 0x10000 0x600000 1 with_memory all 0x500009 taken.1
      (record {
        links = three-Links 0x1000;
        distinct = (refl, (refl, (refl, tt)));
        current = refl;
        settles = λ q h. three-settled q;
        parent = three-parent;
      })
      (omega arith) takes (λ e. omega arith) refl (rw kernel_stack_at (λ e. omega arith))
      (λ m. rw user_stack_at (λ e. omega arith))
