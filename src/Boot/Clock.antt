-- ===== src/Boot/Clock.antt =====
-- The functions over the clock in kernel/kernel.c. What happens while a loop halts is a list of
-- observations, one for each test of the loop; `out_of_fuel` is a loop that goes on.
use my_kernel.Common.{ℕ, ◌+◌, ◌-◌, ◌/◌, ◌%◌, ◌^◌, List, [], ◌∷◌, ltb, ◌==◌, if◌then◌else◌}
use my_kernel.Common.Run.{Run, ok, fault, out_of_fuel, ◌>>=◌}
use my_kernel.Process.{blocked, Kernel, assign, is_ready}
use my_kernel.Vga.{Screen, print_number, print_time_message}
use my_kernel.Vga.Output.{Output, text, number, bytes}

abbrev pub time_pos : ℕ
time_pos = 160

-- `show_seconds`, at a cursor of its own; the timer interrupts 100 times in a second.
unfoldable pub show_seconds : ℕ → Screen → Screen
show_seconds ticks s = record (print_number (ticks / 100) (record s { cursor = time_pos })) {
  cursor = s.cursor;
}

unfoldable pub sleep_process : ℕ → Kernel → Run Kernel
unfolding assign
sleep_process time k =
    let p = k.proc k.current_process in
    if k.current_process == 0
    then fault
    else ok (record k {
      proc =
          assign k.proc k.current_process
            (record p { state = blocked; wake = (k.ticks + time) % 2 ^ 32 });
    })

-- `sleep` from `start` on, over the values of `ticks` that its loop reads; the result is what is
-- left of them.
unfoldable pub sleep : ℕ → ℕ → List ℕ → Run (List ℕ)
sleep time start [] = out_of_fuel
sleep time start (ticks ∷ later) =
    if ltb ticks ((time + start) % 2 ^ 32) then sleep time start later else ok later

-- One round of `uptime_task`: `last` is the second that is shown, and what it was at first is
-- `(unsigned long)-1`. The round reads the clock twice, in `show_seconds` at `ticks'`.
unfoldable pub uptime_round : ℕ → ℕ → ℕ → Screen → ℕ × Screen
unfolding show_seconds
uptime_round ticks ticks' last s =
    let sec = ticks / 100 in
    if sec == last
    then (last, s)
    else (sec, show_seconds ticks' (print_time_message (bytes "Up Time") 0 s))

-- The wait of `test_sleep` for a state in which the current process is ready.
unfoldable pub wait_ready : List Kernel → Run Kernel
wait_ready [] = out_of_fuel
wait_ready (k ∷ later) =
    let rest = wait_ready later in if is_ready (k.proc k.current_process).state then ok k else rest

-- `test_sleep` in the state `k`; `later` are the states that its loop sees.
unfoldable pub test_sleep : Kernel → (Kernel → List Kernel) → Run (List Output × Kernel)
unfolding wait_ready sleep_process
test_sleep k later = do
  asleep ← sleep_process 2000 k
  t ← wait_ready (later asleep)
  ok (
    text "sleepy: about to sleep\n"
        ∷ text "sleepy: woke up! ticks elapsed = "
        ∷ number ((t.ticks + 2 ^ 32 - k.ticks) % 2 ^ 32)
        ∷ text "\n"
        ∷ [],
    t,
  )
