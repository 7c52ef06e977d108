-- ===== src/Dispatch/Print.antt =====
-- The system calls of kernel/syscall.c that print, and `get_seconds` of kernel/pit.c.
use my_kernel.Common.{ℕ, zero, suc, ◌+◌, ◌/◌, ◌%◌, ◌^◌, List, [], ◌∷◌, ◌==◌, if◌then◌else◌}
use my_kernel.Common.Run.{Run, ok, out_of_fuel, ◌>>=◌}
use my_kernel.Process.{Kernel}
use my_kernel.Vga.{print, print_string, print_number, print_hex, print_time_message}
use my_kernel.Computer.{Computer}

-- The characters of the string at `p`, up to its end mark.
unfoldable pub text_at : ℕ → ℕ → (ℕ → ℕ) → Run (List ℕ)
text_at zero p bytes = out_of_fuel
text_at (suc n) p bytes =
    let rest = (do text ← text_at n ((p + 1) % 2 ^ 32) bytes; ok (bytes p ∷ text)) in
    if bytes p == 0 then ok [] else rest

unfoldable pub sys_prints : ℕ → ℕ → Computer → Run Computer
unfolding text_at
sys_prints chars string c = do
  text ← text_at chars string c.bytes
  ok (record c { screen = print_string text c.screen })

unfoldable pub sys_printc : ℕ → Computer → Computer
sys_printc string c = record c {
  screen = record c.screen { cell = print string c.screen.cursor c.screen.cell };
}

unfoldable pub sys_printn : ℕ → Computer → Computer
sys_printn n c = record c { screen = print_number n c.screen }

unfoldable pub sys_printhex : ℕ → Computer → Computer
sys_printhex n c = record c { screen = print_hex n c.screen }

abbrev pub hz : ℕ
hz = 100

unfoldable pub get_seconds : Kernel → ℕ
get_seconds k = k.ticks / hz

abbrev pub up_time : List ℕ
up_time = b'U' ∷ b'p' ∷ b' ' ∷ b'T' ∷ b'i' ∷ b'm' ∷ b'e' ∷ []

-- The message at the beginning of the screen and the number in the third row, by a cursor of its
-- own.
unfoldable pub sys_print_seconds : ℕ → Computer → Computer
sys_print_seconds seconds c =
    let s = print_time_message up_time 0 c.screen in
    record c {
      screen = record (print_number seconds (record s { cursor = 160 })) { cursor = s.cursor };
    }
