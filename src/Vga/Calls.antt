-- ===== src/Vga/Calls.antt =====
-- Which cells the routines of kernel/vga.c that others call may write.
use my_kernel.Common.{ℕ, ◌≤◌, ◌<◌, ◌≡◌, refl, ◌∙◌, List, [], ◌∷◌, arith, ◌==◌, if◌then◌else◌}
use my_kernel.Vga.{
  Screen, write, print, add_line_if_needed, emit, number_text, print_number, hex_text, print_hex,
  time_chars, print_time_message,
}
use my_kernel.Vga.Bounds.{Within, add_line_if_needed_lem, emit_lem, emit_all-Within}

pub print-Within :
    (c : ℕ) (s : Screen)
    → s.cursor < 2000
    → (a : ℕ) → 2000 ≤ a
    → print c s.cursor s.cell a ≡ s.cell a
unfolding print write
print-Within c s h a k = ground arith

pub print_number-Within :
    (n : ℕ) (s : Screen)
    → s.cursor < 2080
    → Within s (print_number n s) × ((print_number n s).cursor < 2000)
unfolding print_number
print_number-Within n s h = emit_all-Within (if n == 0 then b'0' ∷ [] else number_text 10 n []) s h

pub print_hex-Within :
    (n : ℕ) (s : Screen)
    → s.cursor < 2080
    → Within s (print_hex n s) × ((print_hex n s).cursor < 2000)
unfolding print_hex
print_hex-Within n s h = emit_all-Within (b'0' ∷ b'x' ∷ hex_text 8 n) s h

time_chars-Within : (cs : List ℕ) (s : Screen) → s.cursor < 2080 → Within s (time_chars cs s)
unfolding time_chars
time_chars-Within [] s h = λ a k. refl
time_chars-Within (c ∷ cs) s h =
    let (w, i, _) = add_line_if_needed_lem s in
    let t = add_line_if_needed s in
    let lt = i h in
    let (v, e) = emit_lem c t lt in
    let u = time_chars-Within cs (emit c t) (omega (arith, e)) in λ a k. u a k ∙ v a k ∙ w a k

pub print_time_message-Within :
    (str : List ℕ) (i : ℕ) (s : Screen)
    → i < 2080
    → Within s (print_time_message str i s) × ((print_time_message str i s).cursor ≡ s.cursor)
unfolding print_time_message
print_time_message-Within str i s h = (time_chars-Within str (record s { cursor = i }) h, refl)
