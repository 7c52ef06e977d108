-- ===== src/Vga/Output.antt =====
-- What the kernel prints through kernel/vga.c as a list of calls, and the screen behind them.
use Prim.Native.Char.{code}
use Prim.Native.String.{String}
use my_kernel.Common.{ℕ, ◌<◌, ◌≡◌, refl, ◌∙◌, List, [], ◌∷◌, ◌++◌, arith}
use my_kernel.Vga.{Screen, print_string, print_hex, print_number}
use my_kernel.Vga.Bounds.{Within, print_string-Within}
use my_kernel.Vga.Calls.{print_number-Within, print_hex-Within}

-- One call of `print_string`, `print_hex` or `print_number`.
pub data Output : Type 0 where
  text : String → Output
  hex number : ℕ → Output

abbrev pub bytes : String → List ℕ
bytes String.[] = []
bytes (String.◌∷◌ c s) = code c ∷ bytes s

pub draw : List Output → Screen → Screen
draw [] s = s
draw (text str ∷ out) s = draw out (print_string (bytes str) s)
draw (hex n ∷ out) s = draw out (print_hex n s)
draw (number n ∷ out) s = draw out (print_number n s)

pub draw-append :
    (out more : List Output) (s : Screen) → draw (out ++ more) s ≡ draw more (draw out s)
unfolding draw
draw-append [] more s = refl
draw-append (text str ∷ out) more s = draw-append out more (print_string (bytes str) s)
draw-append (hex n ∷ out) more s = draw-append out more (print_hex n s)
draw-append (number n ∷ out) more s = draw-append out more (print_number n s)

-- From a cursor on the screen no list of calls writes to memory behind the screen, and the cursor
-- ends on it.
pub draw-Within :
    (out : List Output) (s : Screen)
    → s.cursor < 2000
    → Within s (draw out s) × ((draw out s).cursor < 2000)
unfolding draw
draw-Within [] s h = (λ a k. refl, h)
draw-Within (text str ∷ out) s h =
    let (w, i, _) = print_string-Within (bytes str) s h in
    let (v, j) = draw-Within out (print_string (bytes str) s) i in (λ a k. v a k ∙ w a k, j)
draw-Within (hex n ∷ out) s h =
    let (w, i) = print_hex-Within n s (omega arith) in
    let (v, j) = draw-Within out (print_hex n s) i in (λ a k. v a k ∙ w a k, j)
draw-Within (number n ∷ out) s h =
    let (w, i) = print_number-Within n s (omega arith) in
    let (v, j) = draw-Within out (print_number n s) i in (λ a k. v a k ∙ w a k, j)
