-- ===== src/Interrupt/Fault.antt =====
-- `fault_handler` of kernel/kernel.c, up to the halt.
use my_kernel.Common.{ℕ, ◌<◌, List, [], ◌∷◌, ◌++◌, ◌==◌, if◌then◌else◌}
use my_kernel.Vga.{Screen}
use my_kernel.Vga.Bounds.{Within}
use my_kernel.Vga.Output.{Output, text, hex, draw, draw-Within}

-- What is printed; `cr2` is what the processor holds in that register.
pub fault_report : ℕ → ℕ → ℕ → ℕ → List Output
fault_report vector error_code eip cr2 =
    (text "FAULT: vector "
      ∷ hex vector
      ∷ text "\n"
      ∷ text "error_code = "
      ∷ hex error_code
      ∷ text "\n"
      ∷ text "eip = "
      ∷ hex eip
      ∷ text "\n"
      ∷ [])
    ++ (if vector == 14 then text "CR2 = " ∷ hex cr2 ∷ text "\n" ∷ [] else [])

pub fault_handler : ℕ → ℕ → ℕ → ℕ → Screen → Screen
unfolding fault_report
fault_handler vector error_code eip cr2 s = draw (fault_report vector error_code eip cr2) s

-- From a cursor on the screen the report of a fault writes to no memory behind the screen, whatever
-- the numbers.
pub fault_handler-Within :
    (vector error_code eip cr2 : ℕ) (s : Screen)
    → s.cursor < 2000
    → Within s (fault_handler vector error_code eip cr2 s)
      × ((fault_handler vector error_code eip cr2 s).cursor < 2000)
unfolding fault_handler
fault_handler-Within vector error_code eip cr2 s h =
    draw-Within (fault_report vector error_code eip cr2) s h
