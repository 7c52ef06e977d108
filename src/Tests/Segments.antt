-- ===== src/Tests/Segments.antt =====
-- `test_gdt_tss` of kernel/tests.c. `cs`, `ds` and `tr` are the selectors that the processor holds
-- when they are read, behind `init_gdt`.
use my_kernel.Common.{ℕ, List, [], ◌∷◌, ◌==◌, if◌then◌else◌}
use my_kernel.Vga.Output.{Output, text, hex}

unfoldable pub test_gdt_tss : ℕ → ℕ → ℕ → List Output
test_gdt_tss cs ds tr =
    text "\nTEST: gdt_tss\n\n"
    ∷ text "GDT initialized\n"
    ∷ text "CS = "
    ∷ hex cs
    ∷ text (if cs == 0x08 then "kernel code OK\n" else "Kernel code ERROR\n")
    ∷ text "DS = "
    ∷ hex ds
    ∷ text (if ds == 0x10 then "Kernel data OK\n" else "Kernel data ERROR\n")
    ∷ text "TR = "
    ∷ hex tr
    ∷ text (if tr == 0x28 then "TSS OK\n" else "TSS ERROR\n")
    ∷ []
