-- ===== src/Descriptors/Examples.antt =====
-- A test of `gdt_set_gate` of kernel/tss.c on the flat code segment.
use my_kernel.Common.{ℕ, ◌≡◌, ◌≢◌, arith}
use my_kernel.Descriptors.{
  GdtEntry, gdt_set_gate, base_of, limit_of, flags_of, gdt_set_gate-base_of,
}

abbrev empty : ℕ → GdtEntry
empty n = record {
  limit_low = 0;
  base_low = 0;
  base_middle = 0;
  access = 0;
  granularity = 0;
  base_high = 0;
}

gdt_set_gate-base_of_example :
    let g = gdt_set_gate 1 0x12345678 0xFFFFFFFF 0x9A 0xCF empty in
    (base_of (g 1) ≡ 0x12345678)
    × (limit_of (g 1) ≡ 0xFFFFF)
    × ((g 1).access ≡ 0x9A)
    × (flags_of (g 1) ≡ 0xC)
    × ((n : ℕ) → n ≢ 1 → g n ≡ empty n)
gdt_set_gate-base_of_example =
    gdt_set_gate-base_of 1 0x12345678 0xFFFFFFFF 0x9A 0xCF empty (omega arith) (omega arith)
