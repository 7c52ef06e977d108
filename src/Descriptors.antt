-- ===== src/Descriptors.antt =====
-- The descriptors of kernel/tss.c, kernel/tss.h and kernel/idt.c: `gdt_set_gate` and `add` write
-- the parts of a base, a limit and a handler into the fields of an entry.
pub mod Tables
pub mod Examples
use Prim.Native.Nat.{bit_and, bit_or}
use my_kernel.Common.{
  ℕ, ◌+◌, ◌*◌, ◌/◌, ◌%◌, ◌^◌, ◌-◌, ◌<◌, ◌≡◌, ◌≢◌, refl, true, arith, ◌==◌, if◌then◌else◌,
}
use my_kernel.Common.Bits.{bit_and-0xF, bit_and-0xFF, bit_and-0xFFFF, bit_and-0xF0, bit_or-below}

pub record GdtEntry : Type 0 where
  pub limit_low : ℕ
  pub base_low : ℕ
  pub base_middle : ℕ
  pub access : ℕ
  pub granularity : ℕ
  pub base_high : ℕ

-- The entry that `gdt_set_gate` leaves at `num`.
pub gate : ℕ → ℕ → ℕ → ℕ → GdtEntry
gate base limit access gran = record {
  limit_low = bit_and limit 0xFFFF;
  base_low = bit_and base 0xFFFF;
  base_middle = bit_and (base / 2 ^ 16) 0xFF;
  access = access;
  granularity = bit_or (bit_and (limit / 2 ^ 16) 0x0F) (bit_and gran 0xF0);
  base_high = bit_and (base / 2 ^ 24) 0xFF;
}

pub gdt_set_gate : ℕ → ℕ → ℕ → ℕ → ℕ → (ℕ → GdtEntry) → ℕ → GdtEntry
unfolding gate
gdt_set_gate num base limit access gran gdt n =
    if n == num then gate base limit access gran else gdt n

-- The calls of `gdt_set_gate` in `init_gdt`, that of `init_tss` for the task state segment of
-- `size` bytes at the address `tss` last.
pub init_gdt : ℕ → ℕ → (ℕ → GdtEntry) → ℕ → GdtEntry
unfolding gdt_set_gate
init_gdt tss size gdt = gdt_set_gate 5 tss (size - 1) 0x89 0x40 (
    gdt_set_gate 4 0 0xFFFFFFFF 0xF3 0xCF (
      gdt_set_gate 3 0 0xFFFFFFFF 0xFA 0xCF (
        gdt_set_gate 2 0 0xFFFFFFFF 0x92 0xCF
          (gdt_set_gate 1 0 0xFFFFFFFF 0x9A 0xCF (gdt_set_gate 0 0 0 0 0 gdt)))))

-- What the processor reads from an entry.
abbrev pub base_of : GdtEntry → ℕ
base_of e = e.base_low + e.base_middle * 2 ^ 16 + e.base_high * 2 ^ 24

abbrev pub limit_of : GdtEntry → ℕ
limit_of e = e.limit_low + e.granularity % 16 * 2 ^ 16

abbrev pub flags_of : GdtEntry → ℕ
flags_of e = e.granularity / 16

-- The processor reads back from the entry the base, the lower 20 bits of the limit, the access byte
-- and the upper four bits of the flags that `gdt_set_gate` was given; other entries stay as they
-- are.
pub gdt_set_gate-base_of :
    (num base limit access gran : ℕ) (gdt : ℕ → GdtEntry)
    → base < 2 ^ 32
    → gran < 256
    → let g = gdt_set_gate num base limit access gran gdt in
      (base_of (g num) ≡ base)
      × (limit_of (g num) ≡ limit % 2 ^ 20)
      × ((g num).access ≡ access)
      × (flags_of (g num) ≡ gran / 16)
      × ((n : ℕ) → n ≢ num → g n ≡ gdt n)
unfolding gdt_set_gate gate
gdt_set_gate-base_of num base limit access gran gdt hb hg =
    let self : (num == num) ≡ true = ground arith in
    let low = bit_and-0xF (limit / 2 ^ 16) in
    let high = bit_and-0xF0 gran hg in
    let both = bit_or-below (limit / 2 ^ 16 % 16) (gran / 16) (omega arith) in
    rw self (
      omega
          (arith, bit_and-0xFFFF base, bit_and-0xFF (base / 2 ^ 16), bit_and-0xFF (base / 2 ^ 24)),
      rw (low, high, both) (omega (arith, bit_and-0xFFFF limit)),
      refl,
      rw (low, high, both) (omega arith),
      λ n h. ground arith,
    )

pub record InterruptDes : Type 0 where
  pub offset_1 : ℕ
  pub selector : ℕ
  pub zeros : ℕ
  pub type : ℕ
  pub offset_2 : ℕ

unfoldable pub add : ℕ → ℕ → ℕ → (ℕ → InterruptDes) → ℕ → InterruptDes
add n handler type idt m =
    if m == n
    then record {
      offset_1 = bit_and handler 0xFFFF;
      selector = 0x08;
      zeros = 0;
      type = type;
      offset_2 = bit_and (handler / 2 ^ 16) 0xFFFF;
    }
    else idt m
