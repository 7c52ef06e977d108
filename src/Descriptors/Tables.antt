-- ===== src/Descriptors/Tables.antt =====
-- The task state segment of kernel/tss.h and kernel/tss.c, the pointers to the tables, and the
-- segments that the selectors of kernel/process.h name.
use my_kernel.Common.{ℕ, ◌+◌, ◌-◌, ◌*◌, ◌/◌, ◌%◌, ◌^◌, ◌<◌, ◌≡◌, refl, arith}
use my_kernel.Process.{Process}
use my_kernel.Process.Create.{kernel_registers, user_registers}
use my_kernel.Descriptors.{GdtEntry, gdt_set_gate, init_gdt, gate, base_of, limit_of, flags_of}

-- `tss_t`
pub record Tss : Type 0 where
  pub prev_tss : ℕ
  pub reserved0 : ℕ
  pub esp0 : ℕ
  pub ss0 : ℕ
  pub reserved1 : ℕ
  pub esp1 : ℕ
  pub ss1 : ℕ
  pub reserved2 : ℕ
  pub esp2 : ℕ
  pub ss2 : ℕ
  pub reserved3 : ℕ
  pub cr3 : ℕ
  pub eip : ℕ
  pub eflags : ℕ
  pub eax : ℕ
  pub ecx : ℕ
  pub edx : ℕ
  pub ebx : ℕ
  pub esp : ℕ
  pub ebp : ℕ
  pub esi : ℕ
  pub edi : ℕ
  pub es : ℕ
  pub reserved4 : ℕ
  pub cs : ℕ
  pub reserved5 : ℕ
  pub ss : ℕ
  pub reserved6 : ℕ
  pub ds : ℕ
  pub reserved7 : ℕ
  pub fs : ℕ
  pub reserved8 : ℕ
  pub gs : ℕ
  pub reserved9 : ℕ
  pub ldt : ℕ
  pub reserved10 : ℕ
  pub trap : ℕ
  pub iomap_base : ℕ

abbrev pub sizeof_tss : ℕ
sizeof_tss = 104

abbrev pub kernel_cs : ℕ
kernel_cs = 0x08

abbrev pub kernel_ds : ℕ
kernel_ds = 0x10

abbrev pub user_cs : ℕ
user_cs = 0x1B

abbrev pub user_ds : ℕ
user_ds = 0x23

-- `memset(&tss, 0, sizeof(tss))` and the writes behind it in `init_tss`.
pub init_tss : Tss
init_tss = record {
  prev_tss = 0;
  reserved0 = 0;
  esp0 = 0x90000;
  ss0 = kernel_ds;
  reserved1 = 0;
  esp1 = 0;
  ss1 = 0;
  reserved2 = 0;
  esp2 = 0;
  ss2 = 0;
  reserved3 = 0;
  cr3 = 0;
  eip = 0;
  eflags = 0;
  eax = 0;
  ecx = 0;
  edx = 0;
  ebx = 0;
  esp = 0;
  ebp = 0;
  esi = 0;
  edi = 0;
  es = 0;
  reserved4 = 0;
  cs = 0;
  reserved5 = 0;
  ss = 0;
  reserved6 = 0;
  ds = 0;
  reserved7 = 0;
  fs = 0;
  reserved8 = 0;
  gs = 0;
  reserved9 = 0;
  ldt = 0;
  reserved10 = 0;
  trap = 0;
  iomap_base = sizeof_tss;
}

pub set_kernel_stack : Process → Tss → Tss
set_kernel_stack next tss = record tss { esp0 = (next.kernel_stack + 4096) % 2 ^ 32 }

-- `struct gdt_ptr` and `struct idt_pointer`: a limit and a base.
pub record TablePtr : Type 0 where
  pub limit : ℕ
  pub base : ℕ

-- `gp` behind `init_gdt`, for the six entries of 8 bytes at `gdt`.
pub gdt_ptr : ℕ → TablePtr
gdt_ptr gdt = record { limit = 6 * 8 - 1; base = gdt }

-- The privilege level in an access byte or a selector.
abbrev pub dpl : GdtEntry → ℕ
dpl e = e.access / 32 % 4

-- The segment of the selector begins at 0, covers 4 GiB in pages, and has the privilege level that
-- the selector asks for. `code` tells code from data.
pub record Flat (code : ℕ) (gdt : ℕ → GdtEntry) (selector : ℕ) : Type 0 where
  pub base : base_of (gdt (selector / 8)) ≡ 0
  pub limit : limit_of (gdt (selector / 8)) ≡ 0xFFFFF
  pub granular : flags_of (gdt (selector / 8)) / 8 ≡ 1
  pub level : dpl (gdt (selector / 8)) ≡ selector % 4
  pub present : (gdt (selector / 8)).access / 128 ≡ 1
  pub kind : (gdt (selector / 8)).access / 8 % 2 ≡ code
  pub in_table : selector / 8 < 6

-- After `init_gdt` the code and data selectors in the first registers of a process, in kernel mode
-- and in user mode, name flat code and data segments of their own privilege level; so does the
-- stack selector `ss0` of the task state segment.
pub init_gdt-Flat :
    (tss size entry top stack : ℕ) (gdt : ℕ → GdtEntry)
    → let g = init_gdt tss size gdt in
      Flat 1 g (kernel_registers entry top).cs
      × Flat 0 g (kernel_registers entry top).ds
      × Flat 1 g (user_registers entry top stack).cs
      × Flat 0 g (user_registers entry top stack).ds
      × Flat 0 g (user_registers entry top stack).user_ss
      × Flat 0 g init_tss.ss0
unfolding init_gdt gdt_set_gate gate kernel_registers user_registers init_tss
init_gdt-Flat tss size entry top stack gdt = (
  record {
    base = refl;
    limit = refl;
    granular = refl;
    level = refl;
    present = refl;
    kind = refl;
    in_table = omega arith;
  },
  record {
    base = refl;
    limit = refl;
    granular = refl;
    level = refl;
    present = refl;
    kind = refl;
    in_table = omega arith;
  },
  record {
    base = refl;
    limit = refl;
    granular = refl;
    level = refl;
    present = refl;
    kind = refl;
    in_table = omega arith;
  },
  record {
    base = refl;
    limit = refl;
    granular = refl;
    level = refl;
    present = refl;
    kind = refl;
    in_table = omega arith;
  },
  record {
    base = refl;
    limit = refl;
    granular = refl;
    level = refl;
    present = refl;
    kind = refl;
    in_table = omega arith;
  },
  record {
    base = refl;
    limit = refl;
    granular = refl;
    level = refl;
    present = refl;
    kind = refl;
    in_table = omega arith;
  },
)
