-- ===== src/Boot/Gates.antt =====
-- The interrupt gates that `kernel` of kernel/kernel.c installs.
use my_kernel.Common.{ℕ, ◌+◌, ◌*◌, ◌/◌, ◌%◌, ◌^◌, ◌<◌, ◌≡◌, refl, true, arith, ◌==◌}
use my_kernel.Common.Bits.{bit_and-0xFFFF}
use my_kernel.Descriptors.{InterruptDes, add}
use my_kernel.Boot.{Symbols, Boot, add_gates, start}

-- The handler's address that the processor reads from a gate.
abbrev pub handler_of : InterruptDes → ℕ
handler_of e = e.offset_1 + e.offset_2 * 2 ^ 16

-- A gate for the handler in the code segment of the kernel: an interrupt gate that is present, for
-- `int` from privilege level `ring`.
pub record IsGate (ring address : ℕ) (e : InterruptDes) : Type 0 where
  pub handler : handler_of e ≡ address
  pub selector : e.selector ≡ 0x08
  pub present : e.type / 128 ≡ 1
  pub level : e.type / 32 % 4 ≡ ring
  pub kind : e.type % 16 ≡ 0xE

add-IsGate :
    (n handler type ring : ℕ) (idt : ℕ → InterruptDes)
    → handler < 2 ^ 32
    → type / 128 ≡ 1
    → type / 32 % 4 ≡ ring
    → type % 16 ≡ 0xE
    → IsGate ring handler (add n handler type idt n)
unfolding add
add-IsGate n handler type ring idt low present level kind =
    let s : (n == n) ≡ true = ground arith in
    rw s (record {
      handler = omega (arith, bit_and-0xFFFF handler, bit_and-0xFFFF (handler / 2 ^ 16));
      selector = refl;
      present = present;
      level = level;
      kind = kind;
    })

-- The addresses of the handlers are 32-bit addresses.
pub record Low (sym : Symbols) : Type 0 where
  pub irq0 : sym.irq0 < 2 ^ 32
  pub isr8 : sym.isr8 < 2 ^ 32
  pub isr13 : sym.isr13 < 2 ^ 32
  pub isr14 : sym.isr14 < 2 ^ 32
  pub syscall_handler : sym.syscall_handler < 2 ^ 32
  pub keyboard_isr : sym.keyboard_isr < 2 ^ 32

-- The entry is a present gate that `int` in user mode may use.
abbrev pub Open : InterruptDes → Type 0
Open e = (e.type / 128 ≡ 1) × (e.type / 32 % 4 ≡ 3)

only-Open :
    (sym : Symbols) (b : Boot) (n : ℕ)
    → ((m : ℕ) → (b.idt m).type ≡ 0)
    → Open ((start sym b).idt n)
    → n ≡ 0x80
unfolding start add_gates add
only-Open sym b n zero gate = ground (arith, zero n, gate)

-- From an empty table, as a variable that is not initialised is, before the first `switch_mode` the
-- timer, the keyboard, the faults 8, 13 and 14 and the system call have gates to their handlers,
-- and of all entries only that of the system call is open to `int` in user mode.
pub start-Gates :
    (sym : Symbols) (b : Boot)
    → Low sym
    → ((n : ℕ) → (b.idt n).type ≡ 0)
    → let idt = (start sym b).idt in
      IsGate 0 sym.irq0 (idt 32)
      × IsGate 0 sym.keyboard_isr (idt 33)
      × IsGate 0 sym.isr8 (idt 8)
      × IsGate 0 sym.isr13 (idt 13)
      × IsGate 0 sym.isr14 (idt 14)
      × IsGate 3 sym.syscall_handler (idt 0x80)
      × ((n : ℕ) → Open (idt n) → n ≡ 0x80)
unfolding start add_gates add
start-Gates sym b low empty = (
  add-IsGate 32 sym.irq0 0x8E 0 b.idt low.irq0 refl refl refl,
  add-IsGate 33 sym.keyboard_isr 0x8E 0 b.idt low.keyboard_isr refl refl refl,
  add-IsGate 8 sym.isr8 0x8E 0 b.idt low.isr8 refl refl refl,
  add-IsGate 13 sym.isr13 0x8E 0 b.idt low.isr13 refl refl refl,
  add-IsGate 14 sym.isr14 0x8E 0 b.idt low.isr14 refl refl refl,
  add-IsGate 0x80 sym.syscall_handler 0xEE 3 b.idt low.syscall_handler refl refl refl,
  λ n gate. only-Open sym b n empty gate,
)
