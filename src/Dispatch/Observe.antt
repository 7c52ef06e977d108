-- ===== src/Dispatch/Observe.antt =====
-- The system calls of kernel/syscall.c that only print or look: `syscall_dispatch` on them.
use my_kernel.Common.{
  ℕ, ◌/◌, ◌%◌, ◌<◌, ◌≡◌, ◌≢◌, ◌∙◌, inl, inr, Bool, true, not, ◌&&◌, ◌||◌, List, arith, ltb, leb,
  ◌==◌, if◌then◌else◌, length, Bool-cases,
}
use my_kernel.Common.Run.{ok}
use my_kernel.Process.{Registers, Kernel}
use my_kernel.Process.Links.{Links, has}
use my_kernel.Vga.{Screen, print, print_string, print_number, print_hex, print_time_message}
use my_kernel.Vga.Bounds.{Within, print_string-Within}
use my_kernel.Vga.Calls.{
  print-Within, print_number-Within, print_hex-Within, print_time_message-Within,
}
use my_kernel.Syscall.{minus_one}
use my_kernel.Syscall.Status.{sys_get_parent_pid-has, sys_get_pid-ok}
use my_kernel.Computer.{Computer}
use my_kernel.Dispatch.{Limits, resumes, dispatch_kernel, syscall_dispatch}
use my_kernel.Dispatch.Print.{
  text_at, sys_prints, sys_printc, sys_printn, sys_printhex, get_seconds, up_time,
  sys_print_seconds,
}

-- The numbers of the calls that print.
abbrev pub prints : ℕ → Bool
prints n = (leb 2 n && leb n 5) || n == 8

-- The numbers of the calls that only look, and those that are no call.
abbrev pub looks : ℕ → Bool
looks n = n == 7 || n == 10 || n == 14 || ltb 16 n

-- What such a call returns, for the processes `xs`: the seconds since the start, the number of the
-- current process, that of the parent of a process in the list, or nothing.
abbrev pub observed : Registers → Kernel → List ℕ → ℕ
observed regs k xs =
    if regs.eax == 7
    then k.ticks / 100
    else if regs.eax == 10
    then (k.proc k.current_process).pid
    else if regs.eax == 14
    then (if has regs.ebx xs && not ((k.proc regs.ebx).parent == 0)
        then (k.proc (k.proc regs.ebx).parent).pid
        else minus_one)
    else regs.eax

-- The process goes on with the value in `eax`, and nothing but the screen `s` has changed.
abbrev Answers : Limits → Registers → Computer → ℕ → Screen → Type 0
Answers lim regs c v s =
    syscall_dispatch lim regs c ≡ ok (resumes (record c { screen = s }) (record regs { eax = v }))

abbrev Shows : Limits → Registers → Computer → Type 0
Shows lim regs c =
    (s : Screen) × Answers lim regs c regs.eax s × Within c.screen s × (s.cursor < 2000)

module _ (lim : Limits) (regs : Registers) (c : Computer) (h : c.screen.cursor < 2000) where
  prints-text :
      (text : List ℕ)
      → regs.eax ≡ 2
      → text_at lim.chars regs.ebx c.bytes ≡ ok text
      → Shows lim regs c
  unfolding syscall_dispatch sys_prints
  prints-text text e t =
      let (w, i, m) = print_string-Within text c.screen h in
      (print_string text c.screen, rw t (ground arith), w, i)

  prints-char : regs.eax ≡ 3 → Shows lim regs c
  unfolding syscall_dispatch sys_printc
  prints-char e = (
    record c.screen { cell = print (regs.ebx % 256) c.screen.cursor c.screen.cell },
    ground arith,
    print-Within (regs.ebx % 256) c.screen h,
    h,
  )

  prints-number : regs.eax ≡ 4 → Shows lim regs c
  unfolding syscall_dispatch sys_printn
  prints-number e =
      let (w, i) = print_number-Within regs.ebx c.screen (omega arith) in
      (print_number regs.ebx c.screen, ground arith, w, i)

  prints-hex : regs.eax ≡ 5 → Shows lim regs c
  unfolding syscall_dispatch sys_printhex
  prints-hex e =
      let (w, i) = print_hex-Within regs.ebx c.screen (omega arith) in
      (print_hex regs.ebx c.screen, ground arith, w, i)

  prints-seconds : regs.eax ≡ 8 → Shows lim regs c
  unfolding syscall_dispatch sys_print_seconds
  prints-seconds e =
      let (w, i) = print_time_message-Within up_time 0 c.screen (omega arith) in
      let s = print_time_message up_time 0 c.screen in
      let (v, j) = print_number-Within regs.ebx (record s { cursor = 160 }) (omega arith) in
      (
        record (print_number regs.ebx (record s { cursor = 160 })) { cursor = s.cursor },
        ground arith,
        λ a k. v a k ∙ w a k,
        omega (arith, i),
      )

-- From a cursor on the screen, a call that prints ends back in the process with its registers. It
-- changes nothing but the screen, writes to no memory behind the screen and leaves the cursor on
-- it. The text of `sys_prints` is to have an end mark within the fuel.
pub syscall_dispatch-Shows :
    (lim : Limits) (regs : Registers) (c : Computer)
    → prints regs.eax ≡ true
    → (regs.eax ≡ 2 → (text : List ℕ) × (text_at lim.chars regs.ebx c.bytes ≡ ok text))
    → c.screen.cursor < 2000
    → (s : Screen) × (syscall_dispatch lim regs c ≡ ok (resumes (record c { screen = s }) regs))
      × Within c.screen s
      × (s.cursor < 2000)
syscall_dispatch-Shows lim regs c p text h = elim (Bool-cases (regs.eax == 2)) [
  | inl y ↦
      let e : regs.eax ≡ 2 = ground arith in let (t, f) = text e in prints-text lim regs c h t e f
  | inr n2 ↦ elim (Bool-cases (regs.eax == 3)) [
    | inl y ↦ prints-char lim regs c h (ground arith)
    | inr n3 ↦ elim (Bool-cases (regs.eax == 4)) [
      | inl y ↦ prints-number lim regs c h (ground arith)
      | inr n4 ↦ elim (Bool-cases (regs.eax == 5)) [
        | inl y ↦ prints-hex lim regs c h (ground arith)
        | inr n5 ↦ prints-seconds lim regs c h (ground arith)
      ]
    ]
  ]
]

-- With the processes in the list `xs`, fuel for each and the end, and a current process: a call
-- that only looks, or is no call, ends back in the process and changes nothing but `eax`, which
-- holds what was asked for. For the parent of a pointer that is not in the list, or of a process
-- without one, that is -1.
pub syscall_dispatch-observed :
    (lim : Limits) (regs : Registers) (c : Computer) (xs : List ℕ)
    → looks regs.eax ≡ true
    → Links c.kernel.proc 0 c.kernel.process_list xs
    → length xs < lim.fuel
    → c.kernel.current_process ≢ 0
    → syscall_dispatch lim regs c ≡ ok (resumes c (record regs { eax = observed regs c.kernel xs }))
unfolding syscall_dispatch dispatch_kernel get_seconds
syscall_dispatch-observed lim regs c xs p l h n =
    let a = sys_get_pid-ok c.kernel n in
    let b = sys_get_parent_pid-has lim.fuel regs.ebx c.kernel xs l h in rw (a, b) (ground arith)
