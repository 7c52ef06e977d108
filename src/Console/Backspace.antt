-- ===== src/Console/Backspace.antt =====
-- The backspace of `keyboard_handler` of kernel/kernel.c, which takes a character from the screen.
use my_kernel.Common.{
  ℕ, ◌+◌, ◌-◌, ◌≤◌, ◌<◌, ◌≡◌, ◌≢◌, refl, ◌∙◌, true, [], ◌∷◌, arith, ltb, ◌==◌, if◌then◌else◌,
}
use my_kernel.Common.Run.{ok}
use my_kernel.Keyboard.{read, read_backspace}
use my_kernel.Vga.Bounds.{clear-cell, clear-other, clear-same, print-cell}
use my_kernel.Vga.{white, clear}
use my_kernel.Console.{
  Console, back, command_size, move, put_char, on_backspace, on_key, keyboard_handler, keyboard,
}
use my_kernel.Console.Typing.{Room, typed, typed-Room, guard_line-ok, keyboard_handler-typed}

-- The cursor is back, and the cell there is a white space; all other cells are as before. The line
-- keeps the character, with an end mark behind.
pub record Kept (c : ℕ) (s t : Console) : Type 0 where
  pub cursor : t.screen.cursor ≡ s.screen.cursor
  pub column : t.screen.column ≡ s.screen.column
  pub cell : t.screen.cell s.screen.cursor ≡ white + 32
  pub others : (a : ℕ) → a ≢ s.screen.cursor → t.screen.cell a ≡ s.screen.cell a
  pub line_before : (k : ℕ) → k < s.command_index → t.command k ≡ s.command k
  pub index : t.command_index ≡ s.command_index + 1
  pub line : t.command s.command_index ≡ c
  pub ends : t.command (s.command_index + 1) ≡ 0

abbrev erased : Console → Console
erased s = record s {
  last_key = 8;
  screen = move (
      clear (s.screen.cursor - 1)
        (record s.screen { cursor = s.screen.cursor - 1; column = s.screen.column - 1 }));
  command = λ k. if k == s.command_index then 0 else s.command k;
  acknowledged = s.acknowledged + 1;
}

backspace :
    (s : Console)
    → 0 < s.screen.cursor
    → s.screen.cursor < 2000
    → 0 < s.screen.column
    → s.screen.column ≤ 2000
    → s.command_index < command_size
    → keyboard_handler 0x0E s ≡ ok (erased s)
unfolding keyboard_handler on_key on_backspace put_char move
backspace s ci ch ji jh room =
    let g = guard_line-ok (record s { last_key = 8 }) ch in
    let y : ltb s.command_index command_size ≡ true = ground arith in
    let i : back 1 s.screen.cursor ≡ s.screen.cursor - 1 = omega arith in
    let j : back 1 s.screen.column ≡ s.screen.column - 1 = omega arith in
    rw (read_backspace, g, i, j, y) refl

erased-typed-Kept : (c : ℕ) (s : Console) → c < 256 → Kept c s (erased (typed c s))
unfolding move
erased-typed-Kept c s hi =
    let i : s.screen.cursor + 1 - 1 ≡ s.screen.cursor = omega arith in
    let j : s.screen.column + 1 - 1 ≡ s.screen.column = omega arith in
    let u = record (typed c s).screen { cursor = s.screen.cursor; column = s.screen.column } in
    let (p, q, m) = clear-same s.screen.cursor u in
    record {
      cursor = rw (i, j) p;
      column = rw (i, j) q;
      cell =
          rw (i, j)
            (clear-cell s.screen.cursor u
              ∙ ground (arith, print-cell c s.screen.cursor s.screen.cell s.screen.cursor));
      others = λ a ne.
          rw (i, j)
            (clear-other s.screen.cursor u a ne
              ∙ ground (arith, print-cell c s.screen.cursor s.screen.cell a));
      line_before = λ k before. ground arith;
      index = refl;
      line = ground arith;
      ends = ground arith;
    }

-- With room for two characters, a character that leaves a mark and a backspace take the cursor back
-- and leave a white space in the cell of the character and every other cell as it was, but the
-- character stays in `command`, and the next one comes behind it.
pub keyboard_backspace :
    (code c : ℕ) (s : Console)
    → read code ≡ c
    → 32 < c
    → c < 256
    → Room 2 s
    → (t : Console) × (keyboard (code ∷ 0x0E ∷ []) s ≡ ok t) × Kept c s t
unfolding keyboard
keyboard_backspace code c s e lo hi r =
    let u = typed c s in
    let k = keyboard_handler-typed 1 code c s e lo hi r in
    let r' = typed-Room 1 c s r in
    let b =
      backspace u (omega arith) (omega (arith, r'.cells)) (omega arith) (omega (arith, r'.columns))
        (omega (arith, r'.line)) in
    (erased u, rw (k, b) refl, erased-typed-Kept c s hi)
