-- ===== src/Console/Typing.antt =====
-- Typing a line at `keyboard_handler` of kernel/kernel.c.
use my_kernel.Common.{
  ℕ, zero, suc, ◌+◌, ◌-◌, ◌%◌, ◌^◌, ◌≤◌, ◌<◌, ◌≡◌, refl, ◌∙◌, true, false, List, [], ◌∷◌, ◌++◌,
  arith, ltb, ◌==◌, if◌then◌else◌, length, get_elem?, some,
}
use my_kernel.Common.Run.{Run, ok, fault, out_of_fuel, ◌>>=◌}
use my_kernel.Process.{int_ge}
use my_kernel.Keyboard.{read, read_enter}
use my_kernel.Vga.{white, print}
use my_kernel.Vga.Bounds.{print-cell}
use my_kernel.Console.{
  back, Console, command_size, put_char, push_char, guard_line, on_enter, on_character, on_key,
  keyboard_handler, keyboard, forward, move,
}

-- The bytes are the keys of the characters, which leave a mark on the screen.
abbrev pub Keys : List ℕ → List ℕ → Type 0
Keys [] [] = Unit {0}
Keys [] (c ∷ cs) = ⊥
Keys (code ∷ codes) [] = ⊥
Keys (code ∷ codes) (c ∷ cs) = (read code ≡ c) × (32 < c) × (c < 256) × Keys codes cs

-- The console with room for `n` more characters in the line and on the screen.
pub record Room (n : ℕ) (s : Console) : Type 0 where
  pub line : s.command_index + n < command_size
  pub cells : s.screen.cursor + n < 2000
  pub columns : s.screen.column + n < 2000

-- `t` is `s` with the characters typed.
pub record Typed (cs : List ℕ) (s t : Console) : Type 0 where
  pub index : t.command_index ≡ s.command_index + length cs
  pub cursor : t.screen.cursor ≡ s.screen.cursor + length cs
  pub column : t.screen.column ≡ s.screen.column + length cs
  pub ready : t.command_ready ≡ s.command_ready
  pub line : (k c : ℕ) → get_elem? cs k ≡ some c → t.command (s.command_index + k) ≡ c
  pub line_before : (k : ℕ) → k < s.command_index → t.command k ≡ s.command k
  pub cells : (k c : ℕ) → get_elem? cs k ≡ some c → t.screen.cell (s.screen.cursor + k) ≡ white + c
  pub cells_before : (a : ℕ) → a < s.screen.cursor → t.screen.cell a ≡ s.screen.cell a

abbrev pub typed : ℕ → Console → Console
typed c s = record s {
  last_key = c;
  screen = record s.screen {
    cell = print c s.screen.cursor s.screen.cell;
    cursor = s.screen.cursor + 1;
    column = s.screen.column + 1;
    moved = (s.screen.cursor + 1) % 2 ^ 16 ∷ s.screen.moved;
  };
  command = λ k. if k == s.command_index then c else s.command k;
  command_index = s.command_index + 1;
  acknowledged = s.acknowledged + 1;
}

pub guard_line-ok : (s : Console) → s.screen.cursor < 2000 → guard_line s ≡ ok s
unfolding guard_line int_ge
guard_line-ok s h = ground arith

on_key-on_character : (c : ℕ) (s : Console) → 32 < c → c < 256 → on_key c s ≡ on_character c s
unfolding on_key
on_key-on_character c s lo hi = ground arith

on_character-typed :
    (n c : ℕ) (s : Console)
    → c < 256
    → Room (suc n) s
    → on_character c s
      ≡ ok (record (typed c s) { last_key = s.last_key; acknowledged = s.acknowledged })
unfolding on_character push_char put_char
on_character-typed n c s hi r =
    let y : ltb s.command_index 128 ≡ true = ground (arith, r.line) in
    let e : c % 256 ≡ c = omega arith in
    let i : forward 1 s.screen.cursor ≡ s.screen.cursor + 1 = omega (arith, r.cells) in
    let j : forward 1 s.screen.column ≡ s.screen.column + 1 = omega (arith, r.columns) in
    rw (i, j, y, e)

pub keyboard_handler-typed :
    (n code c : ℕ) (s : Console)
    → read code ≡ c
    → 32 < c
    → c < 256
    → Room (suc n) s
    → keyboard_handler code s ≡ ok (typed c s)
unfolding keyboard_handler
keyboard_handler-typed n code c s e lo hi r =
    let s' = record s { last_key = c } in
    let g = guard_line-ok s' (omega (arith, r.cells)) in
    let nz : (c == 0) ≡ false = ground arith in
    let r' : Room (suc n) s' = record { line = r.line; cells = r.cells; columns = r.columns } in
    let k = on_key-on_character c s' lo hi ∙ on_character-typed n c s' hi r' in rw (e, g, nz, k)

pub typed-Room : (n c : ℕ) (s : Console) → Room (suc n) s → Room n (typed c s)
typed-Room n c s r = record {
  line = omega (arith, r.line);
  cells = omega (arith, r.cells);
  columns = omega (arith, r.columns);
}

-- What the first character leaves is what the others find.
Typed-cons :
    (c : ℕ) (cs : List ℕ) (s t : Console) → c < 256 → Typed cs (typed c s) t → Typed (c ∷ cs) s t
Typed-cons c cs s t hi h = record {
  index = omega (arith, h.index);
  cursor = omega (arith, h.cursor);
  column = omega (arith, h.column);
  ready = h.ready;
  line = line;
  line_before = λ k l. h.line_before k (omega arith) ∙ ground arith;
  cells = cells;
  cells_before = λ a l.
      h.cells_before a (omega arith) ∙ ground (arith, print-cell c s.screen.cursor s.screen.cell a);
}
  where
    line : (k d : ℕ) → get_elem? (c ∷ cs) k ≡ some d → t.command (s.command_index + k) ≡ d
    line zero d e =
        let z : s.command_index + 0 ≡ s.command_index = omega arith in
        rw z (h.line_before s.command_index (omega arith) ∙ ground arith)
    line (suc k) d e =
        let z : s.command_index + suc k ≡ s.command_index + 1 + k = omega arith in
        rw z (h.line k d e)

    cells :
        (k d : ℕ) → get_elem? (c ∷ cs) k ≡ some d → t.screen.cell (s.screen.cursor + k) ≡ white + d
    cells zero d e =
        let z : s.screen.cursor + 0 ≡ s.screen.cursor = omega arith in
        rw z (
          h.cells_before s.screen.cursor (omega arith)
          ∙ ground (arith, print-cell c s.screen.cursor s.screen.cell s.screen.cursor))
    cells (suc k) d e =
        let z : s.screen.cursor + suc k ≡ s.screen.cursor + 1 + k = omega arith in
        rw z (h.cells k d e)

keyboard-Typed :
    (codes cs : List ℕ) (s : Console)
    → Keys codes cs
    → Room (length cs) s
    → (t : Console) × (keyboard codes s ≡ ok t) × Typed cs s t × Room 0 t
unfolding keyboard
keyboard-Typed [] [] s h r = (
  s,
  refl,
  record {
    index = omega arith;
    cursor = omega arith;
    column = omega arith;
    ready = refl;
    line = λ k c e. cc;
    line_before = λ k l. refl;
    cells = λ k c e. cc;
    cells_before = λ a l. refl;
  },
  r,
)
keyboard-Typed [] (c ∷ cs) s h r = absurd h
keyboard-Typed (code ∷ codes) [] s h r = absurd h
keyboard-Typed (code ∷ codes) (c ∷ cs) s (e, lo, hi, h) r =
    let k = keyboard_handler-typed (length cs) code c s e lo hi r in
    let (t, d, typing, room) =
      keyboard-Typed codes cs (typed c s) h (typed-Room (length cs) c s r) in
    (t, rw (k, d), Typed-cons c cs s t hi typing, room)

keyboard-append :
    (xs ys : List ℕ) (s : Console) → keyboard (xs ++ ys) s ≡ (keyboard xs s >>= keyboard ys)
unfolding keyboard
keyboard-append [] ys s = refl
keyboard-append (x ∷ xs) ys s = go (keyboard_handler x s) (λ t. keyboard-append xs ys t)
  where
    go :
        (m : Run Console)
        → ((t : Console) → keyboard (xs ++ ys) t ≡ (keyboard xs t >>= keyboard ys))
        → (m >>= keyboard (xs ++ ys)) ≡ ((m >>= keyboard xs) >>= keyboard ys)
    go (ok t) h = h t
    go fault h = refl
    go out_of_fuel h = refl

-- The line is ended, and the cursor is at the beginning of the next row.
pub record Entered (s t : Console) : Type 0 where
  pub ready : t.command_ready ≡ 1
  pub index : t.command_index ≡ s.command_index
  pub ends : t.command s.command_index ≡ 0
  pub line : (k : ℕ) → k < s.command_index → t.command k ≡ s.command k
  pub cell : t.screen.cell ≡ s.screen.cell
  pub column : t.screen.column ≡ 0
  pub cursor : t.screen.cursor ≡ s.screen.cursor + 80 - s.screen.column

enter-Entered :
    (s : Console)
    → Room 0 s
    → s.screen.column ≤ s.screen.cursor
    → (t : Console) × (keyboard_handler 0x1C s ≡ ok t) × Entered s t
unfolding keyboard_handler on_key on_enter put_char move
enter-Entered s r le =
    let g = guard_line-ok (record s { last_key = 10 }) (omega (arith, r.cells)) in
    let y : ltb s.command_index 128 ≡ true = ground (arith, r.line) in
    let i : back s.screen.column (forward 80 s.screen.cursor)
        ≡ s.screen.cursor + 80 - s.screen.column =
      omega (arith, r.cells, r.columns) in
    (
      record s {
        last_key = 10;
        screen = record s.screen {
          cursor = s.screen.cursor + 80 - s.screen.column;
          column = 0;
          moved = (s.screen.cursor + 80 - s.screen.column) % 2 ^ 16 ∷ s.screen.moved;
        };
        command = λ k. if k == s.command_index then 0 else s.command k;
        command_ready = 1;
        acknowledged = s.acknowledged + 1;
      },
      rw (read_enter, g, i, y),
      record {
        ready = refl;
        index = refl;
        ends = ground arith;
        line = λ k l. ground arith;
        cell = refl;
        column = refl;
        cursor = refl;
      },
    )

-- Typing the keys of a text and Enter, with room for it in the line and on the screen, writes the
-- text with an end mark into `command` and in white onto the screen, tells the shell that a line is
-- ready, and takes the cursor to the beginning of the line's next row.
pub keyboard-Entered :
    (codes cs : List ℕ) (s : Console)
    → Keys codes cs
    → Room (length cs) s
    → s.screen.column ≤ s.screen.cursor
    → (t : Console) × (u : Console) × Typed cs s t
      × Entered t u
      × (keyboard (codes ++ 0x1C ∷ []) s ≡ ok u)
unfolding keyboard
keyboard-Entered codes cs s h r le =
    let (t, d, typing, room) = keyboard-Typed codes cs s h r in
    let (u, e, entered) = enter-Entered t room (omega (arith, typing.cursor, typing.column)) in
    (t, u, typing, entered, keyboard-append codes (0x1C ∷ []) s ∙ rw (d, e))
