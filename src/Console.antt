-- ===== src/Console.antt =====
-- The keyboard interrupt of kernel/kernel.c: `keyboard_handler`, the line that it edits and the
-- cursor. `i` and `j` are `int`s, given by their bits, in the fields `cursor` and `column` of the
-- screen. `fault` is a write behind `command`, or the call of `add_line` without its argument.
-- `acknowledged` counts the ends of interrupt that are sent.
pub mod Typing
pub mod Backspace
pub mod Examples
use my_kernel.Common.{ℕ, zero, suc, ◌+◌, ◌-◌, ◌%◌, ◌^◌, List, [], ◌∷◌, ltb, ◌==◌, if◌then◌else◌}
use my_kernel.Common.Run.{Run, ok, fault, ◌>>=◌}
use my_kernel.Process.{int_ge}
use my_kernel.Keyboard.{read, key_up}
use my_kernel.Vga.{Screen, print, clear}

abbrev pub command_size : ℕ
command_size = 128

-- The keys that `keyboard_handler` names; the others are the values of their characters.
abbrev pub key_down : ℕ
key_down = 257

abbrev pub key_left : ℕ
key_left = 258

abbrev pub key_right : ℕ
key_right = 259

pub record Console : Type 0 where
  pub screen : Screen
  pub last_key : ℕ
  pub command : ℕ → ℕ
  pub command_index : ℕ
  pub command_ready : ℕ
  pub acknowledged : ℕ

-- `i = i + n` and `j = j + n`, and their moves back.
abbrev pub forward : ℕ → ℕ → ℕ
forward n a = (a + n) % 2 ^ 32

abbrev pub back : ℕ → ℕ → ℕ
back n a = (a + 2 ^ 32 - n) % 2 ^ 32

-- `move(i)`
pub move : Screen → Screen
move s = record s { moved = s.cursor % 2 ^ 16 ∷ s.moved }

-- `command[command_index] = c`
unfoldable pub put_char : ℕ → Console → Run Console
put_char c s =
    if ltb s.command_index command_size
    then ok (record s { command = λ k. if k == s.command_index then c % 256 else s.command k })
    else fault

-- `command[command_index++] = c`
pub push_char : ℕ → Console → Run Console
unfolding put_char
push_char c s = do t ← put_char c s; ok (record t { command_index = t.command_index + 1 })

-- `add_line()` is called if the cursor is behind the screen.
pub guard_line : Console → Run Console
unfolding int_ge
guard_line s = if int_ge s.screen.cursor 2000 then fault else ok s

pub on_enter : Console → Run Console
unfolding move put_char
on_enter s =
    let i = back s.screen.column (forward 80 s.screen.cursor) in
    do
      t ←
          put_char 0
            (record s { screen = record (move (record s.screen { cursor = i })) { column = 0 } })
      ok (record t { command_ready = 1 })

pub on_space : Console → Run Console
unfolding move push_char
on_space s = push_char 32 (record s {
  screen =
      move (record s.screen {
        cursor = forward 1 s.screen.cursor;
        column = forward 1 s.screen.column;
      });
})

pub on_backspace : Console → Run Console
unfolding move put_char
on_backspace s =
    let i = back 1 s.screen.cursor in
    put_char 0 (record s {
      screen = move (clear i (record s.screen { cursor = i; column = back 1 s.screen.column }));
    })

-- The arrow keys: the cursor goes to `i`.
pub move_to : ℕ → Console → Console
unfolding move
move_to i s = record s { screen = move (record s.screen { cursor = i }) }

pub on_forward : ℕ → Console → Run Console
unfolding move_to guard_line
on_forward n s = do
  t ← guard_line (record s { screen = record s.screen { cursor = forward n s.screen.cursor } })
  ok (move_to t.screen.cursor t)

pub on_character : ℕ → Console → Run Console
unfolding move push_char
on_character c s = push_char c (record s {
  screen = move (record s.screen {
    cell = print c s.screen.cursor s.screen.cell;
    cursor = forward 1 s.screen.cursor;
    column = forward 1 s.screen.column;
  });
})

pub on_key : ℕ → Console → Run Console
unfolding on_enter on_space on_backspace move_to on_forward on_character
on_key c s =
    if c == 10
    then on_enter s
    else if c == 32
    then on_space s
    else if c == 8
    then on_backspace s
    else if c == key_up
    then ok (move_to (back 80 s.screen.cursor) s)
    else if c == key_down
    then on_forward 80 s
    else if c == key_left
    then ok (move_to (back 1 s.screen.cursor) s)
    else if c == key_right
    then on_forward 1 s
    else on_character c s

-- `keyboard_handler`, with the byte that the port gives.
pub keyboard_handler : ℕ → Console → Run Console
unfolding guard_line on_key
keyboard_handler code s = do
  t ← guard_line (record s { last_key = read code })
  u ←
      (if read code == 0
        then ok t
        else do v ← on_key (read code) t; ok (record v { acknowledged = v.acknowledged + 1 }))
  ok u

-- One interrupt for each byte.
pub keyboard : List ℕ → Console → Run Console
unfolding keyboard_handler
keyboard [] s = ok s
keyboard (code ∷ codes) s = do t ← keyboard_handler code s; keyboard codes t
