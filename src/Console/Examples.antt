-- ===== src/Console/Examples.antt =====
-- Tests of `keyboard_handler` of kernel/kernel.c: "hello" is typed, with the cursor in the sixth row.
use my_kernel.Common.{ℕ, ◌≡◌, List, [], ◌∷◌, arith}
use my_kernel.Common.Run.{ok}
use my_kernel.Keyboard.Examples.{read_hello}
use my_kernel.Console.{Console, keyboard}
use my_kernel.Console.Typing.{Keys, Room}
use my_kernel.Console.Backspace.{Kept, keyboard_backspace}

abbrev pub prompt : Console
prompt = record {
  screen = record { cell = λ a. 0x0720; cursor = 409; column = 9; moved = [] };
  last_key = 0;
  command = λ k. 0;
  command_index = 0;
  command_ready = 0;
  acknowledged = 0;
}

abbrev pub hello_keys : List ℕ
hello_keys = 0x23 ∷ 0x12 ∷ 0x26 ∷ 0x26 ∷ 0x18 ∷ []

abbrev typed_line : List ℕ
typed_line = b'h' ∷ b'e' ∷ b'l' ∷ b'l' ∷ b'o' ∷ []

pub hello_keys-Keys : Keys hello_keys typed_line
hello_keys-Keys =
    let (h, e, l, o) = read_hello in
    (
      h,
      omega arith,
      omega arith,
      (
        e,
        omega arith,
        omega arith,
        (
          l,
          omega arith,
          omega arith,
          (l, omega arith, omega arith, (o, omega arith, omega arith, tt)),
        ),
      ),
    )

pub prompt-Room : Room 5 prompt
prompt-Room = record { line = omega arith; cells = omega arith; columns = omega arith }

prompt-Room_2 : Room 2 prompt
prompt-Room_2 = record { line = omega arith; cells = omega arith; columns = omega arith }

keyboard_backspace_example :
    (t : Console) × (keyboard (0x23 ∷ 0x0E ∷ []) prompt ≡ ok t) × Kept b'h' prompt t
keyboard_backspace_example =
    keyboard_backspace 0x23 b'h' prompt read_hello.0 (omega arith) (omega arith) prompt-Room_2
