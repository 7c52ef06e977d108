-- ===== src/Shell/Examples.antt =====
-- A test of user/shell.c and the keyboard: "hello" is typed.
use my_kernel.Common.{◌≡◌, refl, true, [], ◌∷◌, ◌++◌, arith}
use my_kernel.Common.Run.{ok}
use my_kernel.Console.{Console, keyboard}
use my_kernel.Console.Examples.{prompt, prompt-Room, hello_keys, hello_keys-Keys}
use my_kernel.Shell.Loop.{hello, shell_round}
use my_kernel.Shell.Commands.{Round, shell_round-keyboard}

shell_round-keyboard_example :
    (u : Console) × (keyboard (hello_keys ++ 0x1C ∷ []) prompt ≡ ok u)
    × Round hello 0 true (shell_round 0 true u)
shell_round-keyboard_example =
    shell_round-keyboard hello_keys hello 0 true prompt hello_keys-Keys
      (record { room = prompt-Room; empty = refl; left = omega arith })
