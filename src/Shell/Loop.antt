-- ===== src/Shell/Loop.antt =====
-- The command loop of user/shell.c: `empty_string`, `command_exec` and the rounds of `shell`. The
-- system calls that it makes are listed in order.
use Prim.Native.String.{String}
use my_kernel.Common.{
  ℕ, zero, suc, Bool, true, false, Option, none, some, List, [], ◌∷◌, ◌++◌, ltb, ◌==◌,
  if◌then◌else◌,
}
use my_kernel.Console.{Console, command_size}
use my_kernel.Shell.{strcmp}

-- The wrappers of user/user_space.c that the shell calls. `exec` is for the program `hello`.
pub data UserCall : Type 0 where
  write_string : String → UserCall
  fork exec wait yield : UserCall
  exit : ℕ → UserCall

-- The characters of the string at `k`, up to its end mark.
unfoldable pub string_at : ℕ → (ℕ → ℕ) → ℕ → List ℕ
string_at zero command k = []
string_at (suc n) command k =
    let rest = string_at n command (suc k) in if command k == 0 then [] else command k ∷ rest

abbrev pub hello : List ℕ
hello = b'h' ∷ b'e' ∷ b'l' ∷ b'l' ∷ b'o' ∷ []

-- `command_exec`; `pid` is what `user_fork` returns, 0 in the child, and `returns` tells whether
-- `user_exec` returns, as it does on failure. `false` is an end that does not come back: `user_exit`
-- never returns, and `user_exec` goes on in the program.
unfoldable pub command_exec : List ℕ → ℕ → Bool → List UserCall × Bool
command_exec command pid returns =
    if strcmp command hello == 0
    then (if pid == 0
        then (fork ∷ exec ∷ (if returns then exit 1 ∷ [] else []), false)
        else (fork ∷ wait ∷ [], true))
    else ([], true)

unfoldable pub empty_string : (ℕ → ℕ) → ℕ → ℕ
empty_string command k = if ltb k command_size then 0 else command k

-- One round of the loop of `shell`; `none` is a round that does not come back.
unfoldable pub shell_round : ℕ → Bool → Console → List UserCall × Option Console
unfolding string_at command_exec empty_string
shell_round pid returns s =
    if s.command_ready == 1
    then (let (calls, goes_on) = command_exec (string_at command_size s.command 0) pid returns in
        if goes_on
        then (
          calls ++ write_string "my>>os: " ∷ yield ∷ [],
          some
              (record s { command_ready = 0; command_index = 0; command = empty_string s.command }),
        )
        else (calls, none))
    else (yield ∷ [], some s)
