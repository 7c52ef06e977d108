-- ===== src/Shell/Commands.antt =====
-- From the keyboard to the command: kernel/kernel.c and user/shell.c together.
use my_kernel.Common.{
  ℕ, zero, suc, ◌+◌, ◌≤◌, ◌<◌, ◌≡◌, ◌≢◌, refl, ap, ◌∙◌, inl, inr, true, false, List, [], ◌∷◌, ◌++◌,
  arith, ◌==◌, if◌then◌else◌, length, get_elem?, Bool, Option, none, some, Bool-cases,
}
use my_kernel.Common.Run.{ok}
use my_kernel.Console.{Console, keyboard}
use my_kernel.Console.Typing.{Keys, Room, Typed, Entered, keyboard-Entered}
use my_kernel.Shell.{IsText, strcmp, strcmp-zero}
use my_kernel.Shell.Loop.{
  UserCall, write_string, fork, exec, wait, yield, exit, string_at, hello, command_exec,
  empty_string, shell_round,
}

Keys-IsText : (codes cs : List ℕ) → Keys codes cs → IsText cs
Keys-IsText [] [] h = tt
Keys-IsText [] (c ∷ cs) h = absurd h
Keys-IsText (code ∷ codes) [] h = absurd h
Keys-IsText (code ∷ codes) (c ∷ cs) (e, lo, hi, h) = (omega arith, hi, Keys-IsText codes cs h)

-- A text that stands in the array with an end mark is what is read.
string_at-text :
    (n k : ℕ) (command : ℕ → ℕ) (cs : List ℕ)
    → length cs < n
    → IsText cs
    → ((i c : ℕ) → get_elem? cs i ≡ some c → command (k + i) ≡ c)
    → command (k + length cs) ≡ 0
    → string_at n command k ≡ cs
unfolding string_at
string_at-text zero k command cs small text h z = absurd (omega arith)
string_at-text (suc n) k command [] small text h z =
    let e : k + 0 ≡ k = omega arith in
    let y : (command k == 0) ≡ true = ground (arith, ap command e) in rw y
string_at-text (suc n) k command (c ∷ cs) small (pos, lt, text) h z =
    let e : k + 0 ≡ k = omega arith in
    let f : command k ≡ c = rw e at (h 0 c refl) in
    let y : (c == 0) ≡ false = ground arith in
    let next = λ (i : ℕ). λ (d : ℕ). λ (g : get_elem? cs i ≡ some d).
      ap command (let q : suc k + i ≡ k + suc i = omega arith in q) ∙ h (suc i) d g in
    let z' : command (suc k + length cs) ≡ 0 =
      ap command (let q : suc k + length cs ≡ k + suc (length cs) = omega arith in q) ∙ z in
    rw (f, y, string_at-text n (suc k) command cs (omega arith) text next z')

get_elem?-lt : (cs : List ℕ) (i c : ℕ) → get_elem? cs i ≡ some c → i < length cs
get_elem?-lt [] i c e = absurd (cc)
get_elem?-lt (x ∷ cs) zero c e = omega arith
get_elem?-lt (x ∷ cs) (suc i) c e = omega (arith, get_elem?-lt cs i c e)

-- The line after Enter holds what was typed.
Entered-line :
    (cs : List ℕ) (s t u : Console)
    → s.command_index ≡ 0
    → Typed cs s t
    → Entered t u
    → ((i c : ℕ) → get_elem? cs i ≡ some c → u.command (0 + i) ≡ c)
      × (u.command (0 + length cs) ≡ 0)
Entered-line cs s t u z typing entered = (
  λ i c e.
      let lt = get_elem?-lt cs i c e in
      let at : s.command_index + i ≡ 0 + i = omega arith in
      entered.line (0 + i) (omega (arith, typing.index)) ∙ rw at at (typing.line i c e),
  let at : t.command_index ≡ 0 + length cs = omega (arith, typing.index) in rw at at entered.ends,
)

-- The prompt is empty and there is room on the screen for `n` characters.
pub record Prompt (n : ℕ) (s : Console) : Type 0 where
  pub room : Room n s
  pub empty : s.command_index ≡ 0
  pub left : s.screen.column ≤ s.screen.cursor

-- The line is empty, and no command waits.
pub record Empty (v : Console) : Type 0 where
  pub index : v.command_index ≡ 0
  pub ready : v.command_ready ≡ 0
  pub line : (k : ℕ) → k < 128 → v.command k ≡ 0

-- What a round of the shell does with the line `cs`: in the parent, and for any other line, it ends
-- with `v`, where the prompt is empty again.
pub record Round (cs : List ℕ) (pid : ℕ) (returns : Bool) (out : List UserCall × Option Console)
    : Type 0 where
  pub child :
      cs ≡ hello → pid ≡ 0 → out ≡ (fork ∷ exec ∷ (if returns then exit 1 ∷ [] else []), none)
  pub parent :
      cs ≡ hello
      → pid ≢ 0
      → (v : Console) × (out ≡ (fork ∷ wait ∷ write_string "my>>os: " ∷ yield ∷ [], some v))
        × Empty v
  pub other :
      cs ≢ hello → (v : Console) × (out ≡ (write_string "my>>os: " ∷ yield ∷ [], some v)) × Empty v

-- A line that is typed at the empty prompt, of characters that leave a mark, is what the shell
-- compares. If it is `hello`, the round after Enter forks; the parent waits, writes the prompt and
-- yields, and the child executes the program, from which it comes back at most to exit. For any
-- other line the round only writes the prompt and yields. Where it comes back, the line is empty
-- again.
pub shell_round-keyboard :
    (codes cs : List ℕ) (pid : ℕ) (returns : Bool) (s : Console)
    → Keys codes cs
    → Prompt (length cs) s
    → (u : Console) × (keyboard (codes ++ 0x1C ∷ []) s ≡ ok u)
      × Round cs pid returns (shell_round pid returns u)
unfolding shell_round command_exec empty_string
shell_round-keyboard codes cs pid returns s h p =
    let (t, u, typing, entered, d) = keyboard-Entered codes cs s h p.room p.left in
    let text = Keys-IsText codes cs h in
    let (at, ends) = Entered-line cs s t u p.empty typing entered in
    let read = string_at-text 128 0 u.command cs (omega (arith, p.room.line)) text at ends in
    let same = strcmp-zero cs hello text (omega arith) in
    let v = record u { command_ready = 0; command_index = 0; command = empty_string u.command } in
    let empty : Empty v = record { index = refl; ready = refl; line = λ k l. ground arith } in
    (
      u,
      d,
      record {
        child = λ e z.
            let y : (strcmp cs hello == 0) ≡ true = ground (arith, same.1 e) in
            let w : (pid == 0) ≡ true = ground arith in rw (entered.ready, read, y, w) refl;
        parent = λ e n.
            let y : (strcmp cs hello == 0) ≡ true = ground (arith, same.1 e) in
            let w : (pid == 0) ≡ false = ground arith in
            (v, rw (entered.ready, read, y, w) refl, empty);
        other = λ n.
            let y : (strcmp cs hello == 0) ≡ false = elim (Bool-cases (strcmp cs hello == 0)) [
              | inl z ↦ absurd (n (same.0 (ground arith)))
              | inr z ↦ z
            ] in
            (v, rw (entered.ready, read, y) refl, empty);
      },
    )
