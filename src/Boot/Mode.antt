-- ===== src/Boot/Mode.antt =====
-- `switch_mode` of kernel/kernel.c: the wait for F10.
use my_kernel.Common.{
  ℕ, ◌+◌, ◌%◌, ◌^◌, ◌≤◌, ◌<◌, ◌≡◌, ◌≢◌, refl, ap, ◌⊎◌, inl, inr, false, List, [], ◌∷◌, ◌++◌, arith,
  ltb, ◌==◌, Bool-cases,
}
use my_kernel.Common.Run.{ok}
use my_kernel.Vga.{Screen}
use my_kernel.Vga.Output.{text, draw}
use my_kernel.Boot.{Seen, key_f10, switch_rounds, switch_mode}

-- The loop goes on after each of these.
abbrev pub AllWait : ℕ → List Seen → Type 0
AllWait end [] = Unit {0}
AllWait end (s ∷ later) = ((s.ticks < end) × (s.last_key ≢ key_f10)) × AllWait end later

-- The choice is made at the first observation behind which the loop does not go on: 0 for F10
-- before the end of the time, 1 at the end of the time.
pub record Chosen (end : ℕ) (seen : List Seen) (choice : ℕ) : Type 0 where
  pub before : List Seen
  pub last : Seen
  pub behind : List Seen
  pub splits : seen ≡ before ++ last ∷ behind
  pub waited : AllWait end before
  pub made :
      ((choice ≡ 0) × (last.ticks < end) × (last.last_key ≡ key_f10))
      ⊎ ((choice ≡ 1) × (end ≤ last.ticks))

Chosen-cons :
    (end choice : ℕ) (s : Seen) (later : List Seen)
    → s.ticks < end
    → s.last_key ≢ key_f10
    → Chosen end later choice
    → Chosen end (s ∷ later) choice
Chosen-cons end choice s later h n c = record {
  before = s ∷ c.before;
  last = c.last;
  behind = c.behind;
  splits = ap (λ l. s ∷ l) c.splits;
  waited = ((h, n), c.waited);
  made = c.made;
}

pub switch_rounds-Chosen :
    (end : ℕ) (pre post : List Seen) (s : Seen)
    → end ≤ s.ticks
    → (choice : ℕ) × (switch_rounds end (pre ++ s ∷ post) ≡ ok choice)
      × Chosen end (pre ++ s ∷ post) choice
unfolding switch_rounds
switch_rounds-Chosen end [] post s h =
    let z : ltb s.ticks end ≡ false = ground arith in
    (
      1,
      rw z refl,
      record {
        before = [];
        last = s;
        behind = post;
        splits = refl;
        waited = tt;
        made = inr (refl, h);
      },
    )
switch_rounds-Chosen end (x ∷ pre) post s h =
    let (choice, e, c) = switch_rounds-Chosen end pre post s h in
    elim (Bool-cases (ltb x.ticks end)) [
      | inr n ↦ (
        1,
        rw n refl,
        record {
          before = [];
          last = x;
          behind = pre ++ s ∷ post;
          splits = refl;
          waited = tt;
          made = inr (refl, ground arith);
        },
      )
      | inl y ↦ elim (Bool-cases (x.last_key == key_f10)) [
        | inl k ↦ (
          0,
          rw (y, k) refl,
          record {
            before = [];
            last = x;
            behind = pre ++ s ∷ post;
            splits = refl;
            waited = tt;
            made = inl (refl, ground arith, ground arith);
          },
        )
        | inr n ↦ (choice, rw (y, n) e, Chosen-cons end choice x _ (ground arith) (ground arith) c)
      ]
    ]

-- If one test of the loop finds that 300 ticks have passed since the call, modulo 2^32, `switch_mode`
-- ends, with the cursor at 400 and the column at 0. It chooses 0 when a test before the first that
-- finds the time over sees F10, and 1 otherwise.
pub switch_mode-Chosen :
    (ticks : ℕ) (pre post : List Seen) (s : Seen) (screen : Screen)
    → (ticks + 300) % 2 ^ 32 ≤ s.ticks
    → (choice : ℕ) × (t : Screen) × (switch_mode ticks (pre ++ s ∷ post) screen ≡ ok (choice, t))
      × (t.cursor ≡ 400)
      × (t.column ≡ 0)
      × Chosen ((ticks + 300) % 2 ^ 32) (pre ++ s ∷ post) choice
unfolding switch_mode
switch_mode-Chosen ticks pre post s screen h =
    let t = draw (text "click f10 if you want to stay in the bios" ∷ []) screen in
    let (choice, e, c) = switch_rounds-Chosen ((ticks + 300) % 2 ^ 32) pre post s h in
    (choice, record t { cursor = 400; column = 0 }, rw e refl, refl, refl, c)
