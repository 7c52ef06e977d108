-- ===== src/Shell.antt =====
-- `strcmp` of user/shell.c. A string is the list of its characters before the
-- end mark; a character is a byte other than 0.
pub mod Loop
pub mod Commands
pub mod Examples
use my_kernel.Common.{
  ℕ, ◌+◌, ◌-◌, ◌^◌, ◌%◌, ◌<◌, ◌≡◌, ◌↔◌, refl, inl, inr, Bool, true, false, List, [], ◌∷◌, arith,
  ◌==◌, if◌then◌else◌, leb, Bool-cases,
}

-- `(unsigned char)a - (unsigned char)b`, an `int` by its bits.
pub difference : ℕ → ℕ → ℕ
difference a b = (a + 2 ^ 32 - b) % 2 ^ 32

-- The character that `*str` reads.
abbrev pub head : List ℕ → ℕ
head [] = 0
head (c ∷ s) = c

pub strcmp : List ℕ → List ℕ → ℕ
unfolding difference
strcmp [] t = difference 0 (head t)
strcmp (c ∷ s) [] = difference c 0
strcmp (c ∷ s) (d ∷ t) = if c == d then strcmp s t else difference c d

-- The characters are bytes other than the end mark.
abbrev pub IsText : List ℕ → Type 0
IsText [] = Unit {0}
IsText (c ∷ s) = (0 < c) × (c < 256) × IsText s

-- The order of the first characters that differ, the end mark first.
unfoldable pub precedes : List ℕ → List ℕ → Bool
precedes s [] = false
precedes [] (d ∷ t) = true
precedes (c ∷ s) (d ∷ t) = if c == d then precedes s t else leb c d

-- `strcmp` gives 0 exactly for equal strings.
pub strcmp-zero : (s t : List ℕ) → IsText s → IsText t → (strcmp s t ≡ 0) ↔ (s ≡ t)
unfolding strcmp
strcmp-zero [] [] p q = (λ e. refl, λ e. refl)
strcmp-zero [] (d ∷ t) p q = (λ e. absurd (omega arith), λ e. cc)
strcmp-zero (c ∷ s) [] p q = (λ e. absurd (omega arith), λ e. cc)
strcmp-zero (c ∷ s) (d ∷ t) p q =
    let (f, g) = strcmp-zero s t p.2 q.2 in
    elim (Bool-cases (c == d)) [
      | inl y ↦ rw y (λ e. ground (arith, f e), λ e. g (ground arith))
      | inr n ↦ rw n (λ e. absurd (ground arith), λ e. absurd (ground arith))
    ]

-- `strcmp` is negative, as an `int`, exactly if the first string comes before the second.
pub strcmp-negative :
    (s t : List ℕ) → IsText s → IsText t → leb (2 ^ 31) (strcmp s t) ≡ precedes s t
unfolding strcmp precedes
strcmp-negative [] [] p q = refl
strcmp-negative [] (d ∷ t) p q = ground arith
strcmp-negative (c ∷ s) [] p q = ground arith
strcmp-negative (c ∷ s) (d ∷ t) p q = elim (Bool-cases (c == d)) [
  | inl y ↦ rw y (strcmp-negative s t p.2 q.2)
  | inr n ↦ rw n (ground arith)
]
