-- ===== src/Pmm/Regions/BestFit.antt =====
-- The loop of `allocate` in kernel/pmm.c finds the first of the shortest regions that fit.
use my_kernel.Common.{
  ℕ, suc, ◌+◌, ◌≤◌, ◌≡◌, refl, ap, ◌⊎◌, inl, inr, true, false, ◌&&◌, Option, none, some, List, [],
  ◌∷◌, ◌++◌, arith, length, Bool-cases,
}
use my_kernel.Pmm.Regions.{Region, usable, beats, best_fit}

-- No usable region of the list is shorter than `n`.
abbrev pub Above : ℕ → ℕ → List Region → Type 0
Above size n [] = Unit {0}
Above size n (x ∷ xs) = (usable size x ≡ true → n ≤ x.length) × Above size n xs

-- No region of the list is usable.
abbrev pub NoneUsable : ℕ → List Region → Type 0
NoneUsable size [] = Unit {0}
NoneUsable size (x ∷ xs) = (usable size x ≡ false) × NoneUsable size xs

-- `r`, at index `k`, is usable, shorter than every usable region before it and no longer than
-- every one behind it.
pub record Best (size : ℕ) (m : List Region) (k : ℕ) (r : Region) : Type 0 where
  pub before : List Region
  pub behind : List Region
  pub splits : m ≡ before ++ r ∷ behind
  pub index : k ≡ length before
  pub fits : usable size r ≡ true
  pub shorter : Above size (suc r.length) before
  pub shortest : Above size r.length behind

abbrev Floor : ℕ → Option (ℕ × Region) → List Region → Type 0
Floor size none rs = NoneUsable size rs
Floor size (some (j, b)) rs = Above size b.length rs

data Scan (size k : ℕ) (best : Option (ℕ × Region)) (rs : List Region) (out : Option (ℕ × Region))
    : Type 0 where
  kept : out ≡ best → Floor size best rs → Scan size k best rs out
  found :
      (before behind : List Region) (r : Region)
      → rs ≡ before ++ r ∷ behind
      → out ≡ some (k + length before, r)
      → usable size r ≡ true
      → beats r best ≡ true
      → Above size (suc r.length) before
      → Above size r.length behind
      → Scan size k best rs out

Scan-take :
    (size k : ℕ) (best : Option (ℕ × Region)) (x : Region) (rs : List Region)
    (out : Option (ℕ × Region))
    → usable size x ≡ true
    → beats x best ≡ true
    → Scan size (suc k) (some (k, x)) rs out
    → Scan size k best (x ∷ rs) out
unfolding beats
Scan-take size k best x rs out u b (kept e f) =
    let e' : out ≡ some (k + 0, x) = ground arith in found [] rs x refl e' u b tt f
Scan-take size k best x rs out u b (found before behind r s e u' b' lo hi) =
    let e' : out ≡ some (k + suc (length before), r) = ground arith in
    found (x ∷ before) behind r (ap (λ l. x ∷ l) s) e' u' (beats-trans best b b') (ground arith, lo)
      hi
  where
    beats-trans :
        (o : Option (ℕ × Region))
        → beats x o ≡ true
        → beats r (some (k, x)) ≡ true
        → beats r o ≡ true
    beats-trans none p q = refl
    beats-trans (some (j, c)) p q = ground arith

Scan-skip :
    (size k : ℕ) (best : Option (ℕ × Region)) (x : Region) (rs : List Region)
    (out : Option (ℕ × Region))
    → (usable size x && beats x best) ≡ false
    → Scan size (suc k) best rs out
    → Scan size k best (x ∷ rs) out
unfolding beats
Scan-skip size k none x rs out n (kept e f) = kept e (ground arith, f)
Scan-skip size k (some (j, c)) x rs out n (kept e f) = kept e (ground arith, f)
Scan-skip size k none x rs out n (found before behind r s e u b lo hi) =
    let e' : out ≡ some (k + suc (length before), r) = ground arith in
    found (x ∷ before) behind r (ap (λ l. x ∷ l) s) e' u b (ground arith, lo) hi
Scan-skip size k (some (j, c)) x rs out n (found before behind r s e u b lo hi) =
    let e' : out ≡ some (k + suc (length before), r) = ground arith in
    found (x ∷ before) behind r (ap (λ l. x ∷ l) s) e' u b (ground arith, lo) hi

best_fit-Scan :
    (size k : ℕ) (best : Option (ℕ × Region)) (rs : List Region)
    → Scan size k best rs (best_fit size k best rs)
unfolding best_fit
best_fit-Scan size k none [] = kept refl tt
best_fit-Scan size k (some (j, c)) [] = kept refl tt
best_fit-Scan size k best (x ∷ rs) = elim (Bool-cases (usable size x && beats x best)) [
  | inl t ↦ rw t (
      Scan-take size k best x rs _ (ground arith) (ground arith)
        (best_fit-Scan size (suc k) (some (k, x)) rs))
  | inr n ↦ rw n (Scan-skip size k best x rs _ n (best_fit-Scan size (suc k) best rs))
]

Scan-Best :
    (size : ℕ) (m : List Region) (out : Option (ℕ × Region))
    → Scan size 0 none m out
    → ((out ≡ none) × NoneUsable size m)
      ⊎ ((k : ℕ) × (r : Region) × (out ≡ some (k, r)) × Best size m k r)
Scan-Best size m out (kept e f) = inl (e, f)
Scan-Best size m out (found before behind r s e u b lo hi) = inr (
  length before,
  r,
  ground arith,
  record {
    before = before;
    behind = behind;
    splits = s;
    index = refl;
    fits = u;
    shorter = lo;
    shortest = hi;
  },
)

-- The loop of `allocate` either finds the best fit, or there is no usable region.
pub best_fit-Best :
    (size : ℕ) (m : List Region)
    → ((best_fit size 0 none m ≡ none) × NoneUsable size m)
      ⊎ ((k : ℕ) × (r : Region) × (best_fit size 0 none m ≡ some (k, r)) × Best size m k r)
best_fit-Best size m = Scan-Best size m _ (best_fit-Scan size 0 none m)
