-- ===== src/Pmm/Regions/Allocate.antt =====
-- What `allocate` of kernel/pmm.c returns and leaves, in every case.
use my_kernel.Common.{
  ℕ, ◌-◌, ◌%◌, ◌^◌, ◌≤◌, ◌<◌, ◌≡◌, refl, inl, inr, true, false, List, ◌∷◌, ◌++◌, arith, ltb, leb,
  length, set-append, set-append_suc, Bool-cases,
}
use my_kernel.Pmm.Regions.{Region, max_free_pages, usable, owned, rest_of, claim, allocate}
use my_kernel.Pmm.Regions.BestFit.{NoneUsable, Best, best_fit-Best}
use my_kernel.Pmm.Regions.Order.{shift_up-append}

pub data Outcome (size : ℕ) (m : List Region) (out : ℕ × List Region) : Type 0 where
  no_region : NoneUsable size m → out ≡ (0, m) → Outcome size m out
  table_full :
      (k : ℕ) (r : Region)
      → Best size m k r
      → size < r.length
      → max_free_pages ≤ length m
      → out ≡ (0, m)
      → Outcome size m out
  whole :
      (k : ℕ) (r : Region) (b : Best size m k r)
      → r.length ≡ size
      → out ≡ (r.base % 2 ^ 32, b.before ++ owned size r ∷ b.behind)
      → Outcome size m out
  part :
      (k : ℕ) (r : Region) (b : Best size m k r)
      → size < r.length
      → length m < max_free_pages
      → out ≡ (r.base % 2 ^ 32, b.before ++ owned size r ∷ rest_of size r ∷ b.behind)
      → Outcome size m out

pub usable-le : (size : ℕ) (r : Region) → usable size r ≡ true → size ≤ r.length
unfolding usable
usable-le size r h = ground arith

claim_whole :
    (size : ℕ) (xs ys : List Region) (r : Region)
    → r.length ≡ size
    → claim size (length xs) r (xs ++ r ∷ ys) ≡ (r.base % 2 ^ 32, xs ++ owned size r ∷ ys)
unfolding claim
claim_whole size xs ys r e =
    let z : ltb 0 (r.length - size) ≡ false = ground arith in
    rw (z, set-append xs (r ∷ ys) (owned size r))

claim_part :
    (size : ℕ) (xs ys : List Region) (r : Region)
    → size < r.length
    → length (xs ++ r ∷ ys) < max_free_pages
    → claim size (length xs) r (xs ++ r ∷ ys)
      ≡ (r.base % 2 ^ 32, xs ++ owned size r ∷ rest_of size r ∷ ys)
unfolding claim
claim_part size xs ys r h room =
    let z : ltb 0 (r.length - size) ≡ true = ground arith in
    let f : leb max_free_pages (length (xs ++ r ∷ ys)) ≡ false = ground arith in
    rw (
      z,
      f,
      shift_up-append xs r ys,
      set-append_suc xs (r ∷ r ∷ ys) (rest_of size r),
      set-append xs (r ∷ rest_of size r ∷ ys) (owned size r),
    )

claim_full :
    (size k : ℕ) (r : Region) (m : List Region)
    → size < r.length
    → max_free_pages ≤ length m
    → claim size k r m ≡ (0, m)
unfolding claim
claim_full size k r m h full =
    let z : ltb 0 (r.length - size) ≡ true = ground arith in
    let f : leb max_free_pages (length m) ≡ true = ground arith in rw (z, f)

claim-Outcome :
    (size k : ℕ) (m : List Region) (r : Region)
    → Best size m k r
    → Outcome size m (claim size k r m)
claim-Outcome size k m r b = elim (Bool-cases (ltb size r.length)) [
  | inr n ↦
      let same : r.length ≡ size = ground (arith, usable-le size r b.fits) in
      whole k r b same (rw (b.index, b.splits) (claim_whole size b.before b.behind r same))
  | inl t ↦ elim (Bool-cases (leb max_free_pages (length m))) [
    | inl f ↦
        table_full k r b (ground arith) (ground arith)
          (claim_full size k r m (ground arith) (ground arith))
    | inr n ↦ part k r b (ground arith) (ground arith) (
        rw (b.index, b.splits)
          (claim_part size b.before b.behind r (ground arith) (rw (← b.splits) (ground arith))))
  ]
]

-- `allocate` fails, with the map unchanged, if no region is usable or if the best fit would have to
-- be split in a full table; else the best fit becomes the answer, whole or split.
pub allocate-Outcome : (size : ℕ) (m : List Region) → Outcome size m (allocate size m)
unfolding allocate
allocate-Outcome size m = elim (best_fit-Best size m) [
  | inl (e, h) ↦ rw (e, allocate) (no_region h refl)
  | inr (k, r, e, b) ↦ rw (e, allocate) (claim-Outcome size k m r b)
]
