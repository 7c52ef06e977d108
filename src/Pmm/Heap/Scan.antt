-- ===== src/Pmm/Heap/Scan.antt =====
-- The loop of `kmalloc` in kernel/pmm.c: with enough fuel it ends at the first of the smallest
-- blocks that fit.
use my_kernel.Common.{
  ℕ, zero, suc, ◌≤◌, ◌<◌, ◌≡◌, ◌≢◌, refl, ap, inl, inr, true, false, ◌&&◌, ◌||◌, List, [], ◌∷◌,
  ◌++◌, arith, ltb, ◌==◌, length, Bool-cases,
}
use my_kernel.Pmm.Heap.{Block, ok, fits, best_block}
use my_kernel.Pmm.Heap.Chain.{Chain}

-- No block of the list that fits is smaller than `n`.
abbrev pub AtLeast : (ℕ → Block) → ℕ → ℕ → List ℕ → Type 0
AtLeast block size n [] = Unit {0}
AtLeast block size n (x ∷ xs) =
    (fits size (block x) ≡ true → n ≤ (block x).size) × AtLeast block size n xs

abbrev pub NoneFits : (ℕ → Block) → ℕ → List ℕ → Type 0
NoneFits block size [] = Unit {0}
NoneFits block size (x ∷ xs) = (fits size (block x) ≡ false) × NoneFits block size xs

-- `a` fits, every fitting block before it is larger and none behind it is smaller.
pub record BestBlock (block : ℕ → Block) (size : ℕ) (xs : List ℕ) (a : ℕ) : Type 0 where
  pub before : List ℕ
  pub behind : List ℕ
  pub splits : xs ≡ before ++ a ∷ behind
  pub nonnull : a ≢ 0
  pub fitting : fits size (block a) ≡ true
  pub larger : AtLeast block size (suc (block a).size) before
  pub smallest : AtLeast block size (block a).size behind

-- What the loop gives when it starts with `best`.
pub data Scanned (block : ℕ → Block) (size best : ℕ) (xs : List ℕ) (out : ℕ) : Type 0 where
  kept :
      out ≡ best
      → (best ≡ 0 → NoneFits block size xs)
      → (best ≢ 0 → AtLeast block size (block best).size xs)
      → Scanned block size best xs out
  found :
      BestBlock block size xs out
      → (best ≢ 0 → (block out).size < (block best).size)
      → Scanned block size best xs out

Scanned-take :
    (block : ℕ → Block) (size best x : ℕ) (xs : List ℕ) (out : ℕ)
    → x ≢ 0
    → fits size (block x) ≡ true
    → (best ≢ 0 → (block x).size < (block best).size)
    → Scanned block size x xs out
    → Scanned block size best (x ∷ xs) out
Scanned-take block size best x xs out nz f l (kept e n a) =
    found
      (record {
        before = [];
        behind = xs;
        splits = rw e;
        nonnull = rw e nz;
        fitting = rw e f;
        larger = tt;
        smallest = rw e (a nz);
      })
      (λ h. rw e (l h))
Scanned-take block size best x xs out nz f l (found b s) =
    let less = s nz in
    found
      (record {
        before = x ∷ b.before;
        behind = b.behind;
        splits = ap (λ t. x ∷ t) b.splits;
        nonnull = b.nonnull;
        fitting = b.fitting;
        larger = (λ h. less, b.larger);
        smallest = b.smallest;
      })
      (λ h. let k = l h in omega arith)

Scanned-skip :
    (block : ℕ → Block) (size best x : ℕ) (xs : List ℕ) (out : ℕ)
    → (best ≡ 0 → fits size (block x) ≡ false)
    → (best ≢ 0 → fits size (block x) ≡ true → (block best).size ≤ (block x).size)
    → Scanned block size best xs out
    → Scanned block size best (x ∷ xs) out
Scanned-skip block size best x xs out n l (kept e m a) = kept e (λ h. (n h, m h)) (λ h. (l h, a h))
Scanned-skip block size best x xs out n l (found b s) =
    found
      (record {
        before = x ∷ b.before;
        behind = b.behind;
        splits = ap (λ t. x ∷ t) b.splits;
        nonnull = b.nonnull;
        fitting = b.fitting;
        larger = (
          λ h. elim (Bool-cases (best == 0)) [
            | inl z ↦ cc (n (ground arith))
            | inr z ↦
                let ne : best ≢ 0 = ground arith in let p = s ne in let q = l ne h in omega arith
          ],
          b.larger,
        );
        smallest = b.smallest;
      })
      s

-- The loop over a chain that ends at `NULL`, with fuel for every block and the end.
pub best_block-Scanned :
    (fuel size best : ℕ) (block : ℕ → Block) (p : ℕ) (xs : List ℕ)
    → Chain block 0 p xs
    → length xs < fuel
    → (out : ℕ) × (best_block fuel size p best block ≡ ok out) × Scanned block size best xs out
unfolding best_block
best_block-Scanned zero size best block p xs c h = absurd (omega arith)
best_block-Scanned (suc fuel) size best block p [] c h =
    let z : (p == 0) ≡ true = ground arith in (best, rw z, kept refl (λ e. tt) (λ e. tt))
best_block-Scanned (suc fuel) size best block p (x ∷ xs) (e, nz, c) h =
    let z : (p == 0) ≡ false = ground arith in
    elim (Bool-cases (fits size (block x) && (best == 0 || ltb (block x).size (block best).size))) [
      | inl y ↦
          let (out, q, s) =
            best_block-Scanned fuel size x block (block x).next xs c (omega arith) in
          (
            out,
            rw (z, e, y) q,
            Scanned-take block size best x xs out nz (ground arith) (λ k. ground arith) s,
          )
      | inr n ↦
          let (out, q, s) =
            best_block-Scanned fuel size best block (block x).next xs c (omega arith) in
          (
            out,
            rw (z, e, n) q,
            Scanned-skip block size best x xs out (λ k. ground arith) (λ k f. ground arith) s,
          )
    ]
