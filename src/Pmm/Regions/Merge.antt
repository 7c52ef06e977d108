-- ===== src/Pmm/Regions/Merge.antt =====
-- The two merges of `free` in kernel/pmm.c: joining free neighbours changes the use of no address.
use my_kernel.Common.{
  ℕ, zero, suc, ◌+◌, ◌%◌, ◌^◌, ◌≡◌, refl, ap, inl, inr, true, ◌&&◌, some, List, [], ◌∷◌, ◌++◌,
  arith, ◌==◌, length, get_elem?, get_elem?-append, set-append, Bool-cases, Option-cases,
}
use my_kernel.Pmm.Regions.{Region, meets, absorb, merge_previous, merge_next}
use my_kernel.Pmm.Regions.Order.{
  OrderedFrom, type_at, ordered_split, ordered_join, type_at_same, shift_down-append,
}

abbrev pub joined : Region → Region → Region
joined p q = record p { length = (p.length + q.length) % 2 ^ 64 }

pub absorb-append :
    (xs ys : List Region) (p q : Region)
    → absorb (length xs) p q (xs ++ p ∷ q ∷ ys) ≡ xs ++ joined p q ∷ ys
unfolding absorb
absorb-append xs ys p q =
    rw (set-append xs (p ∷ q ∷ ys) (joined p q), shift_down-append xs (joined p q) q ys)

-- Two neighbouring entries split the table.
pub neighbours :
    (m : List Region) (j : ℕ) (p q : Region)
    → get_elem? m j ≡ some p
    → get_elem? m (suc j) ≡ some q
    → (xs : List Region) × (ys : List Region) × (m ≡ xs ++ p ∷ q ∷ ys) × (j ≡ length xs)
neighbours [] j p q e f = cc
neighbours (x ∷ []) zero p q e f = cc
neighbours (x ∷ y ∷ m) zero p q e f = ([], m, ground arith, refl)
neighbours (x ∷ m) (suc j) p q e f =
    let (xs, ys, s, i) = neighbours m j p q e f in (x ∷ xs, ys, ap (λ l. x ∷ l) s, ap suc i)

-- Both maps are ordered and give every address the same use.
pub record SameUse (m m' : List Region) : Type 0 where
  pub ordered : OrderedFrom 0 m'
  pub same : (a : ℕ) → type_at m' a ≡ type_at m a

join-SameUse :
    (xs ys : List Region) (p q : Region)
    → OrderedFrom 0 (xs ++ p ∷ q ∷ ys)
    → p.type ≡ q.type
    → meets p q ≡ true
    → SameUse (xs ++ p ∷ q ∷ ys) (xs ++ joined p q ∷ ys)
unfolding meets
join-SameUse xs ys p q o t e =
    let (h, k) = ordered_split 0 xs (p ∷ q ∷ ys) o in
    let touch : p.base + p.length ≡ q.base = ground arith in
    let long : (p.length + q.length) % 2 ^ 64 ≡ p.length + q.length = omega arith in
    let end : q.base + q.length ≡ p.base + (p.length + q.length) % 2 ^ 64 = omega arith in
    record {
      ordered =
          ordered_join 0 xs (joined p q ∷ ys) h (k.0, omega arith, omega arith, rw end at k.3.3);
      same = λ a. type_at_same xs (joined p q ∷ ys) (p ∷ q ∷ ys) a (ground arith);
    }

absorb-SameUse :
    (j : ℕ) (m : List Region) (p q : Region)
    → OrderedFrom 0 m
    → get_elem? m j ≡ some p
    → get_elem? m (suc j) ≡ some q
    → p.type ≡ q.type
    → meets p q ≡ true
    → SameUse m (absorb j p q m) × (get_elem? (absorb j p q m) j ≡ some (joined p q))
absorb-SameUse j m p q o e f t h =
    let (xs, ys, s, i) = neighbours m j p q e f in
    rw (i, s, absorb-append xs ys p q)
      (join-SameUse xs ys p q (rw s at o) t h, get_elem?-append xs (joined p q ∷ ys))

-- The entry at the index is free.
abbrev pub FreeAt : List Region → ℕ → Type 0
FreeAt m k = (r : Region) × (get_elem? m k ≡ some r) × (r.type ≡ 1)

pub merge_previous-SameUse :
    (k : ℕ) (m : List Region)
    → OrderedFrom 0 m
    → FreeAt m k
    → SameUse m (merge_previous k m).1 × FreeAt (merge_previous k m).1 (merge_previous k m).0
unfolding merge_previous
merge_previous-SameUse zero m o f = (record { ordered = o; same = λ a. refl }, f)
merge_previous-SameUse (suc j) m o (r, e, t) = elim (Option-cases (get_elem? m j)) [
  | inl n ↦ rw (n, merge_previous) (record { ordered = o; same = λ a. refl }, (r, e, t))
  | inr (p, h) ↦ elim (Bool-cases (p.type == 1 && meets p r)) [
    | inl y ↦
        let (s, g) = absorb-SameUse j m p r o h e (ground arith) (ground arith) in
        rw (h, e, y, merge_previous) (s, (joined p r, g, ground arith))
    | inr n ↦ rw (h, e, n, merge_previous) (record { ordered = o; same = λ a. refl }, (r, e, t))
  ]
]

pub merge_next-SameUse :
    (k : ℕ) (m : List Region) → OrderedFrom 0 m → FreeAt m k → SameUse m (merge_next k m)
unfolding merge_next
merge_next-SameUse k m o (p, e, t) = elim (Option-cases (get_elem? m (suc k))) [
  | inl n ↦ rw (e, n, merge_next) (record { ordered = o; same = λ a. refl })
  | inr (q, h) ↦ elim (Bool-cases (q.type == 1 && meets p q)) [
    | inl y ↦
        rw (e, h, y, merge_next) (absorb-SameUse k m p q o e h (ground arith) (ground arith)).0
    | inr n ↦ rw (e, h, n, merge_next) (record { ordered = o; same = λ a. refl })
  ]
]
