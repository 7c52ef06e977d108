-- ===== src/Pmm/Regions/Free.antt =====
-- `free` of kernel/pmm.c: which region an address names, and what the call changes.
use my_kernel.Common.{
  ℕ, suc, ◌+◌, ◌≡◌, ◌≢◌, refl, ap, ◌∙◌, ◌⊎◌, inl, inr, none, some, List, [], ◌∷◌, ◌++◌, arith, ◌==◌,
  if◌then◌else◌, length, set, get_elem?-append, set-append, Bool-cases,
}
use my_kernel.Pmm.Regions.{Region, find_base, merge_previous, merge_next, free}
use my_kernel.Pmm.Regions.Order.{
  OrderedFrom, type_at, inside, ordered_split, ordered_join, type_at_behind, type_at_same,
}
use my_kernel.Pmm.Regions.Merge.{SameUse, FreeAt, merge_previous-SameUse, merge_next-SameUse}

abbrev pub NoBase : ℕ → List Region → Type 0
NoBase addr [] = Unit {0}
NoBase addr (r ∷ rs) = (r.base ≢ addr) × NoBase addr rs

-- `r`, at index `k`, is the first region that begins at the address.
pub record Found (addr k : ℕ) (m : List Region) (j : ℕ) (r : Region) : Type 0 where
  pub before : List Region
  pub behind : List Region
  pub splits : m ≡ before ++ r ∷ behind
  pub index : j ≡ k + length before
  pub base : r.base ≡ addr
  pub first : NoBase addr before

find_base-cases :
    (addr k : ℕ) (m : List Region)
    → ((find_base addr k m ≡ none) × NoBase addr m)
      ⊎ ((j : ℕ) × (r : Region) × (find_base addr k m ≡ some (j, r)) × Found addr k m j r)
unfolding find_base
find_base-cases addr k [] = inl (refl, tt)
find_base-cases addr k (x ∷ m) = elim (Bool-cases (x.base == addr)) [
  | inl y ↦ inr (
    k,
    x,
    rw y,
    record {
      before = [];
      behind = m;
      splits = refl;
      index = omega arith;
      base = ground arith;
      first = tt;
    },
  )
  | inr n ↦ elim (find_base-cases addr (suc k) m) [
    | inl (e, h) ↦ inl (rw (n, e), (ground arith, h))
    | inr (j, r, e, f) ↦ inr (
      j,
      r,
      rw (n, e),
      record {
        before = x ∷ f.before;
        behind = f.behind;
        splits = ap (λ l. x ∷ l) f.splits;
        index = omega (arith, f.index);
        base = f.base;
        first = (ground arith, f.first);
      },
    )
  ]
]

abbrev pub released : Region → Region
released r = record r { type = 1 }

-- The call freed the region `r` of the map, which begins at the address, and changed the use of
-- no other address.
pub record Releases (addr : ℕ) (m out : List Region) (r : Region) : Type 0 where
  pub base : r.base ≡ addr
  pub before : List Region
  pub behind : List Region
  pub splits : m ≡ before ++ r ∷ behind
  pub ordered : OrderedFrom 0 out
  pub use_of : (a : ℕ) → type_at out a ≡ (if inside r a then some 1 else type_at m a)

set_free-ordered :
    (xs ys : List Region) (r : Region)
    → OrderedFrom 0 (xs ++ r ∷ ys)
    → OrderedFrom 0 (xs ++ released r ∷ ys)
set_free-ordered xs ys r o =
    let (h, k) = ordered_split 0 xs (r ∷ ys) o in ordered_join 0 xs (released r ∷ ys) h k

set_free-use_of :
    (xs ys : List Region) (r : Region) (a : ℕ)
    → OrderedFrom 0 (xs ++ r ∷ ys)
    → type_at (xs ++ released r ∷ ys) a ≡ (if inside r a then some 1 else type_at (xs ++ r ∷ ys) a)
set_free-use_of xs ys r a o = elim (Bool-cases (inside r a)) [
  | inl y ↦
      let (h, k) = ordered_split 0 xs (r ∷ ys) o in
      rw y (ground (arith, type_at_behind 0 xs (released r ∷ ys) a h))
  | inr n ↦ rw n (type_at_same xs (released r ∷ ys) (r ∷ ys) a (rw n))
]

merges-SameUse :
    (k : ℕ) (m : List Region)
    → OrderedFrom 0 m
    → FreeAt m k
    → SameUse m (merge_next (merge_previous k m).0 (merge_previous k m).1)
merges-SameUse k m o f =
    let (s, g) = merge_previous-SameUse k m o f in
    let t = merge_next-SameUse (merge_previous k m).0 (merge_previous k m).1 s.ordered g in
    record { ordered = t.ordered; same = λ a. t.same a ∙ s.same a }

-- On an ordered map `free` changes nothing if no region begins at the address. Otherwise it frees
-- the addresses of the region that begins there and no other, and the map stays ordered.
pub free-Releases :
    (addr : ℕ) (m : List Region)
    → OrderedFrom 0 m
    → ((free addr m ≡ m) × NoBase addr m) ⊎ ((r : Region) × Releases addr m (free addr m) r)
unfolding free
free-Releases addr m o = elim (find_base-cases addr 0 m) [
  | inl (e, h) ↦ inl (rw (e, free), h)
  | inr (j, r, e, f) ↦
      let at_before : j ≡ length f.before = omega (arith, f.index) in
      let o' : OrderedFrom 0 (f.before ++ r ∷ f.behind) = rw f.splits at o in
      let done : set m j (released r) ≡ f.before ++ released r ∷ f.behind =
        rw (at_before, f.splits) (set-append f.before (r ∷ f.behind) (released r)) in
      let free_at : FreeAt (f.before ++ released r ∷ f.behind) j =
        (released r, rw at_before (get_elem?-append f.before (released r ∷ f.behind)), refl) in
      let s =
        merges-SameUse j (f.before ++ released r ∷ f.behind)
          (set_free-ordered f.before f.behind r o') free_at in
      inr (
        r,
        record {
          base = f.base;
          before = f.before;
          behind = f.behind;
          splits = f.splits;
          ordered = rw (e, free, done) s.ordered;
          use_of = λ a.
              rw (e, free, done)
                (s.same a ∙ rw f.splits (set_free-use_of f.before f.behind r a o'));
        },
      )
]
