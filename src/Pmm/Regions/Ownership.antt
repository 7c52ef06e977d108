-- ===== src/Pmm/Regions/Ownership.antt =====
-- `allocate` of kernel/pmm.c as a change of the use of addresses: it keeps the map ordered, hands
-- out free memory only, and no two calls hand out the same address.
use my_kernel.Common.{
  ◌==◌, true, false, ℕ, ◌+◌, ◌%◌, ◌^◌, ◌≤◌, ◌<◌, ◌≡◌, ◌≢◌, refl, ◌∙◌, ◌⊎◌, inl, inr, true, some,
  List, ◌∷◌, ◌++◌, arith,
}
use my_kernel.Pmm.Regions.{Region, usable, owned, rest_of, allocate}
use my_kernel.Pmm.Regions.Allocate.{
  Outcome, no_region, table_full, whole, part, usable-le, allocate-Outcome,
}
use my_kernel.Pmm.Regions.Order.{
  OrderedFrom, end_of, type_at, ordered_split, ordered_join, ordered_weaken, type_at_behind,
  takeable_at, free_to_take, value_at_behind, value_at_same, type_at_same,
}

-- The call took the `size` addresses from `b` on, which were free, and changed no other address.
pub record Claims (size : ℕ) (m : List Region) (out : ℕ × List Region) (b : ℕ) : Type 0 where
  pub address : out.0 ≡ b % 2 ^ 32
  pub nonzero : b ≢ 0
  pub ordered : OrderedFrom 0 out.1
  pub fresh : (a : ℕ) → b ≤ a → a < b + size → type_at m a ≡ some 1
  pub taken : (a : ℕ) → b ≤ a → a < b + size → type_at out.1 a ≡ some 2
  pub takeable : (a : ℕ) → b ≤ a → a < b + size → takeable_at m a ≡ some true
  pub gone : (a : ℕ) → b ≤ a → a < b + size → takeable_at out.1 a ≡ some false
  pub others : (a : ℕ) → (a < b) ⊎ (b + size ≤ a) → type_at out.1 a ≡ type_at m a
  pub others_takeable : (a : ℕ) → (a < b) ⊎ (b + size ≤ a) → takeable_at out.1 a ≡ takeable_at m a

pub usable-type : (size : ℕ) (r : Region) → usable size r ≡ true → (r.type ≡ 1) × (r.base ≢ 0)
unfolding usable
usable-type size r h = (ground arith, ground arith)

module _ (size : ℕ) (xs ys : List Region) (r : Region) (pos : 0 < size)
    (o : OrderedFrom 0 (xs ++ r ∷ ys)) (u : usable size r ≡ true) where
  front : OrderedFrom 0 xs × OrderedFrom (end_of 0 xs) (r ∷ ys)
  front = ordered_split 0 xs (r ∷ ys) o

  fresh_lem : (a : ℕ) → r.base ≤ a → a < r.base + size → type_at (xs ++ r ∷ ys) a ≡ some 1
  fresh_lem a lo hi = ground (
    arith,
    front,
    usable-le size r u,
    usable-type size r u,
    type_at_behind 0 xs (r ∷ ys) a front.0,
  )

  -- The table that replaces the entry by one that begins with the owned part.
  taken_lem :
      (zs : List Region) (a : ℕ)
      → r.base ≤ a
      → a < r.base + size
      → type_at (xs ++ owned size r ∷ zs) a ≡ some 2
  taken_lem zs a lo hi = ground (arith, front, type_at_behind 0 xs (owned size r ∷ zs) a front.0)

  takeable_lem : (a : ℕ) → r.base ≤ a → a < r.base + size → takeable_at (xs ++ r ∷ ys) a ≡ some true
  takeable_lem a lo hi =
      let (t, n) = usable-type size r u in
      let z : (r.base == 0) ≡ false = ground arith in
      ground
        (arith, front, usable-le size r u, z, value_at_behind free_to_take 0 xs (r ∷ ys) a front.0)

  gone_lem :
      (zs : List Region) (a : ℕ)
      → r.base ≤ a
      → a < r.base + size
      → takeable_at (xs ++ owned size r ∷ zs) a ≡ some false
  gone_lem zs a lo hi =
      ground (arith, front, value_at_behind free_to_take 0 xs (owned size r ∷ zs) a front.0)

  pub whole-Claims :
      r.length ≡ size → Claims size (xs ++ r ∷ ys) (r.base % 2 ^ 32, xs ++ owned size r ∷ ys) r.base
  whole-Claims e = record {
    address = refl;
    nonzero = (usable-type size r u).1;
    ordered =
        let h = front.1 in
        ordered_join 0 xs (owned size r ∷ ys) front.0
          (h.0, pos, omega arith, ordered_weaken (r.base + r.length) _ ys (omega arith) h.3);
    fresh = fresh_lem;
    taken = taken_lem ys;
    takeable = takeable_lem;
    gone = gone_lem ys;
    others = λ a out. type_at_same xs (owned size r ∷ ys) (r ∷ ys) a (ground arith);
    others_takeable =
        λ a out. value_at_same free_to_take xs (owned size r ∷ ys) (r ∷ ys) a (ground arith);
  }

  pub part-Claims :
      size < r.length
      → Claims size
          (xs ++ r ∷ ys)
          (r.base % 2 ^ 32, xs ++ owned size r ∷ rest_of size r ∷ ys)
          r.base
  part-Claims l = record {
    address = refl;
    nonzero = (usable-type size r u).1;
    ordered =
        let h = front.1 in
        ordered_join 0 xs (owned size r ∷ rest_of size r ∷ ys) front.0 (
          h.0,
          pos,
          omega arith,
          (
            omega arith,
            omega arith,
            omega arith,
            ordered_weaken (r.base + r.length) _ ys (omega arith) h.3,
          ),
        );
    fresh = fresh_lem;
    taken = taken_lem (rest_of size r ∷ ys);
    takeable = takeable_lem;
    gone = gone_lem (rest_of size r ∷ ys);
    others = λ a out.
        type_at_same xs (owned size r ∷ rest_of size r ∷ ys) (r ∷ ys) a
          (ground (arith, front.1, usable-type size r u));
    others_takeable = λ a out.
        value_at_same free_to_take xs (owned size r ∷ rest_of size r ∷ ys) (r ∷ ys) a
          (ground (arith, front.1, usable-type size r u));
  }

Outcome-Claims :
    (size : ℕ) (m : List Region) (out : ℕ × List Region)
    → 0 < size
    → OrderedFrom 0 m
    → Outcome size m out
    → (out ≡ (0, m)) ⊎ ((b : ℕ) × Claims size m out b)
Outcome-Claims size m out pos o (no_region h e) = inl e
Outcome-Claims size m out pos o (table_full k r b h f e) = inl e
Outcome-Claims size m out pos o (whole k r b h e) = inr (
  r.base,
  rw (e, b.splits) (whole-Claims size b.before b.behind r pos (rw (← b.splits) o) b.fits h),
)
Outcome-Claims size m out pos o (part k r b h f e) = inr (
  r.base,
  rw (e, b.splits) (part-Claims size b.before b.behind r pos (rw (← b.splits) o) b.fits h),
)

allocate-at :
    (size : ℕ) (m : List Region)
    → 0 < size
    → OrderedFrom 0 m
    → (allocate size m ≡ (0, m)) ⊎ ((b : ℕ) × Claims size m (allocate size m) b)
allocate-at size m pos o = Outcome-Claims size m _ pos o (allocate-Outcome size m)

Claims-at :
    (size : ℕ) (m : List Region) (out : ℕ × List Region) (b c : ℕ)
    → c ≡ b
    → Claims size m out b
    → Claims size m out c
Claims-at size m out b c e k = rw e k

-- Every free address has 32 bits.
abbrev pub FreeBelow : List Region → Type 0
FreeBelow m = (a : ℕ) → type_at m a ≡ some 1 → a < 2 ^ 32

-- On an ordered map whose free memory lies below 4 GiB, a request for at least one byte either fails,
-- with the map unchanged, or returns an address other than 0 from which on that many bytes were free,
-- marks exactly these as used and leaves an ordered map.
pub allocate-Claims :
    (size : ℕ) (m : List Region)
    → 0 < size
    → OrderedFrom 0 m
    → FreeBelow m
    → (allocate size m ≡ (0, m)) ⊎ Claims size m (allocate size m) (allocate size m).0
allocate-Claims size m pos o below = elim (allocate-at size m pos o) [
  | inl e ↦ inl e
  | inr (b, c) ↦
      let low = below b (c.fresh b (omega arith) (omega arith)) in
      let same : (allocate size m).0 ≡ b = c.address ∙ omega arith in
      inr (Claims-at size m _ b _ same c)
]

-- Memory that one call hands out is not handed out by the next.
pub allocate-disjoint :
    (s t : ℕ) (m : List Region) (b c : ℕ)
    → 0 < s
    → 0 < t
    → Claims s m (allocate s m) b
    → Claims t (allocate s m).1 (allocate t (allocate s m).1) c
    → (b + s ≤ c) ⊎ (c + t ≤ b)
allocate-disjoint s t m b c ps pt p q = ground (arith, p.taken b, p.taken c, q.fresh b, q.fresh c)
