-- ===== src/Pmm/Regions/Pages.antt =====
-- Requests for whole pages to `allocate` of kernel/pmm.c.
use my_kernel.Common.{
  ℕ, ◌+◌, ◌%◌, ◌^◌, ◌≤◌, ◌<◌, ◌≡◌, ◌≢◌, ◌⊎◌, inl, inr, true, List, [], ◌∷◌, ◌++◌, arith,
}
use my_kernel.Pmm.Regions.{Region, usable, owned, rest_of, allocate}
use my_kernel.Pmm.Regions.Order.{OrderedFrom, free_to_take}
use my_kernel.Pmm.Regions.Allocate.{
  Outcome, no_region, table_full, whole, part, usable-le, allocate-Outcome,
}
use my_kernel.Pmm.Regions.Ownership.{Claims, whole-Claims, part-Claims}

-- The regions that `allocate` may take begin at a page and end below 4 GiB.
abbrev pub PageRegions : List Region → Type 0
PageRegions [] = Unit {0}
PageRegions (r ∷ m) =
    (free_to_take r ≡ true → (r.base % 4096 ≡ 0) × (r.base + r.length ≤ 2 ^ 32)) × PageRegions m

-- The call gave out one page, at a page boundary below 4 GiB.
pub record PageClaim (m : List Region) (out : ℕ × List Region) : Type 0 where
  pub claims : Claims 4096 m out out.0
  pub nonzero : out.0 ≢ 0
  pub aligned : out.0 % 4096 ≡ 0
  pub low : out.0 + 4096 ≤ 2 ^ 32
  pub regions : PageRegions out.1

usable-free : (size : ℕ) (r : Region) → usable size r ≡ true → free_to_take r ≡ true
unfolding usable
usable-free size r h = ground arith

PageRegions-at :
    (xs ys : List Region) (r : Region)
    → PageRegions (xs ++ r ∷ ys)
    → free_to_take r ≡ true
    → (r.base % 4096 ≡ 0) × (r.base + r.length ≤ 2 ^ 32)
PageRegions-at [] ys r h f = h.0 f
PageRegions-at (x ∷ xs) ys r h f = PageRegions-at xs ys r h.1 f

PageRegions-whole :
    (xs ys : List Region) (r : Region)
    → PageRegions (xs ++ r ∷ ys)
    → PageRegions (xs ++ owned 4096 r ∷ ys)
PageRegions-whole [] ys r h = (λ e. cc, h.1)
PageRegions-whole (x ∷ xs) ys r h = (h.0, PageRegions-whole xs ys r h.1)

PageRegions-part :
    (xs ys : List Region) (r : Region)
    → PageRegions (xs ++ r ∷ ys)
    → free_to_take r ≡ true
    → 4096 < r.length
    → PageRegions (xs ++ owned 4096 r ∷ rest_of 4096 r ∷ ys)
PageRegions-part [] ys r h f l =
    let (a, b) = h.0 f in (λ e. cc, (λ e. (omega arith, omega arith), h.1))
PageRegions-part (x ∷ xs) ys r h f l = (h.0, PageRegions-part xs ys r h.1 f l)

module _ (xs ys : List Region) (r : Region) (o : OrderedFrom 0 (xs ++ r ∷ ys))
    (p : PageRegions (xs ++ r ∷ ys)) (u : usable 4096 r ≡ true) where
  bounds : (r.base % 2 ^ 32 ≡ r.base) × (r.base % 4096 ≡ 0) × (r.base + 4096 ≤ 2 ^ 32)
  bounds =
      let (a, b) = PageRegions-at xs ys r p (usable-free 4096 r u) in
      let pos : 4096 ≤ r.length = usable-le 4096 r u in (omega arith, a, omega arith)

  whole-PageClaim :
      r.length ≡ 4096 → PageClaim (xs ++ r ∷ ys) (r.base % 2 ^ 32, xs ++ owned 4096 r ∷ ys)
  whole-PageClaim e =
      let (same, a, b) = bounds in
      let c = whole-Claims 4096 xs ys r (omega arith) o u e in
      rw same (record {
        claims = rw same at c;
        nonzero = c.nonzero;
        aligned = a;
        low = b;
        regions = PageRegions-whole xs ys r p;
      })

  part-PageClaim :
      4096 < r.length
      → PageClaim (xs ++ r ∷ ys) (r.base % 2 ^ 32, xs ++ owned 4096 r ∷ rest_of 4096 r ∷ ys)
  part-PageClaim l =
      let (same, a, b) = bounds in
      let c = part-Claims 4096 xs ys r (omega arith) o u l in
      rw same (record {
        claims = rw same at c;
        nonzero = c.nonzero;
        aligned = a;
        low = b;
        regions = PageRegions-part xs ys r p (usable-free 4096 r u) l;
      })

Outcome-PageClaim :
    (m : List Region) (out : ℕ × List Region)
    → OrderedFrom 0 m
    → PageRegions m
    → Outcome 4096 m out
    → (out ≡ (0, m)) ⊎ PageClaim m out
Outcome-PageClaim m out o p (no_region h e) = inl e
Outcome-PageClaim m out o p (table_full k r b h f e) = inl e
Outcome-PageClaim m out o p (whole k r b h e) = inr (
    rw (e, b.splits)
      (whole-PageClaim b.before b.behind r (rw b.splits at o) (rw b.splits at p) b.fits h))
Outcome-PageClaim m out o p (part k r b h f e) = inr (
    rw (e, b.splits)
      (part-PageClaim b.before b.behind r (rw b.splits at o) (rw b.splits at p) b.fits h))

-- A request for a page either fails and changes nothing, or gives out a page of free memory.
pub allocate-PageClaim :
    (m : List Region)
    → OrderedFrom 0 m
    → PageRegions m
    → (allocate 4096 m ≡ (0, m)) ⊎ PageClaim m (allocate 4096 m)
allocate-PageClaim m o p = Outcome-PageClaim m _ o p (allocate-Outcome 4096 m)
