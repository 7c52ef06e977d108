-- ===== src/Pmm/Regions/RoundTrip.antt =====
-- `free` of kernel/pmm.c undoes `allocate`.
use my_kernel.Common.{
  ℕ, zero, suc, ◌+◌, ◌%◌, ◌^◌, ◌≤◌, ◌<◌, ◌≡◌, ◌≢◌, refl, ap, ◌∙◌, inl, inr, Bool, true, false, ◌&&◌,
  some, List, [], ◌∷◌, ◌++◌, arith, ◌==◌, length, get_elem?, get_elem?-append, get_elem?-append_suc,
  set-append, Option-cases,
}
use my_kernel.Pmm.Regions.{
  Region, usable, meets, owned, rest_of, allocate, find_base, merge_previous, merge_next, free,
}
use my_kernel.Pmm.Regions.Order.{OrderedFrom, end_of, ordered_split, lo-le-end_of}
use my_kernel.Pmm.Regions.Allocate.{Outcome, no_region, table_full, whole, part, allocate-Outcome}
use my_kernel.Pmm.Regions.Ownership.{usable-type}
use my_kernel.Pmm.Regions.Merge.{joined, absorb-append}
use my_kernel.Pmm.Regions.Free.{NoBase, released}

-- Both are free and `p` ends where `q` begins.
abbrev pub free_pair : Region → Region → Bool
free_pair p q = p.type == 1 && (q.type == 1 && p.base + p.length == q.base)

-- No two free neighbours could be one region.
abbrev pub Coalesced : List Region → Type 0
Coalesced [] = Unit {0}
Coalesced (p ∷ []) = Unit {0}
Coalesced (p ∷ q ∷ m) = (free_pair p q ≡ false) × Coalesced (q ∷ m)

-- Every region begins below 4 GiB.
abbrev pub Low : List Region → Type 0
Low [] = Unit {0}
Low (r ∷ m) = (r.base < 2 ^ 32) × Low m

Low-at : (xs ys : List Region) (r : Region) → Low (xs ++ r ∷ ys) → r.base < 2 ^ 32
Low-at [] ys r h = h.0
Low-at (x ∷ xs) ys r h = Low-at xs ys r h.1

Coalesced-at :
    (m : List Region) (j : ℕ) (p q : Region)
    → Coalesced m
    → get_elem? m j ≡ some p
    → get_elem? m (suc j) ≡ some q
    → free_pair p q ≡ false
Coalesced-at [] j p q c e f = cc
Coalesced-at (x ∷ []) zero p q c e f = cc
Coalesced-at (x ∷ []) (suc j) p q c e f = cc
Coalesced-at (x ∷ y ∷ m) zero p q c e f = ground arith
Coalesced-at (x ∷ y ∷ m) (suc j) p q c e f = Coalesced-at (y ∷ m) j p q c.1 e f

get_elem?-front :
    (xs ys zs : List Region) (j : ℕ)
    → j < length xs
    → get_elem? (xs ++ ys) j ≡ get_elem? (xs ++ zs) j
get_elem?-front [] ys zs j h = elim h [ ]
get_elem?-front (x ∷ xs) ys zs zero h = refl
get_elem?-front (x ∷ xs) ys zs (suc j) h = get_elem?-front xs ys zs j (omega arith)

ordered_at :
    (lo j : ℕ) (m : List Region) (p : Region)
    → OrderedFrom lo m
    → get_elem? m j ≡ some p
    → p.base + p.length < 2 ^ 64
ordered_at lo j [] p o e = cc
ordered_at lo zero (x ∷ m) p o e = ground arith
ordered_at lo (suc j) (x ∷ m) p o e = ordered_at (x.base + x.length) j m p o.3 e

NoBase-front :
    (lo addr : ℕ) (xs : List Region) → OrderedFrom lo xs → end_of lo xs ≤ addr → NoBase addr xs
NoBase-front lo addr [] o h = tt
NoBase-front lo addr (x ∷ xs) o h = (
  omega (arith, lo-le-end_of (x.base + x.length) xs o.3),
  NoBase-front (x.base + x.length) addr xs o.3 h,
)

find_base-append :
    (addr k : ℕ) (xs ys : List Region) (r : Region)
    → NoBase addr xs
    → r.base ≡ addr
    → find_base addr k (xs ++ r ∷ ys) ≡ some (k + length xs, r)
unfolding find_base
find_base-append addr k [] ys r n e = ground arith
find_base-append addr k (x ∷ xs) ys r n e =
    ground (arith, find_base-append addr (suc k) xs ys r n.1 e)

-- The entry `r`, or one of the same type and base, joins none before it.
no_previous :
    (k : ℕ) (xs ys zs : List Region) (q r : Region)
    → k ≡ length xs
    → q.base ≡ r.base
    → r.type ≡ 1
    → Coalesced (xs ++ r ∷ zs)
    → OrderedFrom 0 (xs ++ r ∷ zs)
    → merge_previous k (xs ++ q ∷ ys) ≡ (k, xs ++ q ∷ ys)
unfolding merge_previous meets
no_previous zero xs ys zs q r i b t c o = refl
no_previous (suc j) xs ys zs q r i b t c o = elim (Option-cases (get_elem? (xs ++ q ∷ ys) j)) [
  | inl n ↦ rw (n, merge_previous)
  | inr (p, e) ↦
      let e' : get_elem? (xs ++ r ∷ zs) j ≡ some p =
        get_elem?-front xs (r ∷ zs) (q ∷ ys) j (omega arith) ∙ e in
      let f' : get_elem? (xs ++ r ∷ zs) (suc j) ≡ some r = rw i (get_elem?-append xs (r ∷ zs)) in
      let f : get_elem? (xs ++ q ∷ ys) (suc j) ≡ some q = rw i (get_elem?-append xs (q ∷ ys)) in
      let no_pair = Coalesced-at (xs ++ r ∷ zs) j p r c e' f' in
      let small = ordered_at 0 j (xs ++ r ∷ zs) p o e' in
      let n : (p.type == 1 && (p.base + p.length) % 2 ^ 64 == q.base) ≡ false = ground arith in
      rw (e, f, n, merge_previous)
]

no_next :
    (xs ys : List Region) (r : Region)
    → r.type ≡ 1
    → Coalesced (xs ++ r ∷ ys)
    → OrderedFrom 0 (xs ++ r ∷ ys)
    → merge_next (length xs) (xs ++ r ∷ ys) ≡ xs ++ r ∷ ys
unfolding merge_next meets
no_next xs ys r t c o = elim (Option-cases (get_elem? (xs ++ r ∷ ys) (suc (length xs)))) [
  | inl n ↦ rw (get_elem?-append xs (r ∷ ys), n, merge_next)
  | inr (q, e) ↦
      let f = get_elem?-append xs (r ∷ ys) in
      let no_pair = Coalesced-at (xs ++ r ∷ ys) (length xs) r q c f e in
      let small = ordered_at 0 (length xs) (xs ++ r ∷ ys) r o f in
      let n : (q.type == 1 && (r.base + r.length) % 2 ^ 64 == q.base) ≡ false = ground arith in
      rw (f, e, n, merge_next)
]

joins_rest :
    (size : ℕ) (xs ys : List Region) (q : Region)
    → q.base + size < 2 ^ 64
    → merge_next (length xs) (xs ++ released (owned size q) ∷ rest_of size q ∷ ys)
      ≡ xs ++ joined (released (owned size q)) (rest_of size q) ∷ ys
unfolding merge_next meets
joins_rest size xs ys q h =
    let p = released (owned size q) in
    let n : ((rest_of size q).type == 1 && (p.base + p.length) % 2 ^ 64 == (rest_of size q).base)
        ≡ true =
      ground arith in
    rw
      (
        get_elem?-append xs (p ∷ rest_of size q ∷ ys),
        get_elem?-append_suc xs (p ∷ rest_of size q ∷ ys),
        n,
        merge_next,
      )
      (absorb-append xs ys p (rest_of size q))

module _ (size : ℕ) (xs ys : List Region) (r : Region) (pos : 0 < size)
    (o : OrderedFrom 0 (xs ++ r ∷ ys)) (c : Coalesced (xs ++ r ∷ ys)) (low : r.base < 2 ^ 32)
    (u : usable size r ≡ true) where
  at_r :
      (zs : List Region)
      → find_base (r.base % 2 ^ 32) 0 (xs ++ owned size r ∷ zs) ≡ some (length xs, owned size r)
  at_r zs =
      let (h, k) = ordered_split 0 xs (r ∷ ys) o in
      let e : r.base % 2 ^ 32 ≡ r.base = omega arith in
      let z : 0 + length xs ≡ length xs = omega arith in
      rw e (
        find_base-append r.base 0 xs zs (owned size r) (NoBase-front 0 r.base xs h k.0) refl ∙ rw z)

  merged :
      (zs : List Region)
      → free (r.base % 2 ^ 32) (xs ++ owned size r ∷ zs)
        ≡ merge_next (length xs) (xs ++ released (owned size r) ∷ zs)
  unfolding free
  merged zs = rw (
    at_r zs,
    free,
    set-append xs (owned size r ∷ zs) (released (owned size r)),
    no_previous (length xs) xs zs ys (released (owned size r)) r refl refl (usable-type size r u).0
        c o,
  )

  undo_whole : r.length ≡ size → free (r.base % 2 ^ 32) (xs ++ owned size r ∷ ys) ≡ xs ++ r ∷ ys
  undo_whole e =
      let t = (usable-type size r u).0 in
      let same : released (owned size r) ≡ r = ground arith in
      rw (merged ys, same) (no_next xs ys r t c o)

  undo_part :
      size < r.length
      → free (r.base % 2 ^ 32) (xs ++ owned size r ∷ rest_of size r ∷ ys) ≡ xs ++ r ∷ ys
  undo_part l =
      let t = (usable-type size r u).0 in
      let k = (ordered_split 0 xs (r ∷ ys) o).1 in
      let same : joined (released (owned size r)) (rest_of size r) ≡ r = ground arith in
      rw (merged (rest_of size r ∷ ys), joins_rest size xs ys r (omega arith), same)

Outcome-undo :
    (size : ℕ) (m : List Region) (out : ℕ × List Region)
    → 0 < size
    → OrderedFrom 0 m
    → Coalesced m
    → Low m
    → out.0 ≢ 0
    → Outcome size m out
    → free out.0 out.1 ≡ m
Outcome-undo size m out pos o c low got (no_region h e) = absurd (got (ap (λ p. p.0) e))
Outcome-undo size m out pos o c low got (table_full k r b h f e) = absurd (got (ap (λ p. p.0) e))
Outcome-undo size m out pos o c low got (whole k r b h e) =
    rw (e, b.splits)
      (undo_whole size b.before b.behind r pos (rw b.splits at o) (rw b.splits at c)
        (Low-at b.before b.behind r (rw b.splits at low)) b.fits h)
Outcome-undo size m out pos o c low got (part k r b h f e) =
    rw (e, b.splits)
      (undo_part size b.before b.behind r pos (rw b.splits at o) (rw b.splits at c)
        (Low-at b.before b.behind r (rw b.splits at low)) b.fits h)

-- On an ordered map below 4 GiB without free neighbours that touch, `free` of the address that a
-- successful `allocate` returned restores the map, entry for entry.
pub free-allocate :
    (size : ℕ) (m : List Region)
    → 0 < size
    → OrderedFrom 0 m
    → Coalesced m
    → Low m
    → (allocate size m).0 ≢ 0
    → free (allocate size m).0 (allocate size m).1 ≡ m
free-allocate size m pos o c low got =
    Outcome-undo size m _ pos o c low got (allocate-Outcome size m)
