-- ===== src/Pmm/Regions/Order.antt =====
-- The well-formed memory maps of kernel/pmm.c, and the use of each address that a map stands for.
use my_kernel.Common.{
  not, ◌==◌, ℕ, suc, ◌+◌, ◌^◌, ◌≤◌, ◌<◌, ◌≡◌, refl, ap, Bool, ◌&&◌, Option, none, some, List, [],
  ◌∷◌, ◌++◌, arith, ltb, leb, if◌then◌else◌, length,
}
use my_kernel.Pmm.Regions.{Region, shift_up, shift_down}

-- The regions follow one another from `lo` on, none is empty, and none reaches past 64 bits.
abbrev pub OrderedFrom : ℕ → List Region → Type 0
OrderedFrom lo [] = Unit {0}
OrderedFrom lo (r ∷ rs) =
    (lo ≤ r.base)
    × (0 < r.length)
    × (r.base + r.length < 2 ^ 64)
    × OrderedFrom (r.base + r.length) rs

-- Where the last region of the list ends.
abbrev pub end_of : ℕ → List Region → ℕ
end_of lo [] = lo
end_of lo (r ∷ rs) = end_of (r.base + r.length) rs

abbrev pub inside : Region → ℕ → Bool
inside r a = leb r.base a && ltb a (r.base + r.length)

-- What `g` says of the region that holds the address, if one does.
abbrev pub value_at {ℓ} : {A : Type ℓ} → (Region → A) → List Region → ℕ → Option A
value_at g [] a = none
value_at g (r ∷ rs) a = if inside r a then some (g r) else value_at g rs a

abbrev pub type_at : List Region → ℕ → Option ℕ
type_at = value_at (λ r. r.type)

-- `allocate` passes over a region that begins at address 0.
abbrev pub free_to_take : Region → Bool
free_to_take r = r.type == 1 && not (r.base == 0)

abbrev pub takeable_at : List Region → ℕ → Option Bool
takeable_at = value_at free_to_take

pub ordered_split :
    (lo : ℕ) (xs ys : List Region)
    → OrderedFrom lo (xs ++ ys)
    → OrderedFrom lo xs × OrderedFrom (end_of lo xs) ys
ordered_split lo [] ys h = (tt, h)
ordered_split lo (x ∷ xs) ys h =
    let (p, q) = ordered_split (x.base + x.length) xs ys h.3 in ((h.0, h.1, h.2, p), q)

pub ordered_join :
    (lo : ℕ) (xs ys : List Region)
    → OrderedFrom lo xs
    → OrderedFrom (end_of lo xs) ys
    → OrderedFrom lo (xs ++ ys)
ordered_join lo [] ys h k = k
ordered_join lo (x ∷ xs) ys h k = (h.0, h.1, h.2, ordered_join (x.base + x.length) xs ys h.3 k)

pub ordered_weaken :
    (lo hi : ℕ) (xs : List Region) → hi ≤ lo → OrderedFrom lo xs → OrderedFrom hi xs
ordered_weaken lo hi [] h o = tt
ordered_weaken lo hi (x ∷ xs) h o = (omega arith, o.1, o.2, o.3)

pub lo-le-end_of : (lo : ℕ) (xs : List Region) → OrderedFrom lo xs → lo ≤ end_of lo xs
lo-le-end_of lo [] o = omega arith
lo-le-end_of lo (x ∷ xs) o = omega (arith, lo-le-end_of (x.base + x.length) xs o.3)

module _ {ℓ} {A : Type ℓ} (g : Region → A) where
  -- Nothing before `ys` holds an address at or behind the end of `xs`.
  pub value_at_behind :
      (lo : ℕ) (xs ys : List Region) (a : ℕ)
      → OrderedFrom lo xs
      → end_of lo xs ≤ a
      → value_at g (xs ++ ys) a ≡ value_at g ys a
  value_at_behind lo [] ys a o h = refl
  value_at_behind lo (x ∷ xs) ys a o h = ground (
    arith,
    lo-le-end_of (x.base + x.length) xs o.3,
    value_at_behind (x.base + x.length) xs ys a o.3 h,
  )

  -- Two tails that agree at an address agree there behind any list.
  pub value_at_same :
      (xs ys zs : List Region) (a : ℕ)
      → value_at g ys a ≡ value_at g zs a
      → value_at g (xs ++ ys) a ≡ value_at g (xs ++ zs) a
  value_at_same [] ys zs a h = h
  value_at_same (x ∷ xs) ys zs a h = ground (arith, value_at_same xs ys zs a h)

pub type_at_behind :
    (lo : ℕ) (xs ys : List Region) (a : ℕ)
    → OrderedFrom lo xs
    → end_of lo xs ≤ a
    → type_at (xs ++ ys) a ≡ type_at ys a
type_at_behind = value_at_behind (λ r. r.type)

pub type_at_same :
    (xs ys zs : List Region) (a : ℕ)
    → type_at ys a ≡ type_at zs a
    → type_at (xs ++ ys) a ≡ type_at (xs ++ zs) a
type_at_same = value_at_same (λ r. r.type)

pub shift_up-append :
    (xs : List Region) (r : Region) (ys : List Region)
    → shift_up (length xs) (xs ++ r ∷ ys) ≡ xs ++ r ∷ r ∷ ys
unfolding shift_up
shift_up-append [] r ys = refl
shift_up-append (x ∷ xs) r ys = ap (λ l. x ∷ l) (shift_up-append xs r ys)

pub shift_down-append :
    (xs : List Region) (r q : Region) (ys : List Region)
    → shift_down (suc (length xs)) (xs ++ r ∷ q ∷ ys) ≡ xs ++ r ∷ ys
unfolding shift_down
shift_down-append [] r q ys = refl
shift_down-append (x ∷ xs) r q ys = ap (λ l. x ∷ l) (shift_down-append xs r q ys)
