-- ===== src/Pmm/Regions.antt =====
-- The physical memory map of kernel/pmm.c: `allocate` and `free` over the table of regions that
-- the boot code leaves at 0x504. The table with `*entry` entries is a list of that length; sums of
-- 64-bit fields wrap, and an address is cut to 32 bits when it is returned.
pub mod BestFit
pub mod Order
pub mod Allocate
pub mod Ownership
pub mod Free
pub mod Merge
pub mod RoundTrip
pub mod Pages
pub mod Examples
use my_kernel.Common.{
  ℕ, zero, suc, ◌+◌, ◌-◌, ◌%◌, ◌^◌, ◌≡◌, Bool, true, false, not, ◌&&◌, Option, none, some, List, [],
  ◌∷◌, ltb, leb, ◌==◌, if◌then◌else◌, length, get_elem?, set,
}

pub record Region : Type 0 where
  pub base : ℕ
  pub length : ℕ
  pub type : ℕ
  pub acpi : ℕ

abbrev pub max_free_pages : ℕ
max_free_pages = 1024

-- What the loop of `allocate` accepts.
unfoldable pub usable : ℕ → Region → Bool
usable size r = not (r.base == 0) && (leb size r.length && r.type == 1)

-- `best == -1 || map[best].length > map[k].length`
unfoldable pub beats : Region → Option (ℕ × Region) → Bool
beats r none = true
beats r (some (j, b)) = ltb r.length b.length

-- The loop of `allocate` from index `k` on. `best` is the index found so far with its entry.
unfoldable pub best_fit : ℕ → ℕ → Option (ℕ × Region) → List Region → Option (ℕ × Region)
unfolding usable beats
best_fit size k best [] = best
best_fit size k best (r ∷ rs) =
    best_fit size (suc k) (if usable size r && beats r best then some (k, r) else best) rs

-- Every entry from `best` on moves up by one place; the entry at `best` is there twice.
unfoldable pub shift_up : ℕ → List Region → List Region
shift_up best [] = []
shift_up zero (r ∷ rs) = r ∷ r ∷ rs
shift_up (suc best) (r ∷ rs) = r ∷ shift_up best rs

-- The entry at `best` moves the later ones down by one place.
unfoldable pub shift_down : ℕ → List Region → List Region
shift_down k [] = []
shift_down zero (r ∷ rs) = rs
shift_down (suc k) (r ∷ rs) = r ∷ shift_down k rs

abbrev pub owned : ℕ → Region → Region
owned size r = record r { length = size; type = 2 }

abbrev pub rest_of : ℕ → Region → Region
rest_of size r = record {
  base = (r.base + size) % 2 ^ 64;
  length = r.length - size;
  type = 1;
  acpi = r.acpi;
}

-- The part of `allocate` behind the loop, at the entry `r` with index `best`.
unfoldable pub claim : ℕ → ℕ → Region → List Region → ℕ × List Region
unfolding shift_up
claim size best r m =
    if ltb 0 (r.length - size)
    then (if leb max_free_pages (length m) then (0, m) else (
      r.base % 2 ^ 32,
      set (set (shift_up best m) (suc best) (rest_of size r)) best (owned size r),
    ))
    else (r.base % 2 ^ 32, set m best (owned size r))

-- `allocate`, with 0 for failure, and the table that it leaves.
unfoldable pub allocate : ℕ → List Region → ℕ × List Region
unfolding best_fit claim
allocate size m = elim (best_fit size 0 none m) [
  | none ↦ (0, m)
  | some (best, r) ↦ claim size best r m
]

-- The first loop of `free`: the first entry that begins at the address.
pub find_base : ℕ → ℕ → List Region → Option (ℕ × Region)
find_base addr k [] = none
find_base addr k (r ∷ rs) = if r.base == addr then some (k, r) else find_base addr (suc k) rs

-- `p` ends where `q` begins.
pub meets : Region → Region → Bool
meets p q = (p.base + p.length) % 2 ^ 64 == q.base

-- `p` takes in `q`: `map[k].length += map[k + 1].length`, and the later entries move down.
pub absorb : ℕ → Region → Region → List Region → List Region
unfolding shift_down
absorb k p q m = shift_down (suc k) (set m k (record p { length = (p.length + q.length) % 2 ^ 64 }))

-- The merge with the entry before `index`, and the index afterwards.
pub merge_previous : ℕ → List Region → ℕ × List Region
unfolding meets absorb
merge_previous zero m = (0, m)
merge_previous (suc j) m = elim (get_elem? m j) [
  | none ↦ (suc j, m)
  | some p ↦ elim (get_elem? m (suc j)) [
    | none ↦ (suc j, m)
    | some q ↦ if p.type == 1 && meets p q then (j, absorb j p q m) else (suc j, m)
  ]
]

-- The merge with the entry behind `index`; there is none at the last entry.
pub merge_next : ℕ → List Region → List Region
unfolding meets absorb
merge_next index m = elim (get_elem? m index) [
  | none ↦ m
  | some p ↦ elim (get_elem? m (suc index)) [
    | none ↦ m
    | some q ↦ if q.type == 1 && meets p q then absorb index p q m else m
  ]
]

pub free : ℕ → List Region → List Region
unfolding find_base merge_previous merge_next
free addr m = elim (find_base addr 0 m) [
  | none ↦ m
  | some (k, r) ↦
      let (index, m') = merge_previous k (set m k (record r { type = 1 })) in merge_next index m'
]
