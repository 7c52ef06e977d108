-- ===== src/Pmm/Paging/Lookup.antt =====
-- The masks and shifts of the page table walk in kernel/pmm.c as arithmetic.
use my_kernel.Common.{
  ℕ, zero, suc, ◌+◌, ◌*◌, ◌/◌, ◌%◌, ◌^◌, ◌≤◌, ◌<◌, ◌≡◌, refl, sym, ◌∙◌, ◌⊎◌, inl, inr, none, some,
  arith, ◌==◌, if◌then◌else◌, Bool-cases,
}
use my_kernel.Common.Bits.{bit_and-0x1, bit_and-0x3FF, bit_and-0xFFFFF000}
use my_kernel.Pmm.Paging.{Paging, directory_index, table_index, fill, get_pte, get_map}

-- The frame that an entry names, and the address of the entry behind it for a page.
abbrev pub frame : ℕ → ℕ
frame entry = entry / 4096 * 4096

abbrev pub page_index : ℕ → ℕ
page_index virtual = virtual / 4096 % 1024

abbrev pub directory_of : ℕ → ℕ
directory_of virtual = virtual / 2 ^ 22

abbrev pub entry_address : (ℕ → ℕ) → ℕ → ℕ
entry_address directory virtual = frame (directory (directory_of virtual)) + 4 * page_index virtual

abbrev pub mapped : ℕ → ℕ
mapped entry = if entry % 2 == 0 then 0 else frame entry

-- The walk over a directory and the words of the tables.
abbrev pub walk : (ℕ → ℕ) → (ℕ → ℕ) → ℕ → ℕ
walk directory word virtual =
    if directory (directory_of virtual) % 2 == 0
    then 0
    else mapped (word (entry_address directory virtual))

-- Every entry of the directory and every word is a 32-bit value.
pub record Words (s : Paging) : Type 0 where
  pub directory : (d : ℕ) → s.directory d < 2 ^ 32
  pub word : (a : ℕ) → s.word a < 2 ^ 32

pub directory_index_lem : (virtual : ℕ) → directory_index virtual ≡ directory_of virtual
unfolding directory_index
directory_index_lem virtual = refl

pub table_index_lem : (virtual : ℕ) → table_index virtual ≡ page_index virtual
unfolding table_index
table_index_lem virtual = bit_and-0x3FF (virtual / 4096)

pub get_pte-walk :
    (virtual : ℕ) (s : Paging)
    → Words s
    → get_pte virtual s ≡ (
        if s.directory (directory_of virtual) % 2 == 0
        then none
        else some (entry_address s.directory virtual))
unfolding get_pte
get_pte-walk virtual s w = rw (
  directory_index_lem virtual,
  table_index_lem virtual,
  bit_and-0x1 (s.directory (directory_of virtual)),
  bit_and-0xFFFFF000 (s.directory (directory_of virtual)) (w.directory _),
)

pub get_map-walk :
    (virtual : ℕ) (s : Paging) → Words s → get_map virtual s ≡ walk s.directory s.word virtual
unfolding get_map
get_map-walk virtual s w =
    let d = s.directory (directory_of virtual) in
    let a = entry_address s.directory virtual in
    elim (Bool-cases (d % 2 == 0)) [
      | inl n ↦ rw (get_pte-walk virtual s w, n, get_map)
      | inr y ↦ rw (
        get_pte-walk virtual s w,
        y,
        get_map,
        bit_and-0x1 (s.word a),
        bit_and-0xFFFFF000 (s.word a) (w.word a),
      )
    ]

-- Reads after the loop that fills a table.
pub fill_inside :
    (table : ℕ) (value : ℕ → ℕ) (n : ℕ) (word : ℕ → ℕ) (k : ℕ)
    → k < n
    → fill table value n word (table + 4 * k) ≡ value k
unfolding fill
fill_inside table value zero word k h = absurd (omega arith)
fill_inside table value (suc n) word k h = elim (Bool-cases (k == n)) [
  | inl y ↦ let e : k ≡ n = ground arith in rw e (ground arith)
  | inr y ↦ ground (arith, fill_inside table value n word k)
]

pub fill_outside :
    (table : ℕ) (value : ℕ → ℕ) (n : ℕ) (word : ℕ → ℕ) (a : ℕ)
    → (a < table) ⊎ (table + 4 * n ≤ a)
    → fill table value n word a ≡ word a
unfolding fill
fill_outside table value zero word a h = refl
fill_outside table value (suc n) word a h = ground (arith, fill_outside table value n word a)

pub fill-lt :
    (table : ℕ) (value : ℕ → ℕ) (n : ℕ) (word : ℕ → ℕ) (a bound : ℕ)
    → ((k : ℕ) → k < n → value k < bound)
    → word a < bound
    → fill table value n word a < bound
unfolding fill
fill-lt table value zero word a bound v w = w
fill-lt table value (suc n) word a bound v w =
    ground (arith, v n, fill-lt table value n word a bound (λ k h. v k (omega arith)) w)

-- Addresses of one page are mapped to one frame.
pub get_map-page :
    (v w : ℕ) (s : Paging) → Words s → v / 4096 ≡ w / 4096 → get_map v s ≡ get_map w s
get_map-page v w s ok e =
    let d : v / 2 ^ 22 ≡ w / 2 ^ 22 = omega arith in
    get_map-walk v s ok ∙ rw (d, e) (sym (get_map-walk w s ok))
