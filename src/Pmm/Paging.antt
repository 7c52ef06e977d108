-- ===== src/Pmm/Paging.antt =====
-- The page tables of kernel/pmm.c: `build_first_page`, `map_page`, `get_pte`, `get_map` and
-- `unmap_page`. A page table is reached through its physical address, as the source does, in a
-- store of 32-bit words. `flushed` lists the calls of `invlpg`, `printed` those of `print_string`.
pub mod Lookup
pub mod Frames
pub mod Install
pub mod Enter
pub mod Map
pub mod Unmap
pub mod First
pub mod Examples
use Prim.Native.Nat.{bit_and, bit_or}
use Prim.Native.String.{String}
use my_kernel.Common.{
  ℕ, zero, suc, ◌+◌, ◌*◌, ◌/◌, ◌%◌, ◌^◌, ◌≡◌, Bool, not, ◌||◌, Option, none, some, List, ◌∷◌, ◌==◌,
  if◌then◌else◌,
}
use my_kernel.Pmm.Regions.{Region, allocate}

pub record Paging : Type 0 where
  pub directory : ℕ → ℕ
  pub word : ℕ → ℕ
  pub regions : List Region
  pub flushed : List ℕ
  pub printed : List String

abbrev pub page_present : ℕ
page_present = 0x001

abbrev pub page_write : ℕ
page_write = 0x002

abbrev pub page_user : ℕ
page_user = 0x004

-- `array[i] = v`
unfoldable pub store : (ℕ → ℕ) → ℕ → ℕ → ℕ → ℕ
store array i v j = if j == i then v else array j

unfoldable pub directory_index : ℕ → ℕ
directory_index virtual = virtual / 2 ^ 22

unfoldable pub table_index : ℕ → ℕ
table_index virtual = bit_and (virtual / 2 ^ 12) 0x3FF

-- `for (k = 0; k < n; k++) table[k] = value(k)`
pub fill : ℕ → (ℕ → ℕ) → ℕ → (ℕ → ℕ) → ℕ → ℕ
unfolding store
fill table value zero word = word
fill table value (suc k) word = store (fill table value k word) (table + 4 * k) (value k)

-- `page_table` is at the address `first`, which the linker chooses.
unfoldable pub build_first_page : ℕ → Paging → Paging
unfolding fill store
build_first_page first s = record s {
  word = fill first (λ k. bit_or (k * 0x1000) 7) 1024 s.word;
  directory = λ d. if d == 0 then bit_or first 7 else 0;
}

-- `new_table`, zeroed, becomes the table of the directory entry.
unfoldable pub install : ℕ → ℕ → ℕ → Paging → Paging
unfolding fill store
install d new_table flags s =
    let directory_flags = bit_or page_present page_write in
    let flags' =
      if bit_and flags page_user == 0 then directory_flags else bit_or directory_flags page_user in
    record s {
      word = fill new_table (λ k. 0) 1024 s.word;
      directory = store s.directory d (bit_or new_table flags');
    }

-- The end of `map_page`, behind the test for a table.
unfoldable pub enter : ℕ → ℕ → ℕ → Paging → Paging
unfolding store directory_index table_index
enter physical virtual flags s =
    let d = directory_index virtual in
    let directory' =
      if bit_and flags page_user == 0
      then s.directory
      else store s.directory d (bit_or (s.directory d) page_user) in
    let table_ptr = bit_and (directory' d) 0xFFFFF000 in
    record s {
      directory = directory';
      word =
          store s.word (table_ptr + 4 * table_index virtual)
            (bit_or (bit_and physical 0xFFFFF000) flags);
      flushed = virtual ∷ s.flushed;
    }

-- `map_page` when the directory entry has no table: `new` is what `allocate` gives.
unfoldable pub map_new : ℕ → ℕ → ℕ → ℕ × List Region → Paging → Paging
unfolding install enter directory_index
map_new physical virtual flags new s =
    if new.0 == 0
    then record s { regions = new.1; printed = "allocate FAILED\n" ∷ s.printed }
    else enter physical virtual flags
        (install (directory_index virtual) new.0 flags (record s { regions = new.1 }))

unfoldable pub map_page : ℕ → ℕ → ℕ → Paging → Paging
unfolding map_new enter directory_index
map_page physical virtual flags s =
    if bit_and (s.directory (directory_index virtual)) 1 == 0
    then map_new physical virtual flags (allocate 4096 s.regions) s
    else enter physical virtual flags s

-- The address of the page table entry, unless the directory has no table there.
unfoldable pub get_pte : ℕ → Paging → Option ℕ
unfolding directory_index table_index
get_pte virtual s =
    let entry = s.directory (directory_index virtual) in
    if bit_and entry 1 == 0 then none else some (bit_and entry 0xFFFFF000 + 4 * table_index virtual)

unfoldable pub get_map : ℕ → Paging → ℕ
unfolding get_pte
get_map virtual s = elim (get_pte virtual s) [
  | none ↦ 0
  | some pte ↦ if bit_and (s.word pte) 1 == 0 then 0 else bit_and (s.word pte) 0xFFFFF000
]

pub unmap_page : ℕ → Paging → Paging
unfolding get_pte store
unmap_page virtual s = elim (get_pte virtual s) [
  | none ↦ s
  | some pte ↦
      if bit_and (s.word pte) 1 == 0
      then s
      else record s { word = store s.word pte 0; flushed = virtual ∷ s.flushed }
]
