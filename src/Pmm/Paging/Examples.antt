-- ===== src/Pmm/Paging/Examples.antt =====
-- Tests of the page tables of kernel/pmm.c, on the tables that `build_first_page` leaves.
use my_kernel.Common.{
  ℕ, ◌^◌, ◌≡◌, ◌≢◌, ◌≤◌, ◌<◌, ◌⊎◌, true, some, [], ◌∷◌, arith, ltb, if◌then◌else◌,
}
use my_kernel.Pmm.Regions.Order.{takeable_at}
use my_kernel.Pmm.Regions.Examples.{low_memory, low_memory-ordered, low_memory-pages}
use my_kernel.Pmm.Paging.{Paging, build_first_page, map_page, get_map, unmap_page}
use my_kernel.Pmm.Paging.Lookup.{Words, frame}
use my_kernel.Pmm.Paging.Frames.{Tables}
use my_kernel.Pmm.Paging.Map.{Maps, MapFails, map_page-Maps}
use my_kernel.Pmm.Paging.Unmap.{Unmaps, PresentPte, unmap_page-Unmaps}
use my_kernel.Pmm.Paging.First.{build_first_page-identity, build_first_page-Tables}

abbrev pub blank : Paging
blank = record {
  directory = λ d. 0;
  word = λ a. 0;
  regions = low_memory;
  flushed = [];
  printed = [];
}

blank-Words : Words blank
blank-Words = record { directory = λ d. omega arith; word = λ a. omega arith }

kept : takeable_at low_memory 0x1000 ≢ some true
kept e = ground arith

abbrev pub booted : Paging
booted = build_first_page 0x1000 blank

pub booted-Tables : Tables booted
booted-Tables =
    build_first_page-Tables 0x1000 blank blank-Words (omega arith) (omega arith) low_memory-ordered
      low_memory-pages kept

build_first_page-identity_example :
    get_map 0x123456 (build_first_page 0x1000 blank)
    ≡ (if ltb 0x123456 (2 ^ 22) then frame 0x123456 else 0)
build_first_page-identity_example =
    build_first_page-identity 0x1000 blank blank-Words (omega arith) (omega arith) 0x123456
      (omega arith)

pub booted-mapped : (u : ℕ) → 0x1000 ≤ u → u < 2 ^ 22 → get_map u booted ≢ 0
booted-mapped u lo hi =
    let y : ltb u (2 ^ 22) ≡ true = ground arith in
    let e =
      build_first_page-identity 0x1000 blank blank-Words (omega arith) (omega arith) u
        (omega arith) in
    λ z. ground (arith, e, z, y)

map_page-Maps_example :
    MapFails 0x400000 booted (map_page 0x103000 0x400000 3 booted)
    ⊎ Maps 0x103000 0x400000 booted (map_page 0x103000 0x400000 3 booted)
map_page-Maps_example =
    map_page-Maps 0x103000 0x400000 3 (omega arith) (omega arith) (omega arith) (omega arith) booted
      booted-Tables

unmap_page-Unmaps_example :
    ((unmap_page 0x5000 booted ≡ booted)
      × (get_map 0x5000 booted ≡ 0)
      × (¬ PresentPte 0x5000 booted))
    ⊎ (PresentPte 0x5000 booted
        × Unmaps 0x5000 booted (unmap_page 0x5000 booted)
        × ((unmap_page 0x5000 booted).flushed ≡ 0x5000 ∷ []))
unfolding build_first_page
unmap_page-Unmaps_example = unmap_page-Unmaps 0x5000 booted booted-Tables (omega arith)
