-- ===== src/Tests/Pages.antt =====
-- `test_page_alloc_free` and `test_mapping` of kernel/tests.c.
use my_kernel.Common.{
  ℕ, ◌+◌, ◌/◌, ◌%◌, ◌^◌, ◌≤◌, ◌<◌, ◌≡◌, ◌≢◌, refl, sym, ap, ◌∙◌, inl, inr, false, [], ◌∷◌, List,
  arith, ◌==◌,
}
use my_kernel.Common.Run.{ok}
use my_kernel.Pmm.Regions.{Region, max_free_pages, allocate, free}
use my_kernel.Pmm.Regions.Pages.{allocate-PageClaim}
use my_kernel.Pmm.Paging.{Paging, get_map, map_page, unmap_page}
use my_kernel.Pmm.Paging.Lookup.{Words, directory_of}
use my_kernel.Pmm.Paging.Frames.{Tables}
use my_kernel.Pmm.Paging.Map.{Maps, MapFails, map_page-Maps}
use my_kernel.Pmm.Paging.Unmap.{unmap_page-Unmaps}
use my_kernel.Pmm.Virtual.{Vm, default_flag, pick_virtual, take_page, allocate_page}
use my_kernel.Pmm.Virtual.Take.{
  Addresses, Took, exhausted, mapped, unmapped, pick_virtual-lt, claimed-Tables, get_map-same,
  allocate_page-Took,
}
use my_kernel.Pmm.Virtual.Give.{free_page-Gives}
use my_kernel.Vga.Output.{Output, text}
use my_kernel.Tests.{
  page_report, test_page_alloc_free, test_address, mapping_report, map_and_unmap, test_mapping,
}

allocate_page-free_count : (flag : ℕ) (s : Vm) → (allocate_page flag s).1.free_count ≤ s.free_count
unfolding allocate_page take_page pick_virtual
allocate_page-free_count flag s = ground arith

-- What a call of `allocate_page` leaves alone: the page tables stay well formed, and so does every
-- mapping but that of the page it returns.
pub record Leaves (s : Vm) (out : ℕ × Vm) : Type 0 where
  pub low : out.0 < 2 ^ 32
  pub tables : Tables out.1.paging
  pub others :
      (v : ℕ) → v < 2 ^ 32 → v / 4096 ≢ out.0 / 4096 → get_map v out.1.paging ≡ get_map v s.paging

Took-Leaves : (s : Vm) (out : ℕ × Vm) → Tables s.paging → Addresses s → Took s out → Leaves s out
Took-Leaves s out ok' a (exhausted e same) =
    rw same (record { low = omega arith; tables = ok'; others = λ v h n. refl })
Took-Leaves s out ok' a (mapped c picked picks tables here others) = record {
  low = rw picked (pick_virtual-lt s a);
  tables = tables;
  others = others;
}
Took-Leaves s out ok' a (unmapped c picked picks tables here kept full) = record {
  low = rw picked (pick_virtual-lt s a);
  tables = tables;
  others = λ v h n. kept v;
}

-- On well-formed page tables, with room in the array of freed addresses, `test_page_alloc_free`
-- prints OK, whether there is memory for the page or not. Of all mappings only that of the page it
-- took changes, and that page is not mapped when it ends.
pub test_page_alloc_free-Passes :
    (s : Vm)
    → Tables s.paging
    → Addresses s
    → s.free_count < max_free_pages
    → let (vaddr, t) = allocate_page 3 s in
      (u : Vm) × (test_page_alloc_free s ≡ ok (page_report vaddr (get_map vaddr t.paging) 0, u))
      × (get_map vaddr u.paging ≡ 0)
      × ((v : ℕ) → v < 2 ^ 32 → v / 4096 ≢ vaddr / 4096 → get_map v u.paging ≡ get_map v s.paging)
unfolding test_page_alloc_free default_flag
test_page_alloc_free-Passes s tables a room =
    let (vaddr, t) = allocate_page 3 s in
    let l =
      Took-Leaves s (allocate_page 3 s) tables a
        (allocate_page-Took 3 s tables a (omega arith) refl) in
    let count = allocate_page-free_count 3 s in
    elim (free_page-Gives vaddr t l.tables l.low) [
      | inl (full, e) ↦ absurd (omega arith)
      | inr (h, (u, e, p, g)) ↦
          (u, rw (e, g.gone) refl, g.gone, λ v hv ne. g.others v hv ne ∙ l.others v hv ne)
    ]

-- How `test_mapping` ends: without a page of memory, without one for the page table, or with the
-- page mapped and unmapped again.
pub data Tested (s : Paging) (out : List Output × Paging) : Type 0 where
  no_page :
      allocate 4096 s.regions ≡ (0, s.regions)
      → out ≡ (text "\nTEST: mapping\n" ∷ text "allocate failed\n" ∷ [], s)
      → Tested s out
  no_table :
      (physical : ℕ)
      → physical ≢ 0
      → s.directory (directory_of test_address) % 2 ≡ 0
      → out.0 ≡ mapping_report physical 0 0
      → ((v : ℕ) → get_map v out.1 ≡ get_map v s)
      → Tested s out
  passed :
      (physical : ℕ)
      → physical ≢ 0
      → out.0 ≡ mapping_report physical physical 0
      → get_map test_address out.1 ≡ 0
      → ((v : ℕ) → v < 2 ^ 32 → v / 4096 ≢ test_address / 4096 → get_map v out.1 ≡ get_map v s)
      → Tested s out

-- The memory map makes no difference to the walk.
get_map-regions :
    (v : ℕ) (s : Paging) (m : List Region)
    → Words s
    → get_map v (record s { regions = m }) ≡ get_map v s
get_map-regions v s m w =
    get_map-same s (record s { regions = m }) w (record { directory = w.directory; word = w.word })
      refl refl v

module _ (physical : ℕ) (s : Paging) (tables : Tables s) (nz : physical ≢ 0)
    (aligned : physical % 4096 ≡ 0) (low : physical + 4096 ≤ 2 ^ 32) where
  -- The page table is there, or there is memory for it.
  mapped_passes :
      Maps physical test_address s (map_page physical test_address 3 s)
      → ((map_and_unmap physical s).0 ≡ mapping_report physical physical 0)
        × (get_map test_address (map_and_unmap physical s).1 ≡ 0)
        × ((v : ℕ)
            → v < 2 ^ 32
            → v / 4096 ≢ test_address / 4096
            → get_map v (map_and_unmap physical s).1 ≡ get_map v s)
  unfolding map_and_unmap
  mapped_passes m =
      let t = map_page physical test_address 3 s in
      let u = unmap_page test_address t in
      let here : get_map test_address t ≡ physical = m.here ∙ omega arith in
      let m' = free physical u.regions in
      elim (unmap_page-Unmaps test_address t m.tables (omega arith)) [
        | inl (same, gone, n) ↦ absurd (nz (sym here ∙ gone))
        | inr (p, x, f) ↦ (
          rw (here, x.gone) refl,
          get_map-regions test_address u m' x.tables.words ∙ x.gone,
          λ v h ne. get_map-regions v u m' x.tables.words ∙ x.others v h ne ∙ m.others v h ne,
        )
      ]

  -- The page table is missing, and there is no memory for it.
  unmapped_fails :
      MapFails test_address s (map_page physical test_address 3 s)
      → ((map_and_unmap physical s).0 ≡ mapping_report physical 0 0)
        × ((v : ℕ) → get_map v (map_and_unmap physical s).1 ≡ get_map v s)
  unfolding map_and_unmap
  unmapped_fails f =
      let failed = record s { printed = "allocate FAILED\n" ∷ s.printed } in
      let w : Words failed = record {
        directory = tables.words.directory;
        word = tables.words.word;
      } in
      let same = get_map-same s failed tables.words w refl refl in
      let ok' : Tables failed = record {
        words = w;
        ordered = tables.ordered;
        pages = tables.pages;
        distinct = tables.distinct;
        apart = tables.apart;
      } in
      elim (unmap_page-Unmaps test_address failed ok' (omega arith)) [
        | inl (kept, gone, n) ↦
            let e = ap (unmap_page test_address) f.unchanged ∙ kept in
            (
              rw (f.unchanged, kept, gone) refl,
              λ v. rw e (get_map-regions v failed (free physical s.regions) w ∙ same v),
            )
        | inr (p, x, g) ↦ absurd (omega (arith, f.absent, p.0))
      ]

-- On well-formed page tables `test_mapping` finds no page of memory and says so; or it needs a page
-- table that there is no memory for, prints MISMATCH and changes no mapping; or it prints OK. Then
-- the test page reads as unmapped at the end, and no mapping of another page has changed.
pub test_mapping-Tested : (s : Paging) → Tables s → Tested s (test_mapping s)
unfolding test_mapping
test_mapping-Tested s tables = elim (allocate-PageClaim s.regions tables.ordered tables.pages) [
  | inl e ↦ no_page e (rw e refl)
  | inr c ↦
      let out = allocate 4096 s.regions in
      let t = record s { regions = out.1 } in
      let tables' = claimed-Tables s out tables c in
      let z : (out.0 == 0) ≡ false = ground (arith, c.nonzero) in
      let same = λ (v : ℕ). get_map-regions v s out.1 tables.words in
      rw z
        (elim (map_page-Maps out.0 test_address 3 (omega (arith, c.low)) (omega arith) (omega arith)
          refl t tables') [
            | inr m ↦
                let (e, gone, others) = mapped_passes out.0 t tables' c.nonzero c.aligned c.low m in
                passed out.0 c.nonzero e gone (λ v h ne. others v h ne ∙ same v)
            | inl f ↦
                let (e, kept) = unmapped_fails out.0 t tables' c.nonzero c.aligned c.low f in
                no_table out.0 c.nonzero f.absent e (λ v. kept v ∙ same v)
          ])
]
