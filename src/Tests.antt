-- ===== src/Tests.antt =====
-- The tests that the kernel runs on itself: kernel/tests.c. A test returns what it prints, in order,
-- beside the state it leaves. The message that `map_page` prints when it fails is logged by
-- `map_page` itself.
pub mod Pages
pub mod Blocks
pub mod Processes
pub mod Segments
pub mod Examples
use my_kernel.Common.{ℕ, ◌^◌, List, [], ◌∷◌, ◌++◌, ◌==◌, if◌then◌else◌}
use my_kernel.Common.Run.{Run, ok, ◌>>=◌, or_fault}
use my_kernel.Pmm.Regions.{allocate, free}
use my_kernel.Pmm.Paging.{Paging, build_first_page, map_page, get_map, unmap_page}
use my_kernel.Pmm.Virtual.{Vm, allocate_page, free_page}
use my_kernel.Vga.Output.{Output, text, hex, number}

-- `first` is the address of `page_table`.
unfoldable pub test_paging : ℕ → Paging → List Output × Paging
test_paging first s =
    let t = build_first_page first s in
    (
      text "\nTEST: paging\n" ∷ text "page_directory[0] = " ∷ hex (t.directory 0) ∷ text "\n" ∷ [],
      t,
    )

unfoldable pub test_allocation : Paging → List Output × Paging
test_allocation s =
    let (addr, regions) = allocate 4096 s.regions in
    (
      text "\nTEST: alloc\n" ∷ text "alloc addr = " ∷ hex addr ∷ text "\n" ∷ [],
      record s { regions = regions },
    )

-- What `test_page_alloc_free` prints of the three addresses.
abbrev pub page_report : ℕ → ℕ → ℕ → List Output
page_report vaddr phys unmapped =
    text "\nTEST: page alloc/free\n"
    ∷ text "allocated virtual="
    ∷ hex vaddr
    ∷ text "\n"
    ∷ text "mapped phys="
    ∷ hex phys
    ∷ text "\n"
    ∷ text "\nafter free get_map="
    ∷ hex unmapped
    ∷ text "\n"
    ∷ text (if unmapped == 0 then "OK\n" else "FAIL\n")
    ∷ []

unfoldable pub test_page_alloc_free : Vm → Run (List Output × Vm)
test_page_alloc_free s =
    let (vaddr, t) = allocate_page 3 s in
    do
      u ← or_fault (free_page vaddr t)
      ok (page_report vaddr (get_map vaddr t.paging) (get_map vaddr u.paging), u)

abbrev pub test_address : ℕ
test_address = 0xC0100000

-- What `test_mapping` prints of the frame and of what `get_map` gives before and after.
abbrev pub mapping_report : ℕ → ℕ → ℕ → List Output
mapping_report physical mapped unmapped =
    text "\nTEST: mapping\n"
    ∷ text "mapped virtual="
    ∷ hex test_address
    ∷ text " phys="
    ∷ hex physical
    ∷ text "\n"
    ∷ text "get_map returns "
    ∷ hex mapped
    ∷ text (if mapped == physical then " OK\n" else " MISMATCH\n")
    ∷ text "after unmap get_map="
    ∷ hex unmapped
    ∷ text "\n"
    ∷ []

-- `test_mapping` behind the call of `allocate`.
unfoldable pub map_and_unmap : ℕ → Paging → List Output × Paging
map_and_unmap physical s =
    let t = map_page physical test_address 3 s in
    let u = unmap_page test_address t in
    (
      mapping_report physical (get_map test_address t) (get_map test_address u),
      record u { regions = free physical u.regions },
    )

unfoldable pub test_mapping : Paging → List Output × Paging
unfolding map_and_unmap
test_mapping s =
    let (physical, regions) = allocate 4096 s.regions in
    if physical == 0
    then (text "\nTEST: mapping\n" ∷ text "allocate failed\n" ∷ [], record s { regions = regions })
    else map_and_unmap physical (record s { regions = regions })
