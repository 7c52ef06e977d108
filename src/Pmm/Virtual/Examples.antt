-- ===== src/Pmm/Virtual/Examples.antt =====
-- Tests of the virtual pages of kernel/pmm.c.
use my_kernel.Common.{ℕ, ◌≤◌, ◌<◌, ◌≡◌, ◌≢◌, refl, ◌⊎◌, some, none, arith}
use my_kernel.Pmm.Regions.{allocate, max_free_pages}
use my_kernel.Pmm.Regions.Examples.{low_memory}
use my_kernel.Pmm.Paging.{Paging, store, get_pte, map_page}
use my_kernel.Pmm.Paging.Examples.{blank, booted, booted-Tables}
use my_kernel.Pmm.Virtual.{Vm, default_flag, allocate_page, free_page}
use my_kernel.Pmm.Virtual.Give.{Gives, Pushed, free_page-Gives, free_page_twice}

-- `freed` addresses are on the stack.
abbrev pub vm_with : ℕ → Paging → Vm
vm_with freed paging = record {
  paging = paging;
  next_virtual = 0x500000;
  free_virtual = λ i. 0x400000;
  free_count = freed;
}

free_page-Gives_example :
    ((max_free_pages ≤ 1) × (free_page 0x7000 (vm_with 1 booted) ≡ none))
    ⊎ ((1 < max_free_pages)
        × ((t : Vm) × (free_page 0x7000 (vm_with 1 booted) ≡ some t)
            × Pushed 0x7000 (vm_with 1 booted) t
            × Gives 0x7000 booted t.paging))
free_page-Gives_example = free_page-Gives 0x7000 (vm_with 1 booted) booted-Tables (omega arith)

pub default_flag-3 : default_flag 3 ≡ 3
unfolding default_flag
default_flag-3 = refl

pub fresh_page : (allocate_page 3 (vm_with 0 blank)).0 ≡ 0x500000
unfolding allocate_page allocate
fresh_page = refl

-- One page of memory is there.
memory_there : (allocate 4096 low_memory).0 ≢ 0
unfolding allocate
memory_there = omega arith

abbrev once : Vm
once = record (vm_with 0 blank) { free_virtual = store (λ i. 0x400000) 0 0x600000; free_count = 1 }

abbrev twice : Vm
twice = record once { free_virtual = store once.free_virtual 1 0x600000; free_count = 2 }

once-freed : free_page 0x600000 (vm_with 0 blank) ≡ some once
unfolding free_page get_pte
once-freed = refl

twice-freed : free_page 0x600000 once ≡ some twice
unfolding free_page get_pte
twice-freed = refl

memory_left : (allocate 4096 (allocate_page 0 twice).1.paging.regions).0 ≢ 0
unfolding allocate allocate_page map_page
memory_left = omega arith

free_page_twice_example :
    ((allocate_page 0 twice).0 ≡ 0x600000)
    × ((allocate_page 0 (allocate_page 0 twice).1).0 ≡ 0x600000)
free_page_twice_example =
    free_page_twice 0x600000 0 0 (vm_with 0 blank) once twice once-freed twice-freed memory_there
      memory_left
