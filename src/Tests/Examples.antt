-- ===== src/Tests/Examples.antt =====
-- Runs of the kernel's tests of kernel/tests.c.
use my_kernel.Common.{ℕ, ◌/◌, ◌^◌, ◌<◌, ◌≡◌, ◌≢◌, refl, true, inl, [], ◌∷◌, arith}
use my_kernel.Common.Run.{Run, ok, fault, out_of_fuel}
use my_kernel.Pmm.Paging.{get_map, map_page}
use my_kernel.Pmm.Paging.Examples.{booted, booted-Tables}
use my_kernel.Pmm.Regions.{allocate}
use my_kernel.Pmm.Virtual.{Vm, allocate_page, allocate_pages_contig}
use my_kernel.Pmm.Virtual.Examples.{vm_with}
use my_kernel.Pmm.Virtual.Take.{Addresses}
use my_kernel.Pmm.Heap.{Heap, kmalloc}
use my_kernel.Pmm.Heap.Release.{IsHeap}
use my_kernel.Process.{Kernel}
use my_kernel.Process.Examples.{three}
use my_kernel.Process.Created.Examples.{empty_heap}
use my_kernel.Process.Created.KernelMode.{behind}
use my_kernel.Tests.{page_report, test_page_alloc_free}
use my_kernel.Tests.Pages.{test_page_alloc_free-Passes}
use my_kernel.Tests.Processes.{list_report, test_process_list, scheduler_report, test_scheduler}
use my_kernel.Tests.Processes.Listed.{Room, test_process_list-Passes}
use my_kernel.Tests.Processes.Scheduled.{test_scheduler-Passes}

booted-Addresses : Addresses (vm_with 1 booted)
booted-Addresses = record { next = omega arith; free = λ i h. omega arith }

test_page_alloc_free-Passes_example :
    let (vaddr, t) = allocate_page 3 (vm_with 1 booted) in
    (u : Vm) × (test_page_alloc_free (vm_with 1 booted)
      ≡ ok (page_report vaddr (get_map vaddr t.paging) 0, u))
    × (get_map vaddr u.paging ≡ 0)
    × ((v : ℕ) → v < 2 ^ 32 → v / 4096 ≢ vaddr / 4096 → get_map v u.paging ≡ get_map v booted)
test_page_alloc_free-Passes_example =
    test_page_alloc_free-Passes (vm_with 1 booted) booted-Tables booted-Addresses (omega arith)

abbrev at_heap : Run (ℕ × Heap) → Heap
at_heap (ok r) = r.1
at_heap fault = empty_heap
at_heap out_of_fuel = empty_heap

abbrev heap1 : Heap
heap1 = at_heap (kmalloc 5 48 3 empty_heap)

abbrev heap2 : Heap
heap2 = at_heap (kmalloc 5 48 3 (behind heap1))

abbrev heap3 : Heap
heap3 = at_heap (kmalloc 5 48 3 (behind heap2))

abbrev empty : Kernel
empty = record (three 0) { heap = empty_heap }

room1 : Room 5 empty_heap 0x500009 heap1
unfolding kmalloc allocate_page allocate map_page allocate_pages_contig
room1 = record { block = refl; nonzero = λ e. omega arith; stack = λ e. omega arith }

room2 : Room 5 (behind heap1) 0x500042 heap2
unfolding kmalloc allocate_page allocate map_page allocate_pages_contig
room2 = record { block = refl; nonzero = λ e. omega arith; stack = λ e. omega arith }

room3 : Room 5 (behind heap2) 0x50007B heap3
unfolding kmalloc allocate_page allocate map_page allocate_pages_contig
room3 = record { block = refl; nonzero = λ e. omega arith; stack = λ e. omega arith }

heap2-IsHeap : IsHeap heap2 (0x500000 ∷ 0x500039 ∷ 0x500072 ∷ [])
unfolding kmalloc allocate_page allocate map_page allocate_pages_contig
heap2-IsHeap = record {
  chain = (refl, λ e. omega arith, (refl, λ e. omega arith, (refl, λ e. omega arith, refl)));
  layout = (
    omega arith,
    (inl (omega arith), (inl (omega arith), tt)),
    (omega arith, (inl (omega arith), tt), (omega arith, tt, tt)),
  );
}

heap2-count : heap2.vm.free_count ≡ 0
unfolding kmalloc allocate_page allocate map_page allocate_pages_contig
heap2-count = refl

test_process_list-Passes_example :
    (t : Kernel) × (test_process_list 5 4 0x10000 0x11000 0x12000 empty
      ≡ ok (list_report 1 2 true true, t))
    × (t.process_list ≡ 0)
    × (t.current_process ≡ 0)
    × IsHeap t.heap (0x500000 ∷ 0x500039 ∷ 0x500072 ∷ [])
test_process_list-Passes_example =
    test_process_list-Passes 5 4 0x10000 (omega arith) 0x11000 0x12000 empty 0x500009 0x500042 heap1
      heap2 (0x500000 ∷ 0x500039 ∷ 0x500072 ∷ []) room1 room2 (λ e. omega arith)
      (rw heap2-count (omega arith)) heap2-IsHeap (omega arith)

heap3-IsHeap : IsHeap heap3 (0x500000 ∷ 0x500039 ∷ 0x500072 ∷ 0x5000AB ∷ [])
unfolding kmalloc allocate_page allocate map_page allocate_pages_contig
heap3-IsHeap = record {
  chain = (
    refl,
    λ e. omega arith,
    (refl, λ e. omega arith, (refl, λ e. omega arith, (refl, λ e. omega arith, refl))),
  );
  layout = (
    omega arith,
    (inl (omega arith), (inl (omega arith), (inl (omega arith), tt))),
    (
      omega arith,
      (inl (omega arith), (inl (omega arith), tt)),
      (omega arith, (inl (omega arith), tt), (omega arith, tt, tt)),
    ),
  );
}

heap3-count : heap3.vm.free_count ≡ 0
unfolding kmalloc allocate_page allocate map_page allocate_pages_contig
heap3-count = refl

test_scheduler-Passes_example :
    (t : Kernel) × (test_scheduler 5 4 0x10000 0x11000 0x12000 0x13000 empty
      ≡ ok (scheduler_report empty.process_number 5 5, t))
    × (t.process_list ≡ 0)
    × (t.current_process ≡ 0)
    × IsHeap t.heap (0x500000 ∷ 0x500039 ∷ 0x500072 ∷ 0x5000AB ∷ [])
test_scheduler-Passes_example =
    test_scheduler-Passes 5 4 0x10000 0x11000 0x12000 0x13000 empty 0x500009 0x500042 0x50007B heap1
      heap2 heap3 (0x500000 ∷ 0x500039 ∷ 0x500072 ∷ 0x5000AB ∷ []) (omega arith)
      (record {
        nonzero = (λ e. omega arith, λ e. omega arith, λ e. omega arith);
        distinct = (refl, (refl, (refl, tt)));
      })
      room1 room2 room3 (rw heap3-count (omega arith)) heap3-IsHeap (omega arith)
