-- ===== src/Process/Created/Examples.antt =====
-- A test of `create_process` of kernel/process.c: a process in user mode joins three others.
use my_kernel.Common.{ℕ, ◌≡◌, refl, List, [], ◌∷◌, arith}
use my_kernel.Common.Run.{Run, ok, fault, out_of_fuel}
use my_kernel.Pmm.Regions.{Region, allocate}
use my_kernel.Pmm.Paging.{map_page}
use my_kernel.Pmm.Paging.Examples.{blank}
use my_kernel.Pmm.Virtual.{allocate_page, allocate_pages_contig}
use my_kernel.Pmm.Virtual.Examples.{vm_with}
use my_kernel.Pmm.Heap.{Heap, page_block, kmalloc}
use my_kernel.Process.{Kernel}
use my_kernel.Process.Examples.{three, three-Links}
use my_kernel.Process.Create.{create_process}
use my_kernel.Process.Created.{Created, create_process-Created}

abbrev pub memory : List Region
memory = (record { base = 0x100000; length = 0x10000; type = 1; acpi = 1 }) ∷ []

abbrev pub empty_heap : Heap
empty_heap = record {
  vm = vm_with 0 (record blank { regions = memory });
  block = λ a. page_block;
  heap_head = 0;
  current_block = 0;
}

abbrev pub with_memory : Kernel
with_memory = record (three 0x1000) { heap = empty_heap }

abbrev result : Run (ℕ × Heap) → ℕ × Heap
result (ok r) = r
result fault = (0, empty_heap)
result out_of_fuel = (0, empty_heap)

abbrev pub taken : ℕ × Heap
taken = result (kmalloc 4 48 3 empty_heap)

pub takes : kmalloc 4 48 3 empty_heap ≡ ok (0x500009, taken.1)
unfolding kmalloc allocate_page allocate map_page
takes = refl

pub kernel_stack_at : (allocate_pages_contig 4 3 taken.1.vm).0 ≡ 0x501000
unfolding kmalloc allocate_page allocate map_page allocate_pages_contig
kernel_stack_at = refl

pub user_stack_at : (allocate_page 7 (allocate_pages_contig 4 3 taken.1.vm).1).0 ≡ 0x505000
unfolding kmalloc allocate_page allocate map_page allocate_pages_contig
user_stack_at = refl

create_process-Created_example :
    (t : Kernel) × (create_process 4 3 0x10000 0x600000 1 with_memory ≡ ok (0x500009, t))
    × Created with_memory
        (0x1000 ∷ 0x2000 ∷ 0x3000 ∷ [])
        0x500009
        (allocate_pages_contig 4 3 taken.1.vm).0
        (allocate_page 7 (allocate_pages_contig 4 3 taken.1.vm).1).0
        0x10000
        0x600000
        1
        t
create_process-Created_example =
    create_process-Created 4 3 0x10000 0x600000 1 with_memory (0x1000 ∷ 0x2000 ∷ 0x3000 ∷ [])
      0x500009 taken.1 (three-Links 0) (refl, (refl, (refl, tt))) (omega arith) takes
      (λ e. omega arith) refl (rw kernel_stack_at (λ e. omega arith))
      (λ m. rw user_stack_at (λ e. omega arith))
