-- ===== src/Process/Remove/Examples.antt =====
-- A test of `remove_process_list` of kernel/process.c: the second of three processes is removed.
use my_kernel.Common.{◌≡◌, refl, [], ◌∷◌, arith}
use my_kernel.Common.Run.{ok}
use my_kernel.Pmm.Heap.{Heap}
use my_kernel.Process.{Kernel, remove_process_list}
use my_kernel.Process.Examples.{three, three-Links}
use my_kernel.Process.Created.Examples.{empty_heap}
use my_kernel.Process.Remove.{Unlinked, GivenBack, remove_process_list-Removed}

abbrev with_heap : Kernel
with_heap = record (three 0x1000) { heap = empty_heap }

remove_process_list-Removed_example :
    (t : Kernel) × (h : Heap) × (remove_process_list 1 4 0x2000 with_heap
      ≡ ok (record t { heap = h }))
    × Unlinked 0x2000 (0x1000 ∷ []) (0x3000 ∷ []) with_heap t
    × GivenBack 1 0x2000 (with_heap.proc 0x2000).kernel_stack [] empty_heap h
remove_process_list-Removed_example =
    remove_process_list-Removed 1 4 0x2000 with_heap (0x1000 ∷ []) (0x3000 ∷ []) []
      (three-Links 0x1000) (refl, (refl, (refl, tt))) (omega arith) (omega arith)
      (record { chain = refl; layout = tt }) (omega arith)
