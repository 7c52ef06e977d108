-- ===== src/Tests/Blocks.antt =====
-- The tests of the kernel heap in kernel/tests.c, and `run_tests`. The first fuel of each test is
-- that of the walks over the heap.
use my_kernel.Common.{ℕ, List, [], ◌∷◌, ◌++◌}
use my_kernel.Common.Run.{Run, ok, ◌>>=◌}
use my_kernel.Pmm.Paging.{Paging}
use my_kernel.Pmm.Virtual.{Vm}
use my_kernel.Pmm.Heap.{Heap, kmalloc, kfree}
use my_kernel.Pmm.Print.{inspect}
use my_kernel.Process.{Kernel}
use my_kernel.Vga.Output.{Output, text, hex}
use my_kernel.Tests.{test_paging, test_allocation, test_page_alloc_free, test_mapping}
use my_kernel.Tests.Processes.{test_process_list}

unfoldable pub test_kmalloc : ℕ → Heap → Run (List Output × Heap)
test_kmalloc fuel h = do
  a ← kmalloc fuel 100 3 h
  b ← kmalloc fuel 200 3 a.1
  c ← kmalloc fuel 300 3 b.1
  lines ← inspect fuel c.1
  ok (
    (text "\nTEST: kmalloc\n"
          ∷ text "a="
          ∷ hex a.0
          ∷ text "\nb="
          ∷ hex b.0
          ∷ text "\nc="
          ∷ hex c.0
          ∷ text "\n"
          ∷ [])
        ++ lines,
    c.1,
  )

-- What `test_kfree` prints of the three addresses.
abbrev pub kfree_report : ℕ → ℕ → ℕ → List Output
kfree_report a b c =
    text "\nTEST: kfree\n"
    ∷ text "a="
    ∷ hex a
    ∷ text "\nb="
    ∷ hex b
    ∷ text "\nfree a\n"
    ∷ text "c="
    ∷ hex c
    ∷ text "\n"
    ∷ []

unfoldable pub test_kfree : ℕ → Heap → Run (List Output × Heap)
test_kfree fuel h = do
  a ← kmalloc fuel 100 3 h
  b ← kmalloc fuel 200 3 a.1
  freed ← kfree fuel a.0 b.1
  c ← kmalloc fuel 50 3 freed
  ok (kfree_report a.0 b.0 c.0, c.1)

-- A test of the heap, of the virtual pages or of the page tables, run on the kernel.
abbrev pub on_heap : Run (List Output × Heap) → Kernel → Run (List Output × Kernel)
on_heap run k = do done ← run; ok (done.0, record k { heap = done.1 })

abbrev pub on_vm : Run (List Output × Vm) → Kernel → Run (List Output × Kernel)
on_vm run k = do done ← run; ok (done.0, record k { heap = record k.heap { vm = done.1 } })

abbrev pub on_paging : List Output × Paging → Kernel → Kernel
on_paging done k = record k { heap = record k.heap { vm = record k.heap.vm { paging = done.1 } } }

unfoldable pub run_tests : ℕ → ℕ → ℕ → ℕ → ℕ → ℕ → Kernel → Run (List Output × Kernel)
run_tests blocks fuel process_entry first task1 task2 k =
    let paging = test_paging first k.heap.vm.paging in
    let k1 = on_paging paging k in
    let allocation = test_allocation k1.heap.vm.paging in
    let k2 = on_paging allocation k1 in
    do
      malloc ← on_heap (test_kmalloc blocks k2.heap) k2
      freed ← on_heap (test_kfree blocks malloc.1.heap) malloc.1
      page ← on_vm (test_page_alloc_free freed.1.heap.vm) freed.1
      list ← test_process_list blocks fuel process_entry task1 task2 page.1
      (let mapping = test_mapping list.1.heap.vm.paging in
          ok (
            paging.0 ++ allocation.0 ++ malloc.0 ++ freed.0 ++ page.0 ++ list.0 ++ mapping.0,
            on_paging mapping list.1,
          ))
