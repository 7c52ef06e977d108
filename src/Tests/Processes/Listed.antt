-- ===== src/Tests/Processes/Listed.antt =====
-- `test_process_list` of kernel/tests.c.
use my_kernel.Common.{
  ℕ, ◌+◌, ◌≤◌, ◌<◌, ◌≡◌, ◌≢◌, refl, ap, ◌∙◌, true, false, List, [], ◌∷◌, arith, ◌==◌, length,
}
use my_kernel.Common.Run.{ok}
use my_kernel.Pmm.Regions.{max_free_pages}
use my_kernel.Pmm.Virtual.{allocate_pages_contig}
use my_kernel.Pmm.Virtual.Contig.{allocate_pages_contig-free_count}
use my_kernel.Pmm.Heap.{Heap, kmalloc}
use my_kernel.Pmm.Heap.Release.{IsHeap}
use my_kernel.Process.{Kernel, find_process, remove_process_list}
use my_kernel.Process.Links.{Links, has, pointer-has}
use my_kernel.Process.Circle.{Distinct}
use my_kernel.Process.Create.{sizeof_process, create_process}
use my_kernel.Process.Created.{Created, create_process-Created}
use my_kernel.Process.Created.KernelMode.{behind, create_process-behind}
use my_kernel.Process.Remove.{remove_process_list-Removed}
use my_kernel.Tests.Processes.{list_report, list_two, test_process_list}

-- There is a block for a process, and a kernel stack for it.
pub record Room (blocks : ℕ) (h : Heap) (pro : ℕ) (heap : Heap) : Type 0 where
  pub block : kmalloc blocks sizeof_process 3 h ≡ ok (pro, heap)
  pub nonzero : pro ≢ 0
  pub stack : (allocate_pages_contig 4 3 heap.vm).0 ≢ 0

module _ (blocks fuel process_entry : ℕ) (enough : 3 ≤ fuel) where
  -- A process in kernel mode behind those of the list.
  pub made :
      (entry : ℕ) (k : Kernel) (xs : List ℕ) (pro : ℕ) (heap : Heap)
      → Links k.proc 0 k.process_list xs
      → Distinct xs
      → length xs ≤ fuel
      → has pro xs ≡ false
      → Room blocks k.heap pro heap
      → (t : Kernel) × (create_process blocks fuel process_entry entry 0 k ≡ ok (pro, t))
        × Created k xs pro (allocate_pages_contig 4 3 heap.vm).0 0 process_entry entry 0 t
        × (t.heap ≡ behind heap)
  made entry k xs pro heap l d short new r =
      let (t, e, c) =
        create_process-Created blocks fuel process_entry entry 0 k xs pro heap l d short r.block
          r.nonzero new r.stack (λ h. absurd (omega (arith, h))) in
      (
        t,
        e,
        c,
        create_process-behind blocks fuel process_entry entry k t pro heap r.block r.nonzero r.stack
            e,
      )

  -- The calls that `list_two` makes, in order.
  list_two-calls :
      (task2 first second : ℕ) (k t u v : Kernel)
      → second ≢ 0
      → create_process blocks fuel process_entry task2 0 k ≡ ok (second, t)
      → (t.proc second).pid ≡ k.process_number
      → find_process fuel second t ≡ ok second
      → remove_process_list blocks fuel second t ≡ ok u
      → find_process fuel second u ≡ ok 0
      → remove_process_list blocks fuel first u ≡ ok v
      → list_two blocks fuel process_entry task2 first k
        ≡ ok (
          list_report (k.proc first).pid k.process_number true true,
          record v { current_process = 0; process_list = 0 },
        )
  unfolding list_two
  list_two-calls task2 first second k t u v nz e pid f r g q =
      let z : (second == 0) ≡ false = ground arith in
      let s : (second == second) ≡ true = ground arith in rw (e, z, f, r, g, q, s, pid) refl

  -- Behind the first process the list has one element.
  list_two-passes :
      (task2 first : ℕ) (k : Kernel) (second : ℕ) (heap : Heap) (bs : List ℕ)
      → Links k.proc 0 k.process_list (first ∷ [])
      → second ≢ first
      → Room blocks k.heap second heap
      → heap.vm.free_count + 2 ≤ max_free_pages
      → IsHeap heap bs
      → length bs < blocks
      → (t : Kernel) × (list_two blocks fuel process_entry task2 first k
          ≡ ok (list_report (k.proc first).pid k.process_number true true, t))
        × (t.process_list ≡ 0)
        × (t.current_process ≡ 0)
        × IsHeap t.heap bs
  list_two-passes task2 first k second heap bs l ne r room heap_ok more =
      let n : (second == first) ≡ false = ground arith in
      let s : (second == second) ≡ true = ground arith in
      let m : (first == second) ≡ false = ground arith in
      let (t, e, c, h) =
        made task2 k (first ∷ []) second heap l (refl, tt) (omega arith) (rw n refl) r in
      let (_, found) = pointer-has fuel second t (first ∷ second ∷ []) c.links (omega arith) in
      let b : IsHeap t.heap bs = rw h (record { chain = heap_ok.chain; layout = heap_ok.layout }) in
      let free : t.heap.vm.free_count ≡ heap.vm.free_count =
        ap (λ (g : Heap). g.vm.free_count) h ∙ allocate_pages_contig-free_count 4 3 heap.vm in
      let (u, g, e', x, back) =
        remove_process_list-Removed blocks fuel second t (first ∷ []) [] bs c.links
          (rw m refl, (refl, tt)) (omega arith) (omega (arith, free)) b more in
      let v = record u { heap = g } in
      let (_, gone) = pointer-has fuel second v (first ∷ []) x.links (omega arith) in
      let found' : find_process fuel second t ≡ ok second = found ∙ rw (n, s) refl in
      let gone' : find_process fuel second v ≡ ok 0 = gone ∙ rw n refl in
      let (w, g', e'', x', back') =
        remove_process_list-Removed blocks fuel first v [] [] bs x.links (refl, tt) (omega arith)
          (omega (arith, back.count, free)) back.heap more in
      (
        record w { heap = g'; current_process = 0; process_list = 0 },
        list_two-calls task2 first second k t v (record w { heap = g' }) r.nonzero e c.pid found' e'
            gone' e'',
        refl,
        refl,
        back'.heap,
      )

  -- With fuel for three processes: when the heap has blocks for two processes and pages for their
  -- kernel stacks, the blocks of the heap are a list without overlap, and the array of freed
  -- addresses has room for two, `test_process_list` prints the numbers 1 and 2, that the second
  -- process is found, and that it is gone once it is removed. It leaves no process, and the blocks
  -- of the heap are the same.
  pub test_process_list-Passes :
      (task1 task2 : ℕ) (k : Kernel) (first second : ℕ) (heap1 heap2 : Heap) (bs : List ℕ)
      → Room blocks k.heap first heap1
      → Room blocks (behind heap1) second heap2
      → second ≢ first
      → heap2.vm.free_count + 2 ≤ max_free_pages
      → IsHeap heap2 bs
      → length bs < blocks
      → (t : Kernel) × (test_process_list blocks fuel process_entry task1 task2 k
          ≡ ok (list_report 1 2 true true, t))
        × (t.process_list ≡ 0)
        × (t.current_process ≡ 0)
        × IsHeap t.heap bs
  unfolding test_process_list
  test_process_list-Passes task1 task2 k first second heap1 heap2 bs r1 r2 ne room heap_ok more =
      let k' = record k { process_list = 0; process_number = 1 } in
      let (t, e, c, h) = made task1 k' [] first heap1 refl tt (omega arith) refl r1 in
      let at : t.process_list ≡ first = c.links.0 in
      let z : (t.process_list == 0) ≡ false = rw at (ground (arith, r1.nonzero)) in
      let (u, e', none_left, none_runs, i) =
        list_two-passes task2 first t second heap2 bs c.links ne (rw h r2) room heap_ok more in
      (u, rw (e, z, at) (e' ∙ rw (c.pid, c.number) refl), none_left, none_runs, i)
