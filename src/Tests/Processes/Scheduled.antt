-- ===== src/Tests/Processes/Scheduled.antt =====
-- `test_scheduler` of kernel/tests.c.
use my_kernel.Common.{
  ℕ, ◌+◌, ◌%◌, ◌^◌, ◌≤◌, ◌<◌, ◌≡◌, ◌≢◌, refl, ap, ◌∙◌, ◌⊎◌, inl, inr, false, List, [], ◌∷◌, arith,
  ◌==◌, length,
}
use my_kernel.Common.Run.{ok}
use my_kernel.Pmm.Regions.{max_free_pages}
use my_kernel.Pmm.Virtual.Contig.{allocate_pages_contig-free_count}
use my_kernel.Pmm.Heap.{Heap}
use my_kernel.Pmm.Heap.Release.{IsHeap}
use my_kernel.Process.{Process, Kernel, remove_process_list, schedule}
use my_kernel.Process.Links.{Links}
use my_kernel.Process.Circle.{Distinct}
use my_kernel.Process.Create.{create_process}
use my_kernel.Process.Created.KernelMode.{behind}
use my_kernel.Process.Remove.{remove_process_list-Removed}
use my_kernel.Tests.Processes.{link_three, scheduler_report, schedule_three, test_scheduler}
use my_kernel.Tests.Processes.Linked.{
  Three, apart, at_first, at_second, linked, link_three-heap, schedule_second,
}
use my_kernel.Tests.Processes.Listed.{Room, made}

-- The first process of the list is removed.
remove_first :
    (blocks fuel pro : ℕ) (k : Kernel) (ys bs : List ℕ)
    → Links k.proc 0 k.process_list (pro ∷ ys)
    → Distinct (pro ∷ ys)
    → 0 < fuel
    → k.heap.vm.free_count < max_free_pages
    → IsHeap k.heap bs
    → length bs < blocks
    → (t : Kernel) × (remove_process_list blocks fuel pro k ≡ ok t)
      × Links t.proc 0 t.process_list ys
      × IsHeap t.heap bs
      × (t.heap.vm.free_count ≡ k.heap.vm.free_count + 1)
remove_first blocks fuel pro k ys bs l d some_fuel room i more =
    let (t, h, e, u, g) =
      remove_process_list-Removed blocks fuel pro k [] ys bs l d (omega arith) room i more in
    (record t { heap = h }, e, u.links, g.heap, g.count)

module _ (p1 p2 p3 : ℕ) (k : Kernel) (three : Three p1 p2 p3) where
  -- The calls that `schedule_three` makes, in order.
  schedule_three-calls :
      (blocks fuel : ℕ) (u v w : Kernel)
      → schedule fuel (link_three p1 p2 p3 k) ≡ ok p2
      → remove_process_list blocks fuel p1 (link_three p1 p2 p3 k) ≡ ok u
      → remove_process_list blocks fuel p2 u ≡ ok v
      → remove_process_list blocks fuel p3 v ≡ ok w
      → schedule_three blocks fuel p1 p2 p3 k
        ≡ ok (
          scheduler_report
              ((link_three p1 p2 p3 k).proc p1).pid
              ((link_three p1 p2 p3 k).proc p2).pid
              ((link_three p1 p2 p3 k).proc p2).pid,
          record w { current_process = 0; process_list = 0 },
        )
  unfolding schedule_three
  schedule_three-calls blocks fuel u v w e e1 e2 e3 =
      let a : (p1 == 0) ≡ false = ground (arith, three.nonzero.0) in
      let b : (p2 == 0) ≡ false = ground (arith, three.nonzero.1) in
      let c : (p3 == 0) ≡ false = ground (arith, three.nonzero.2) in
      rw (a, b, c, e, b, e1, e2, e3) refl

  schedule_three-passes :
      (blocks fuel : ℕ) (bs : List ℕ)
      → 4 ≤ fuel
      → k.heap.vm.free_count + 3 ≤ max_free_pages
      → IsHeap k.heap bs
      → length bs < blocks
      → (t : Kernel) × (schedule_three blocks fuel p1 p2 p3 k
          ≡ ok (scheduler_report (k.proc p1).pid (k.proc p2).pid (k.proc p2).pid, t))
        × (t.process_list ≡ 0)
        × (t.current_process ≡ 0)
        × IsHeap t.heap bs
  schedule_three-passes blocks fuel bs enough room i more =
      let t = link_three p1 p2 p3 k in
      let same : t.heap ≡ k.heap = link_three-heap p1 p2 p3 k three in
      let count : t.heap.vm.free_count ≡ k.heap.vm.free_count =
        ap (λ (x : Heap). x.vm.free_count) same in
      let (u, e1, l1, i1, c1) =
        remove_first blocks fuel p1 t (p2 ∷ p3 ∷ []) bs (linked p1 p2 p3 k three) three.distinct
          (omega arith) (omega arith) (rw same i) more in
      let (v, e2, l2, i2, c2) =
        remove_first blocks fuel p2 u (p3 ∷ []) bs l1 three.distinct.1 (omega arith) (omega arith)
          i1 more in
      let (w, e3, l3, i3, c3) =
        remove_first blocks fuel p3 v [] bs l2 three.distinct.1.1 (omega arith) (omega arith) i2
          more in
      let e = schedule_second p1 p2 p3 k three fuel enough in
      (
        record w { current_process = 0; process_list = 0 },
        rw⁻¹
            (
              ap (λ (p : Process). p.pid) (at_first p1 p2 p3 k three),
              ap (λ (p : Process). p.pid) (at_second p1 p2 p3 k three),
            )
            (schedule_three-calls blocks fuel u v w e e1 e2 e3),
        refl,
        refl,
        i3,
      )

-- No other field than `next` changes.
pid_kept : (p q : Process) (n : ℕ) → (p ≡ q) ⊎ (p ≡ record q { next = n }) → p.pid ≡ q.pid
pid_kept p q n (inl e) = ap (λ (x : Process). x.pid) e
pid_kept p q n (inr e) = ap (λ (x : Process). x.pid) e

-- The calls that `test_scheduler` makes, in order.
test_scheduler-calls :
    (blocks fuel process_entry task1 task2 task3 : ℕ) (k t u v w : Kernel) (p1 p2 p3 : ℕ)
    {n1 n2 : ℕ}
    → create_process blocks fuel process_entry task1 0
        (record k { process_list = 0; current_process = 0 })
      ≡ ok (p1, t)
    → create_process blocks fuel process_entry task2 0 t ≡ ok (p2, u)
    → create_process blocks fuel process_entry task3 0 u ≡ ok (p3, v)
    → schedule_three blocks fuel p1 p2 p3 v
      ≡ ok (scheduler_report (v.proc p1).pid (v.proc p2).pid (v.proc p2).pid, w)
    → (v.proc p1).pid ≡ n1
    → (v.proc p2).pid ≡ n2
    → test_scheduler blocks fuel process_entry task1 task2 task3 k
      ≡ ok (scheduler_report n1 n2 n2, w)
unfolding test_scheduler
test_scheduler-calls blocks fuel process_entry task1 task2 task3 k t u v w p1 p2 p3 e e' e'' f a b =
    rw (e, e', e'') (f ∙ rw (a, b) refl)

-- With fuel for three processes: when the heap has blocks for three different processes and pages
-- for their kernel stacks, its blocks are a list without overlap, and the array of freed addresses
-- has room for three, `test_scheduler` prints the number of the first process as the current one,
-- and as the next one the number that it expects, that of the second process. It leaves no process.
pub test_scheduler-Passes :
    (blocks fuel process_entry task1 task2 task3 : ℕ) (k : Kernel) (p1 p2 p3 : ℕ)
    (heap1 heap2 heap3 : Heap) (bs : List ℕ)
    → 4 ≤ fuel
    → Three p1 p2 p3
    → Room blocks k.heap p1 heap1
    → Room blocks (behind heap1) p2 heap2
    → Room blocks (behind heap2) p3 heap3
    → heap3.vm.free_count + 3 ≤ max_free_pages
    → IsHeap heap3 bs
    → length bs < blocks
    → let n = (k.process_number + 1) % 2 ^ 16 in
      (t : Kernel) × (test_scheduler blocks fuel process_entry task1 task2 task3 k
        ≡ ok (scheduler_report k.process_number n n, t))
      × (t.process_list ≡ 0)
      × (t.current_process ≡ 0)
      × IsHeap t.heap bs
test_scheduler-Passes blocks fuel process_entry task1 task2 task3 k p1 p2 p3 heap1 heap2 heap3 bs
      enough three r1 r2 r3 room i more =
    let k' = record k { process_list = 0; current_process = 0 } in
    let (a, b, a', c, b', c') = apart p1 p2 p3 k three in
    let e3 : 3 ≤ fuel = omega arith in
    let (t, e, x, h) =
      made blocks fuel process_entry e3 task1 k' [] p1 heap1 refl tt (omega arith) refl r1 in
    let (u, e', x', h') =
      made blocks fuel process_entry e3 task2 t (p1 ∷ []) p2 heap2 x.links (refl, tt) (omega arith)
        (rw a' refl) (rw h r2) in
    let (v, e'', x'', h'') =
      made blocks fuel process_entry e3 task3 u (p1 ∷ p2 ∷ []) p3 heap3 x'.links
        (rw a refl, (refl, tt)) (omega arith) (rw (b', c') refl) (rw h' r3) in
    let ne12 : p1 ≢ p2 = ground arith in
    let ne13 : p1 ≢ p3 = ground arith in
    let ne23 : p2 ≢ p3 = ground arith in
    let n1 : (v.proc p1).pid ≡ k.process_number =
      pid_kept _ _ p3 (x''.others p1 ne13) ∙ pid_kept _ _ p2 (x'.others p1 ne12) ∙ x.pid in
    let n2 : (v.proc p2).pid ≡ (k.process_number + 1) % 2 ^ 16 =
      pid_kept _ _ p3 (x''.others p2 ne23) ∙ x'.pid ∙ x.number in
    let count : v.heap.vm.free_count ≡ heap3.vm.free_count =
      ap (λ (g : Heap). g.vm.free_count) h'' ∙ allocate_pages_contig-free_count 4 3 heap3.vm in
    let j : IsHeap v.heap bs = rw h'' (record { chain = i.chain; layout = i.layout }) in
    let (w, f, none_left, none_runs, l) =
      schedule_three-passes p1 p2 p3 v three blocks fuel bs enough (omega (arith, count)) j more in
    (
      w,
      test_scheduler-calls blocks fuel process_entry task1 task2 task3 k t u v w p1 p2 p3 e e' e'' f
          n1 n2,
      none_left,
      none_runs,
      l,
    )
