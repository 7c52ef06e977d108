-- ===== src/Process/Created/KernelMode.antt =====
-- What `create_process` of kernel/process.c leaves of the heap for a process in kernel mode.
use my_kernel.Common.{ℕ, ◌≡◌, ◌≢◌, refl, sym, ap, ◌∙◌, inl, inr, false, arith, ◌==◌, Bool-cases}
use my_kernel.Common.Run.{Run, ok, fault, out_of_fuel, ◌>>=◌}
use my_kernel.Pmm.Virtual.{allocate_pages_contig}
use my_kernel.Pmm.Heap.{Heap, kmalloc}
use my_kernel.Process.{Process, Kernel, add_process}
use my_kernel.Process.Create.{
  sizeof_process, user_part, fill_process, finish_process, stack_part, process_part, create_process,
}

-- The heap behind the allocation of the process and of its kernel stack.
abbrev pub behind : Heap → Heap
behind heap = record heap { vm = (allocate_pages_contig 4 3 heap.vm).1 }

-- The heap of a result.
abbrev heap_of : Heap → Run Kernel → Heap
heap_of h (ok k) = k.heap
heap_of h fault = h
heap_of h out_of_fuel = h

bind-heap :
    (k : Kernel) (run : Run (ℕ → Process))
    → heap_of k.heap (do proc ← run; ok (record k { proc = proc })) ≡ k.heap
bind-heap k (ok f) = refl
bind-heap k fault = refl
bind-heap k out_of_fuel = refl

add_process-heap : (fuel pro : ℕ) (k : Kernel) → heap_of k.heap (add_process fuel pro k) ≡ k.heap
unfolding add_process
add_process-heap fuel pro k = elim (Bool-cases (k.process_list == 0)) [
  | inl y ↦ rw y refl
  | inr n ↦ rw n (bind-heap k _)
]

paired-heap :
    (pro : ℕ) (run : Run Kernel) (t : Kernel) (h : Heap)
    → ◌>>=◌ {B = ℕ × Kernel} run (λ u. ok (pro, u)) ≡ ok (pro, t)
    → heap_of h run ≡ t.heap
paired-heap pro (ok u) t h e = ap second e
  where
    second : Run (ℕ × Kernel) → Heap
    second (ok v) = v.1.heap
    second fault = h
    second out_of_fuel = h
paired-heap pro fault t h e = cc e
paired-heap pro out_of_fuel t h e = cc e

-- With `create_process-Created` for a process in kernel mode: what the heap is afterwards.
pub create_process-behind :
    (blocks fuel process_entry entry : ℕ) (k t : Kernel) (pro : ℕ) (heap : Heap)
    → kmalloc blocks sizeof_process 3 k.heap ≡ ok (pro, heap)
    → pro ≢ 0
    → (allocate_pages_contig 4 3 heap.vm).0 ≢ 0
    → create_process blocks fuel process_entry entry 0 k ≡ ok (pro, t)
    → t.heap ≡ behind heap
unfolding create_process process_part stack_part user_part finish_process fill_process
create_process-behind blocks fuel process_entry entry k t pro heap m nz there e =
    let stack = (allocate_pages_contig 4 3 heap.vm).0 in
    let x : (pro == 0) ≡ false = ground arith in
    let y : (stack == 0) ≡ false = ground arith in
    let f = rw (m, x, y) at e in
    let u = fill_process process_entry entry 0 pro stack 0 (record k { heap = behind heap }) in
    sym (paired-heap pro (add_process fuel pro u) t (behind heap) f) ∙ add_process-heap fuel pro u
