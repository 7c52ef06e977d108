-- ===== src/Pmm/Heap/Examples.antt =====
-- Tests of the heap of kernel/pmm.c: two pages at 0x400000 and 0x401000, the first one current.
use my_kernel.Common.{List, ℕ, ◌≡◌, refl, ap, ◌⊎◌, inl, [], ◌∷◌, ◌==◌, arith, if◌then◌else◌}
use my_kernel.Pmm.Paging.Examples.{blank}
use my_kernel.Pmm.Virtual.{Vm, default_flag, allocate_page}
use my_kernel.Pmm.Virtual.Examples.{vm_with, fresh_page, default_flag-3}
use my_kernel.Pmm.Heap.{Block, Heap, ok, page_block, fits, grow, finish, kmalloc, kfree}
use my_kernel.Pmm.Heap.Scan.{NoneFits}
use my_kernel.Pmm.Heap.Malloc.{Serves, kmalloc-Serves}
use my_kernel.Pmm.Heap.Release.{IsHeap, NotIn, user_addr, freed, kfree-IsHeap}
use my_kernel.Pmm.Heap.Grow.{Grows, kmalloc-Grows}
use my_kernel.Pmm.Heap.Lost.{kfrees, kmalloc_loses}

-- Both blocks fill their page; their type is `type`.
abbrev blocks : ℕ → ℕ → Block
blocks type a = record page_block { type = type; next = if a == 0x400000 then 0x401000 else 0 }

abbrev two_pages : ℕ → Heap
two_pages type = record {
  vm = vm_with 0 blank;
  block = blocks type;
  heap_head = 0x400000;
  current_block = 0x400000;
}

two_pages-IsHeap : (type : ℕ) → IsHeap (two_pages type) (0x400000 ∷ 0x401000 ∷ [])
two_pages-IsHeap type = record {
  chain = (refl, λ e. omega arith, (refl, λ e. omega arith, refl));
  layout = (omega arith, (inl (omega arith), tt), (omega arith, tt, tt));
}

kmalloc-Serves_example :
    ((a : ℕ) × Serves 100
        (two_pages 1)
        (0x400000 ∷ 0x401000 ∷ [])
        (kmalloc 5 100 0 (two_pages 1))
        a)
    ⊎ (NoneFits (blocks 1) 100 (0x400000 ∷ 0x401000 ∷ [])
        × (kmalloc 5 100 0 (two_pages 1) ≡ ok (finish 100 (grow (default_flag 0) (two_pages 1)))))
kmalloc-Serves_example =
    kmalloc-Serves 5 100 0 (two_pages 1) (0x400000 ∷ 0x401000 ∷ []) (two_pages-IsHeap 1)
      (omega arith) (omega arith) (λ e. omega arith) (omega arith)

kfree-IsHeap_example :
    ((kfree 3 0x401009 (two_pages 2) ≡ ok (two_pages 2))
      × NotIn 0x401009 (0x400000 ∷ 0x401000 ∷ []))
    ⊎ ((a : ℕ) × (user_addr a ≡ 0x401009)
        × (kfree 3 0x401009 (two_pages 2)
            ≡ ok (record (two_pages 2) { block = freed (blocks 2) a }))
        × ((freed (blocks 2) a a).type ≡ 1)
        × IsHeap (record (two_pages 2) { block = freed (blocks 2) a }) (0x400000 ∷ 0x401000 ∷ []))
kfree-IsHeap_example =
    kfree-IsHeap 3 0x401009 (two_pages 2) (0x400000 ∷ 0x401000 ∷ []) (two_pages-IsHeap 2)
      (omega arith)

used : (size : ℕ) → NoneFits (blocks 2) size (0x400000 ∷ 0x401000 ∷ [])
unfolding fits
used size = (refl, (refl, tt))

abbrev vm_after : Vm
vm_after = (allocate_page 3 (vm_with 0 blank)).1

taken : allocate_page (default_flag 3) (vm_with 0 blank) ≡ (0x500000, vm_after)
taken = rw default_flag-3 (ap (λ p. (p, vm_after)) fresh_page)

kmalloc-Grows_example : Grows 100 0x500000 vm_after (two_pages 2) [] (kmalloc 3 100 3 (two_pages 2))
kmalloc-Grows_example =
    kmalloc-Grows 3 100 3 0x500000 vm_after (two_pages 2) [] (0x401000 ∷ []) (two_pages-IsHeap 2)
      (omega arith) (λ e. omega arith) (omega arith) (used 100) taken (λ e. omega arith)
      (inl (omega arith), (inl (omega arith), tt)) (omega arith) (omega arith)

kmalloc_loses_example :
    (h' : Heap) × (kmalloc 3 100 3 (two_pages 2) ≡ ok (user_addr 0x500000, h'))
    × ((more : List ℕ)
        → (t : Heap) × (kfrees 4 more h' ≡ ok t) × (kfree 4 (user_addr 0x401000) t ≡ ok t))
kmalloc_loses_example =
    kmalloc_loses 3 4 100 3 0x500000 vm_after (two_pages 2) [] [] [] 0x401000 (two_pages-IsHeap 2)
      (omega arith) (omega arith) (λ e. omega arith) (omega arith) (used 100) taken
      (λ e. omega arith) (inl (omega arith), (inl (omega arith), tt)) (omega arith) (omega arith)
