-- ===== src/Pmm/Heap/Release.antt =====
-- `kfree` of kernel/pmm.c.
use my_kernel.Common.{
  ℕ, zero, suc, ◌+◌, ◌%◌, ◌^◌, ◌<◌, ◌≡◌, ◌≢◌, refl, ap, ◌⊎◌, inl, inr, true, false, List, [], ◌∷◌,
  ◌++◌, arith, ◌==◌, length, Bool-cases,
}
use my_kernel.Pmm.Heap.{Block, Heap, ok, put, kfree_loop, kfree, sizeof_block}
use my_kernel.Pmm.Heap.Chain.{Chain, SameOn-put, Chain-same, Chain-split, Chain-join, Layout}
use my_kernel.Pmm.Heap.Place.{inside-Fresh, Layout-parts, Layout-resized, put_self}

-- The address that `kmalloc` returns for a block.
abbrev pub user_addr : ℕ → ℕ
user_addr a = (a + sizeof_block) % 2 ^ 32

abbrev pub NotIn : ℕ → List ℕ → Type 0
NotIn addr [] = Unit {0}
NotIn addr (x ∷ xs) = (user_addr x ≢ addr) × NotIn addr xs

abbrev pub freed : (ℕ → Block) → ℕ → ℕ → Block
freed block a = put block a (record (block a) { type = 1 })

-- The walk frees the first block with the address, or ends without a change.
pub kfree_loop-cases :
    (fuel addr : ℕ) (block : ℕ → Block) (p : ℕ) (xs : List ℕ)
    → Chain block 0 p xs
    → length xs < fuel
    → ((kfree_loop fuel addr p block ≡ ok block) × NotIn addr xs)
      ⊎ ((a : ℕ) × (before : List ℕ) × (behind : List ℕ) × (xs ≡ before ++ a ∷ behind)
          × (user_addr a ≡ addr)
          × (kfree_loop fuel addr p block ≡ ok (freed block a)))
unfolding kfree_loop
kfree_loop-cases zero addr block p xs c h = absurd (omega arith)
kfree_loop-cases (suc fuel) addr block p [] c h =
    let z : (p == 0) ≡ true = ground arith in inl (rw z, tt)
kfree_loop-cases (suc fuel) addr block p (x ∷ xs) (e, nz, c) h =
    let z : (p == 0) ≡ false = ground arith in
    elim (Bool-cases (user_addr x == addr)) [
      | inl y ↦ inr (x, [], xs, refl, ground arith, rw (z, e, y))
      | inr n ↦ elim (kfree_loop-cases fuel addr block (block x).next xs c (omega arith)) [
        | inl (q, k) ↦ inl (rw (z, e, n) q, (ground arith, k))
        | inr (a, before, behind, s, u, q) ↦
            inr (a, x ∷ before, behind, ap (λ t. x ∷ t) s, u, rw (z, e, n) q)
      ]
    ]

-- The blocks of the heap are the list, and do not overlap.
pub record IsHeap (h : Heap) (xs : List ℕ) : Type 0 where
  pub chain : Chain h.block 0 h.heap_head xs
  pub layout : Layout h.block xs

pub freed-IsHeap :
    (h : Heap) (xs ys : List ℕ) (a : ℕ)
    → IsHeap h (xs ++ a ∷ ys)
    → IsHeap (record h { block = freed h.block a }) (xs ++ a ∷ ys)
freed-IsHeap h xs ys a i =
    let b = h.block in
    let v : Block = record (b a) { type = 1 } in
    let c = put b a v in
    let (ax, ay, e) = Layout-parts b xs ys a i.layout in
    let sx = SameOn-put xs b a v (inside-Fresh b a a xs (omega arith) (omega arith) ax) in
    let sy = SameOn-put ys b a v (inside-Fresh b a a ys (omega arith) (omega arith) ay) in
    let (cx, nz, cy) = Chain-split xs ys b 0 h.heap_head a i.chain in
    let self = put_self b a v in
    record {
      chain =
          Chain-join xs (a ∷ ys) c 0 a h.heap_head (Chain-same xs b c a h.heap_head sx cx)
            (refl, nz, rw self (Chain-same ys b c 0 (b a).next sy cy));
      layout = Layout-resized b c a xs ys (rw self) sx sy i.layout;
    }

-- Over the blocks of a heap, with fuel for each and the end, `kfree` marks the block that has the
-- address as free and keeps the list of blocks. At any other address it changes nothing.
pub kfree-IsHeap :
    (fuel addr : ℕ) (h : Heap) (xs : List ℕ)
    → IsHeap h xs
    → length xs < fuel
    → ((kfree fuel addr h ≡ ok h) × NotIn addr xs)
      ⊎ ((a : ℕ) × (user_addr a ≡ addr)
          × (kfree fuel addr h ≡ ok (record h { block = freed h.block a }))
          × ((freed h.block a a).type ≡ 1)
          × IsHeap (record h { block = freed h.block a }) xs)
unfolding kfree
kfree-IsHeap fuel addr h xs i f =
    elim (kfree_loop-cases fuel addr h.block h.heap_head xs i.chain f) [
      | inl (q, n) ↦ inl (rw q, n)
      | inr (a, before, behind, s, u, q) ↦ inr (
        a,
        u,
        rw q,
        rw (put_self h.block a (record (h.block a) { type = 1 })),
        rw s (freed-IsHeap h before behind a (rw s at i)),
      )
    ]
