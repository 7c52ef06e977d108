-- ===== src/Pmm/Heap/Lost.antt =====
-- Blocks that `kmalloc` of kernel/pmm.c drops from its list when it takes a new page.
use my_kernel.Common.{
  ℕ, ◌+◌, ◌^◌, ◌≤◌, ◌<◌, ◌≡◌, ◌≢◌, refl, ◌⊎◌, inl, inr, List, [], ◌∷◌, ◌++◌, arith, length,
  append_assoc, length-append,
}
use my_kernel.Pmm.Virtual.{Vm, default_flag, allocate_page}
use my_kernel.Pmm.Heap.{Block, Heap, Run, ok, ◌>>=◌, sizeof_block, place, kmalloc, kfree}
use my_kernel.Pmm.Heap.Chain.{Chain, block_end, ApartFrom, Layout}
use my_kernel.Pmm.Heap.Scan.{NoneFits}
use my_kernel.Pmm.Heap.Place.{Layout-parts}
use my_kernel.Pmm.Heap.Release.{IsHeap, user_addr, NotIn, freed, kfree_loop-cases, kfree-IsHeap}
use my_kernel.Pmm.Heap.Grow.{
  PageApart, Layout-front, ApartFrom-front, linked, linked_page, kmalloc-Grows,
}

NotIn-append : (addr : ℕ) (xs ys : List ℕ) → NotIn addr xs → NotIn addr ys → NotIn addr (xs ++ ys)
NotIn-append addr [] ys h k = k
NotIn-append addr (x ∷ xs) ys h k = (h.0, NotIn-append addr xs ys h.1 k)

NotIn-at : (addr : ℕ) (xs ys : List ℕ) (a : ℕ) → NotIn addr (xs ++ a ∷ ys) → user_addr a ≢ addr
NotIn-at addr [] ys a h = h.0
NotIn-at addr (x ∷ xs) ys a h = NotIn-at addr xs ys a h.1

-- `kfree` of an address that no block of the heap has changes nothing.
pub kfree-NotIn :
    (fuel addr : ℕ) (h : Heap) (xs : List ℕ)
    → Chain h.block 0 h.heap_head xs
    → length xs < fuel
    → NotIn addr xs
    → kfree fuel addr h ≡ ok h
unfolding kfree
kfree-NotIn fuel addr h xs c f n = elim (kfree_loop-cases fuel addr h.block h.heap_head xs c f) [
  | inl (q, _) ↦ rw q
  | inr (a, before, behind, s, u, q) ↦ absurd (NotIn-at addr before behind a (rw s at n) u)
]

apart-NotIn :
    (b : ℕ → Block) (a : ℕ) (zs : List ℕ)
    → block_end b a < 2 ^ 32
    → ApartFrom b a zs
    → Layout b zs
    → NotIn (user_addr a) zs
apart-NotIn b a [] e k l = tt
apart-NotIn b a (z ∷ zs) e k l = (ground arith, apart-NotIn b a zs e k.1 l.2)

PageApart-at :
    (b : ℕ → Block) (page : ℕ) (xs ys : List ℕ) (a : ℕ)
    → PageApart b page (xs ++ a ∷ ys)
    → (block_end b a ≤ page) ⊎ (page + 4096 ≤ a)
PageApart-at b page [] ys a p = p.0
PageApart-at b page (x ∷ xs) ys a p = PageApart-at b page xs ys a p.1

module _ (b : ℕ → Block) (page current a size : ℕ) (xs mid rest : List ℕ)
    (lay : Layout b (xs ++ current ∷ (mid ++ a ∷ rest)))
    (apart : PageApart b page (xs ++ current ∷ (mid ++ a ∷ rest)))
    (low : page + 4096 < 2 ^ 32) where
  regroup : (xs ++ current ∷ mid) ++ a ∷ rest ≡ xs ++ current ∷ (mid ++ a ∷ rest)
  regroup = append_assoc xs (current ∷ mid) (a ∷ rest)

  front_NotIn : NotIn (user_addr a) (xs ++ current ∷ [])
  front_NotIn =
      let e : (xs ++ current ∷ []) ++ mid ≡ xs ++ current ∷ mid =
        append_assoc xs (current ∷ []) mid in
      let l : Layout b ((xs ++ current ∷ mid) ++ a ∷ rest) = rw regroup lay in
      let (p, _, q) = Layout-parts b (xs ++ current ∷ mid) rest a l in
      let f : Layout b (xs ++ current ∷ mid) = Layout-front b (xs ++ current ∷ mid) (a ∷ rest) l in
      apart-NotIn b a (xs ++ current ∷ []) q (ApartFrom-front b a (xs ++ current ∷ []) mid (rw e p))
        (Layout-front b (xs ++ current ∷ []) mid (rw e f))

  page_side : ((block_end b a ≤ page) ⊎ (page + 4096 ≤ a)) × (block_end b a < 2 ^ 32)
  page_side = (
    PageApart-at b page (xs ++ current ∷ mid) rest a (rw regroup apart),
    (Layout-parts b (xs ++ current ∷ mid) rest a (rw regroup lay)).2,
  )

  kept_NotIn :
      (list : List ℕ)
      → (list ≡ (xs ++ current ∷ []) ++ page ∷ [])
        ⊎ ((list ≡ (xs ++ current ∷ []) ++ page ∷ (page + sizeof_block + size) ∷ [])
            × (size + sizeof_block ≤ 4087))
      → (NotIn (user_addr a) list) × (length list ≤ length xs + 3)
  kept_NotIn list (inl e) = (
    rw e (
        NotIn-append (user_addr a) (xs ++ current ∷ []) (page ∷ []) front_NotIn
          (ground (arith, page_side), tt)),
    rw e (
        omega (
          arith,
          length-append {0} (xs ++ current ∷ []) (page ∷ []),
          length-append {0} xs (current ∷ []),
        )),
  )
  kept_NotIn list (inr (e, s)) =
      let n = page + sizeof_block + size in
      (
        rw e (
            NotIn-append (user_addr a) (xs ++ current ∷ []) (page ∷ n ∷ []) front_NotIn
              (ground (arith, page_side), (ground (arith, page_side), tt))),
        rw e (
            omega (
              arith,
              length-append {0} (xs ++ current ∷ []) (page ∷ n ∷ []),
              length-append {0} xs (current ∷ []),
            )),
      )

-- Calls of `kfree`, one after the other.
abbrev pub kfrees : ℕ → List ℕ → Heap → Run Heap
kfrees fuel [] h = ok h
kfrees fuel (addr ∷ more) h = do t ← kfree fuel addr h; kfrees fuel more t

-- No sequence of them brings a block back into the list.
kfrees-NotIn :
    (fuel addr : ℕ) (more : List ℕ) (h : Heap) (xs : List ℕ)
    → IsHeap h xs
    → length xs < fuel
    → NotIn addr xs
    → (t : Heap) × (kfrees fuel more h ≡ ok t) × (kfree fuel addr t ≡ ok t)
kfrees-NotIn fuel addr [] h xs i f n = (h, refl, kfree-NotIn fuel addr h xs i.chain f n)
kfrees-NotIn fuel addr (x ∷ more) h xs i f n = elim (kfree-IsHeap fuel x h xs i f) [
  | inl (e, _) ↦ let (t, g, k) = kfrees-NotIn fuel addr more h xs i f n in (t, rw e g, k)
  | inr (a, _, e, _, j) ↦
      let (t, g, k) = kfrees-NotIn fuel addr more (record h { block = freed h.block a }) xs j f n in
      (t, rw e g, k)
]

-- A block that stands behind `current_block` when `kmalloc` takes a new page is lost: after that
-- `kmalloc`, and any number of calls of `kfree` behind it, a `kfree` of its address changes nothing.
pub kmalloc_loses :
    (fuel fuel' size flag page : ℕ) (vm : Vm) (h : Heap) (xs mid rest : List ℕ) (a : ℕ)
    → IsHeap h (xs ++ h.current_block ∷ (mid ++ a ∷ rest))
    → 0 < size
    → size ≤ 4087
    → h.heap_head ≢ 0
    → length (xs ++ h.current_block ∷ (mid ++ a ∷ rest)) < fuel
    → NoneFits h.block size (xs ++ h.current_block ∷ (mid ++ a ∷ rest))
    → allocate_page (default_flag flag) h.vm ≡ (page, vm)
    → page ≢ 0
    → PageApart h.block page (xs ++ h.current_block ∷ (mid ++ a ∷ rest))
    → page + 4096 < 2 ^ 32
    → length xs + 3 < fuel'
    → (h' : Heap) × (kmalloc fuel size flag h ≡ ok (user_addr page, h'))
      × ((more : List ℕ)
          → (t : Heap) × (kfrees fuel' more h' ≡ ok t) × (kfree fuel' (user_addr a) t ≡ ok t))
kmalloc_loses fuel fuel' size flag page vm h xs mid rest a i pos small nz enough full taken np apart
      low f =
    let ys = mid ++ a ∷ rest in
    let b = linked h.block page h.current_block in
    let g =
      kmalloc-Grows fuel size flag page vm h xs ys i pos nz enough full taken np apart low small in
    let e =
      linked_page h.block h.heap_head page h.current_block xs ys i.chain i.layout apart np low in
    let split : (g.placed.list ≡ (xs ++ h.current_block ∷ []) ++ page ∷ [])
        ⊎ ((g.placed.list
              ≡ (xs ++ h.current_block ∷ []) ++ page ∷ (page + sizeof_block + size) ∷ [])
            × (size + sizeof_block ≤ 4087)) =
      rw e at g.placed.inserted in
    let (n, l) =
      kept_NotIn h.block page h.current_block a size xs mid rest i.layout apart low g.placed.list
        split in
    (
      record h { vm = vm; block = place size page b; current_block = page },
      g.result,
      λ more.
          kfrees-NotIn fuel' (user_addr a) more
            (record h { vm = vm; block = place size page b; current_block = page }) g.placed.list
            (record { chain = g.placed.chain; layout = g.placed.layout }) (omega arith) n,
    )
