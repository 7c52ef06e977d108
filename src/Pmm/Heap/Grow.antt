-- ===== src/Pmm/Heap/Grow.antt =====
-- `kmalloc` of kernel/pmm.c when no block fits: the new page, and the blocks that it loses.
use my_kernel.Common.{
  ℕ, ◌+◌, ◌^◌, ◌≤◌, ◌<◌, ◌≡◌, ◌≢◌, refl, sym, ap, ◌∙◌, ◌⊎◌, inl, inr, false, List, [], ◌∷◌, ◌++◌,
  arith, leb, length, append_assoc,
}
use my_kernel.Pmm.Virtual.{Vm, default_flag, allocate_page}
use my_kernel.Pmm.Heap.{
  Block, Heap, Run, ok, put, fits, sizeof_block, page_block, place, finish, link_page, grow,
  kmalloc,
}
use my_kernel.Pmm.Heap.Chain.{
  Chain, Fresh, SameOn, SameOn-put, SameOn-trans, Chain-same, Chain-split, Chain-join, block_end,
  Apart, ApartFrom, Layout,
}
use my_kernel.Pmm.Heap.Scan.{NoneFits}
use my_kernel.Pmm.Heap.Place.{Placed, place-Placed, inside-Fresh, Layout-parts, put_self, put_other}
use my_kernel.Pmm.Heap.Release.{IsHeap, user_addr}
use my_kernel.Pmm.Heap.Malloc.{kmalloc-Serves}

-- The 4096 bytes of the page hold no byte of a block of the list.
abbrev pub PageApart : (ℕ → Block) → ℕ → List ℕ → Type 0
PageApart block page [] = Unit {0}
PageApart block page (x ∷ xs) =
    ((block_end block x ≤ page) ⊎ (page + 4096 ≤ x)) × PageApart block page xs

PageApart-Fresh :
    (block : ℕ → Block) (page : ℕ) (xs : List ℕ) → PageApart block page xs → Fresh page xs
PageApart-Fresh block page [] p = refl
PageApart-Fresh block page (x ∷ xs) p = ground (arith, PageApart-Fresh block page xs p.1)

PageApart-front :
    (block : ℕ → Block) (page : ℕ) (xs ys : List ℕ)
    → PageApart block page (xs ++ ys)
    → PageApart block page xs
PageApart-front block page [] ys p = tt
PageApart-front block page (x ∷ xs) ys p = (p.0, PageApart-front block page xs ys p.1)

pub ApartFrom-front :
    (block : ℕ → Block) (a : ℕ) (xs ys : List ℕ)
    → ApartFrom block a (xs ++ ys)
    → ApartFrom block a xs
ApartFrom-front block a [] ys k = tt
ApartFrom-front block a (x ∷ xs) ys k = (k.0, ApartFrom-front block a xs ys k.1)

pub Layout-front : (block : ℕ → Block) (xs ys : List ℕ) → Layout block (xs ++ ys) → Layout block xs
Layout-front block [] ys h = tt
Layout-front block (x ∷ xs) ys h =
    (h.0, ApartFrom-front block x xs ys h.1, Layout-front block xs ys h.2)

abbrev pub SameSizes : (ℕ → Block) → (ℕ → Block) → List ℕ → Type 0
SameSizes b c [] = Unit {0}
SameSizes b c (x ∷ xs) = ((c x).size ≡ (b x).size) × SameSizes b c xs

ApartFrom-snoc :
    (b c : ℕ → Block) (x page : ℕ) (xs : List ℕ)
    → (c x).size ≡ (b x).size
    → SameSizes b c xs
    → Apart c x page
    → ApartFrom b x xs
    → ApartFrom c x (xs ++ page ∷ [])
ApartFrom-snoc b c x page [] e s p k = (p, tt)
ApartFrom-snoc b c x page (z ∷ xs) e s p k =
    (ground arith, ApartFrom-snoc b c x page xs e s.1 p k.1)

-- A list without overlap, and a block behind it that lies in the page.
Layout-snoc :
    (b c : ℕ → Block) (page : ℕ) (xs : List ℕ)
    → SameSizes b c xs
    → (c page).size + sizeof_block ≤ 4096
    → page + 4096 < 2 ^ 32
    → PageApart b page xs
    → Layout b xs
    → Layout c (xs ++ page ∷ [])
Layout-snoc b c page [] s h e p l = (omega arith, tt, tt)
Layout-snoc b c page (x ∷ xs) s h e p l = (
  ground arith,
  ApartFrom-snoc b c x page xs s.0 s.1 (ground arith) l.1,
  Layout-snoc b c page xs s.1 h e p.1 l.2,
)

SameSizes-same : (b c : ℕ → Block) (xs : List ℕ) → SameOn xs b c → SameSizes b c xs
SameSizes-same b c [] s = tt
SameSizes-same b c (x ∷ xs) s = (ground arith, SameSizes-same b c xs s.1)

SameSizes-snoc :
    (b c : ℕ → Block) (xs : List ℕ) (a : ℕ)
    → SameSizes b c xs
    → (c a).size ≡ (b a).size
    → SameSizes b c (xs ++ a ∷ [])
SameSizes-snoc b c [] a s e = (e, tt)
SameSizes-snoc b c (x ∷ xs) a s e = (s.0, SameSizes-snoc b c xs a s.1 e)

-- The headers after a page is linked behind the block `current`.
abbrev pub linked : (ℕ → Block) → ℕ → ℕ → ℕ → Block
linked block page current =
    let c = put block page page_block in put c current (record (c current) { next = page })

module _ (b : ℕ → Block) (head page current : ℕ) (xs ys : List ℕ)
    (ch : Chain b 0 head (xs ++ current ∷ ys)) (lay : Layout b (xs ++ current ∷ ys))
    (apart : PageApart b page (xs ++ current ∷ ys)) (nz : page ≢ 0)
    (low : page + 4096 < 2 ^ 32) where
  page-ne-current : page ≢ current
  page-ne-current = go xs apart
    where
      go : (zs : List ℕ) → PageApart b page (zs ++ current ∷ ys) → page ≢ current
      go [] p = ground arith
      go (z ∷ zs) p = go zs p.1

  pub linked_page : linked b page current page ≡ page_block
  linked_page =
      put_other (put b page page_block) current page _ page-ne-current ∙ put_self b page page_block

  linked_current : linked b page current current ≡ record (b current) { next = page }
  linked_current =
      put_self (put b page page_block) current _
      ∙ ap (λ (v : Block). record v { next = page })
          (put_other b page current page_block (λ e. page-ne-current (sym e)))

  linked_front : SameOn xs b (linked b page current)
  linked_front =
      let c = put b page page_block in
      let (ax, _, e) = Layout-parts b xs ys current lay in
      SameOn-trans xs b c (linked b page current)
        (SameOn-put xs b page page_block
          (PageApart-Fresh b page xs (PageApart-front b page xs (current ∷ ys) apart)))
        (SameOn-put xs c current _
          (inside-Fresh b current current xs (omega arith) (omega arith) ax))

  pub linked-Chain : Chain (linked b page current) 0 head ((xs ++ current ∷ []) ++ page ∷ [])
  linked-Chain =
      let c = linked b page current in
      let (cx, n, _) = Chain-split xs ys b 0 head current ch in
      Chain-join (xs ++ current ∷ []) (page ∷ []) c 0 page head
        (Chain-join xs (current ∷ []) c page current head
          (Chain-same xs b c current head linked_front cx) (refl, n, rw linked_current))
        (refl, nz, rw linked_page)

  pub linked-Layout : Layout (linked b page current) ((xs ++ current ∷ []) ++ page ∷ [])
  linked-Layout =
      let c = linked b page current in
      let e : (xs ++ current ∷ []) ++ ys ≡ xs ++ current ∷ ys = append_assoc xs (current ∷ []) ys in
      Layout-snoc b c page (xs ++ current ∷ [])
        (SameSizes-snoc b c xs current (SameSizes-same b c xs linked_front) (rw linked_current))
        (rw linked_page (omega arith)) low
        (PageApart-front b page (xs ++ current ∷ []) ys (rw e apart))
        (Layout-front b (xs ++ current ∷ []) ys (rw e lay))

NoneFits-at :
    (b : ℕ → Block) (size : ℕ) (xs ys : List ℕ) (a : ℕ)
    → NoneFits b size (xs ++ a ∷ ys)
    → fits size (b a) ≡ false
NoneFits-at b size [] ys a n = n.0
NoneFits-at b size (x ∷ xs) ys a n = NoneFits-at b size xs ys a n.1

-- The request goes to the first bytes of a new page.
pub record Grows (size page : ℕ) (vm : Vm) (h : Heap) (xs : List ℕ) (out : Run (ℕ × Heap))
    : Type 0 where
  pub result :
      out
      ≡ ok (
        user_addr page,
        record h {
          vm = vm;
          block = place size page (linked h.block page h.current_block);
          current_block = page;
        },
      )
  pub placed :
      Placed size
        (linked h.block page h.current_block)
        (place size page (linked h.block page h.current_block))
        h.heap_head
        page
        (xs ++ h.current_block ∷ [])
        []

module _ (fuel size flag page : ℕ) (vm : Vm) (h : Heap) (xs ys : List ℕ)
    (i : IsHeap h (xs ++ h.current_block ∷ ys)) (pos : 0 < size) (some_block : h.heap_head ≢ 0)
    (enough : length (xs ++ h.current_block ∷ ys) < fuel)
    (full : NoneFits h.block size (xs ++ h.current_block ∷ ys))
    (taken : allocate_page (default_flag flag) h.vm ≡ (page, vm)) (nz : page ≢ 0)
    (apart : PageApart h.block page (xs ++ h.current_block ∷ ys)) (low : page + 4096 < 2 ^ 32) where
  asked : size ≤ 4096 → kmalloc fuel size flag h ≡ ok (finish size (grow (default_flag flag) h))
  asked small = elim (kmalloc-Serves fuel size flag h _ i pos small some_block enough) [
    | inr (n, e) ↦ e
    | inl (a, s) ↦
        let no =
          NoneFits-at h.block size s.best.before s.best.behind a (rw s.best.splits at full) in
        cc (sym s.best.fitting ∙ no)
  ]

  grown_result :
      ok (finish size (grow (default_flag flag) h))
      ≡ ok (
        user_addr page,
        record h {
          vm = vm;
          block = place size page (linked h.block page h.current_block);
          current_block = page;
        },
      )
  unfolding grow finish link_page
  grown_result = ap (λ (t : ℕ × Vm). ok (finish size (link_page t h))) taken

  -- When no block fits, `kmalloc` serves a request of at most 4087 bytes from a new page. The
  -- list of blocks then ends with `current_block` and the page: what stood behind
  -- `current_block` is no longer in it.
  pub kmalloc-Grows : size ≤ 4087 → Grows size page vm h xs (kmalloc fuel size flag h)
  kmalloc-Grows small = record {
    result = asked (omega arith) ∙ grown_result;
    placed =
        place-Placed size (linked h.block page h.current_block) h.heap_head page
          (xs ++ h.current_block ∷ []) []
          (linked-Chain h.block h.heap_head page h.current_block xs ys i.chain i.layout apart nz
            low)
          (linked-Layout h.block h.heap_head page h.current_block xs ys i.chain i.layout apart nz
            low)
          (rw
            (linked_page h.block h.heap_head page h.current_block xs ys i.chain i.layout apart nz
              low)
            (omega arith));
  }

  -- A request of 4088 to 4096 bytes is served from a new page too, by a block of 4087 bytes.
  pub kmalloc_too_small :
      4087 < size
      → size ≤ 4096
      → (h' : Heap) × (kmalloc fuel size flag h ≡ ok (user_addr page, h'))
        × ((h'.block page).type ≡ 2)
        × ((h'.block page).size < size)
  unfolding place
  kmalloc_too_small large small =
      let b = linked h.block page h.current_block in
      let e =
        linked_page h.block h.heap_head page h.current_block xs ys i.chain i.layout apart nz low in
      let z : leb (size + sizeof_block) (b page).size ≡ false = rw e (ground arith) in
      let self = put_self b page (record (b page) { type = 2 }) in
      (
        record h { vm = vm; block = place size page b; current_block = page },
        asked small ∙ grown_result,
        rw (z, self),
        rw (z, self, e) (omega arith),
      )
