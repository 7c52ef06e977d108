-- ===== src/Pmm/Heap.antt =====
-- The kernel heap of kernel/pmm.c: `kmalloc` and `kfree` over a list of blocks. A block is found
-- by the address of its header, 9 packed bytes in front of the memory that is handed out. The
-- walks along `next` take fuel, one round for each block and one for the end.
pub mod Chain
pub mod Scan
pub mod Place
pub mod Malloc
pub mod Grow
pub mod Lost
pub mod Release
pub mod Examples
use my_kernel.Common.{
  ℕ, zero, suc, ◌+◌, ◌-◌, ◌%◌, ◌^◌, ◌≡◌, Bool, true, false, ◌&&◌, ◌||◌, ltb, leb, ◌==◌,
  if◌then◌else◌,
}
pub use my_kernel.Common.Run.{Run, ok, fault, out_of_fuel, ◌>>=◌}
use my_kernel.Pmm.Virtual.{Vm, default_flag, allocate_page}

pub record Block : Type 0 where
  pub size : ℕ
  pub type : ℕ
  pub next : ℕ

abbrev pub sizeof_block : ℕ
sizeof_block = 9

pub record Heap : Type 0 where
  pub vm : Vm
  pub block : ℕ → Block
  pub heap_head : ℕ
  pub current_block : ℕ

-- `*a = v`
unfoldable pub put : (ℕ → Block) → ℕ → Block → ℕ → Block
put block a v x = if x == a then v else block x

unfoldable pub fits : ℕ → Block → Bool
fits size b = b.type == 1 && leb size b.size

-- The loop of `kmalloc` from the block `p` on; `best` is 0 while there is none.
unfoldable pub best_block : ℕ → ℕ → ℕ → ℕ → (ℕ → Block) → Run ℕ
unfolding fits
best_block zero size p best block = out_of_fuel
best_block (suc fuel) size p best block =
    let best' =
      if fits size (block p) && (best == 0 || ltb (block p).size (block best).size)
      then p
      else best in
    let rest = best_block fuel size (block p).next best' block in if p == 0 then ok best else rest

-- The one block of a new page.
abbrev pub page_block : Block
page_block = record { size = 4096 - sizeof_block; type = 1; next = 0 }

-- `kmalloc` on an empty heap takes its first page; `taken` is what `allocate_page` gives. A page at
-- 0 is written like any other, but is the same as no page in `heap_head`.
unfoldable pub first_page : ℕ × Vm → Heap → Heap
unfolding put
first_page (page, vm) h = record {
  vm = vm;
  block = put h.block page page_block;
  heap_head = page;
  current_block = page;
}

unfoldable pub with_head : ℕ → Heap → Heap
unfolding first_page
with_head flag h = if h.heap_head == 0 then first_page (allocate_page flag h.vm) h else h

-- No block fits: a new page is linked behind `current_block`.
unfoldable pub link_page : ℕ × Vm → Heap → ℕ × Heap
unfolding put
link_page (page, vm) h =
    let block = put h.block page page_block in
    (
      page,
      record h {
        vm = vm;
        block = put block h.current_block (record (block h.current_block) { next = page });
        current_block = page;
      },
    )

unfoldable pub grow : ℕ → Heap → ℕ × Heap
unfolding link_page
grow flag h = link_page (allocate_page flag h.vm) h

-- The end of `kmalloc`: the block is split if the rest has room for a header.
unfoldable pub place : ℕ → ℕ → (ℕ → Block) → ℕ → Block
unfolding put
place size best block =
    let b = block best in
    let new = (best + sizeof_block + size) % 2 ^ 32 in
    if leb (size + sizeof_block) b.size
    then put
        (put block new (record { size = b.size - size - sizeof_block; type = 1; next = b.next }))
        best (record { size = size; type = 2; next = new })
    else put block best (record b { type = 2 })

unfoldable pub finish : ℕ → ℕ × Heap → ℕ × Heap
unfolding place
finish size (best, h) =
    ((best + sizeof_block) % 2 ^ 32, record h { block = place size best h.block })

unfoldable pub kmalloc : ℕ → ℕ → ℕ → Heap → Run (ℕ × Heap)
unfolding with_head best_block grow finish
kmalloc fuel size flag h =
    let flag' = default_flag flag in
    if ltb 4096 size || size == 0
    then ok (0, h)
    else (let g = with_head flag' h in
        do
          best ← best_block fuel size g.heap_head 0 g.block
          ok (finish size (if best == 0 then grow flag' g else (best, g))))

-- The loop of `kfree` from the block `p` on.
pub kfree_loop : ℕ → ℕ → ℕ → (ℕ → Block) → Run (ℕ → Block)
unfolding put
kfree_loop zero addr p block = out_of_fuel
kfree_loop (suc fuel) addr p block =
    let rest = kfree_loop fuel addr (block p).next block in
    if p == 0
    then ok block
    else if (p + sizeof_block) % 2 ^ 32 == addr
    then ok (put block p (record (block p) { type = 1 }))
    else rest

pub kfree : ℕ → ℕ → Heap → Run Heap
unfolding kfree_loop
kfree fuel addr h = do
  block ← kfree_loop fuel addr h.heap_head h.block
  ok (record h { block = block })
