-- ===== src/Pmm/Heap/Malloc.antt =====
-- `kmalloc` of kernel/pmm.c on a heap that has blocks.
use my_kernel.Common.{
  ℕ, ◌≤◌, ◌<◌, ◌≡◌, ◌≢◌, refl, ◌⊎◌, inl, inr, true, false, ◌||◌, List, arith, ltb, ◌==◌, length,
}
use my_kernel.Pmm.Virtual.{default_flag}
use my_kernel.Pmm.Heap.{Block, Heap, Run, ok, fits, best_block, place, finish, grow, kmalloc}
use my_kernel.Pmm.Heap.Scan.{NoneFits, BestBlock, Scanned, kept, found, best_block-Scanned}
use my_kernel.Pmm.Heap.Place.{Placed, place-Placed}
use my_kernel.Pmm.Heap.Release.{IsHeap, user_addr}

fits-le : (size : ℕ) (b : Block) → fits size b ≡ true → size ≤ b.size
unfolding fits
fits-le size b h = ground arith

-- The request goes to the block `a`, which was free and is the best fit.
pub record Serves (size : ℕ) (h : Heap) (xs : List ℕ) (out : Run (ℕ × Heap)) (a : ℕ) : Type 0 where
  pub best : BestBlock h.block size xs a
  pub result : out ≡ ok (user_addr a, record h { block = place size a h.block })
  pub placed : Placed size h.block (place size a h.block) h.heap_head a best.before best.behind

module _ (fuel size flag : ℕ) (h : Heap) (xs : List ℕ) (i : IsHeap h xs) (pos : 0 < size)
    (small : size ≤ 4096) (some_block : h.heap_head ≢ 0) (enough : length xs < fuel) where
  invalid : (ltb 4096 size || size == 0) ≡ false
  invalid = ground arith

  headed : (h.heap_head == 0) ≡ false
  headed = ground arith

  serve :
      (a : ℕ)
      → best_block fuel size h.heap_head 0 h.block ≡ ok a
      → BestBlock h.block size xs a
      → Serves size h xs (kmalloc fuel size flag h) a
  unfolding kmalloc
  serve a q b =
      let nz : (a == 0) ≡ false = ground (arith, b.nonnull) in
      let j = rw b.splits at i in
      record {
        best = b;
        result = rw (invalid, headed, q, nz);
        placed =
            place-Placed size h.block h.heap_head a b.before b.behind (rw b.splits at i.chain)
              (rw b.splits at i.layout) (fits-le size (h.block a) b.fitting);
      }

  ask :
      (out : ℕ)
      → best_block fuel size h.heap_head 0 h.block ≡ ok out
      → out ≡ 0
      → kmalloc fuel size flag h ≡ ok (finish size (grow (default_flag flag) h))
  unfolding kmalloc
  ask out q e = rw (invalid, headed, q, e)

  served :
      (out : ℕ)
      → best_block fuel size h.heap_head 0 h.block ≡ ok out
      → Scanned h.block size 0 xs out
      → ((a : ℕ) × Serves size h xs (kmalloc fuel size flag h) a)
        ⊎ (NoneFits h.block size xs
            × (kmalloc fuel size flag h ≡ ok (finish size (grow (default_flag flag) h))))
  served out q (kept e n a) = inr (n refl, ask out q e)
  served out q (found b s) = inl (out, serve out q b)

  -- A request of 1 to 4096 bytes to a heap with blocks is served from the first of the smallest
  -- free blocks that have room, or no block fits and a new page is asked for.
  pub kmalloc-Serves :
      ((a : ℕ) × Serves size h xs (kmalloc fuel size flag h) a)
      ⊎ (NoneFits h.block size xs
          × (kmalloc fuel size flag h ≡ ok (finish size (grow (default_flag flag) h))))
  kmalloc-Serves =
      let (out, q, s) = best_block-Scanned fuel size 0 h.block h.heap_head xs i.chain enough in
      served out q s
