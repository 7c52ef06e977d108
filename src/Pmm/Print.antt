-- ===== src/Pmm/Print.antt =====
-- What `inspect` and `search` of kernel/pmm.c print of the heap and of the memory map.
use my_kernel.Common.{
  ℕ, zero, suc, ◌+◌, ◌%◌, ◌^◌, ◌≡◌, ◌<◌, refl, true, false, List, [], ◌∷◌, ◌++◌, arith, ◌==◌,
  if◌then◌else◌, length,
}
use my_kernel.Common.Run.{Run, ok, out_of_fuel, ◌>>=◌}
use my_kernel.Pmm.Regions.{Region}
use my_kernel.Pmm.Heap.{Block, Heap}
use my_kernel.Pmm.Heap.Chain.{Chain}
use my_kernel.Vga.{Screen}
use my_kernel.Vga.Output.{Output, text, hex, number, draw}

abbrev pub block_line : ℕ → Block → List Output
block_line cur b =
    text "\nBlock: " ∷ hex cur ∷ text " size=" ∷ number b.size ∷ text " type=" ∷ number b.type ∷ []

-- The loop of `inspect` from the block `cur` on.
unfoldable pub inspect_from : ℕ → ℕ → (ℕ → Block) → Run (List Output)
inspect_from zero cur block = out_of_fuel
inspect_from (suc fuel) cur block =
    let rest = inspect_from fuel (block cur).next block in
    if cur == 0 then ok [] else (rest >>= λ out. ok (block_line cur (block cur) ++ out))

unfoldable pub inspect : ℕ → Heap → Run (List Output)
unfolding inspect_from
inspect fuel h = inspect_from fuel h.heap_head h.block

-- The lines of the blocks, in the order of the list.
abbrev pub block_lines : (ℕ → Block) → List ℕ → List Output
block_lines block [] = []
block_lines block (x ∷ xs) = block_line x (block x) ++ block_lines block xs

-- One round of the loop of `search`. The cursor is a parameter of the function; `print_number`
-- takes the lower 32 bits of the length.
pub search_row : Region → Screen → Screen
search_row r s =
    let t =
      draw
        (text "base: "
          ∷ hex (r.base % 2 ^ 32)
          ∷ text "Size: "
          ∷ number (r.length % 2 ^ 32)
          ∷ text "Type: "
          ∷ number r.type
          ∷ [])
        s in
    record t { cursor = t.cursor + 80 }

pub search_rows : List Region → Screen → Screen
unfolding search_row
search_rows [] s = s
search_rows (r ∷ m) s = search_rows m (search_row r s)

-- `*entry` is the length of the memory map.
pub search : ℕ → ℕ → List Region → Screen → Screen
unfolding search_rows
search i j m s =
    let t =
      draw (text "Entries: " ∷ number (length m) ∷ []) (record s { cursor = i; column = j }) in
    record (search_rows m (record t { cursor = t.cursor + 80 })) {
      cursor = s.cursor;
      column = s.column;
    }

-- With fuel for each block and the end, `inspect` prints one line for each block of the heap, in
-- the order of the list.
pub inspect-block_lines :
    (fuel : ℕ) (h : Heap) (xs : List ℕ)
    → Chain h.block 0 h.heap_head xs
    → length xs < fuel
    → inspect fuel h ≡ ok (block_lines h.block xs)
unfolding inspect
inspect-block_lines fuel h xs c enough = go fuel h.heap_head xs c enough
  where
    go :
        (fuel p : ℕ) (xs : List ℕ)
        → Chain h.block 0 p xs
        → length xs < fuel
        → inspect_from fuel p h.block ≡ ok (block_lines h.block xs)
    go zero p xs c n = absurd (omega arith)
    go (suc fuel) p [] c n = let z : (p == 0) ≡ true = ground arith in rw z refl
    go (suc fuel) p (x ∷ xs) (e, nz, c) n =
        let z : (x == 0) ≡ false = ground arith in
        let ih = go fuel (h.block x).next xs c (omega arith) in rw (e, z, ih) refl
