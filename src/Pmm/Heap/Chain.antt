-- ===== src/Pmm/Heap/Chain.antt =====
-- The list of blocks behind the `next` pointers of kernel/pmm.c, and blocks that do not overlap.
use my_kernel.Common.{
  ℕ, ◌+◌, ◌^◌, ◌≤◌, ◌<◌, ◌≡◌, ◌≢◌, refl, ◌⊎◌, Bool, false, ◌||◌, List, [], ◌∷◌, ◌++◌, arith, ◌==◌,
}
use my_kernel.Pmm.Heap.{Block, put, sizeof_block}

-- From `p` the blocks lead through the addresses to `stop`.
abbrev pub Chain : (ℕ → Block) → ℕ → ℕ → List ℕ → Type 0
Chain block stop p [] = p ≡ stop
Chain block stop p (a ∷ xs) = (p ≡ a) × (a ≢ 0) × Chain block stop (block a).next xs

abbrev pub has : ℕ → List ℕ → Bool
has a [] = false
has a (x ∷ xs) = (a == x) || has a xs

abbrev pub Fresh : ℕ → List ℕ → Type 0
Fresh a xs = has a xs ≡ false

pub has-append : (a : ℕ) (xs ys : List ℕ) → has a (xs ++ ys) ≡ (has a xs || has a ys)
has-append a [] ys = refl
has-append a (x ∷ xs) ys = ground (arith, has-append a xs ys)

-- The headers along a list.
abbrev pub SameOn : List ℕ → (ℕ → Block) → (ℕ → Block) → Type 0
SameOn [] b c = Unit {0}
SameOn (x ∷ xs) b c = (c x ≡ b x) × SameOn xs b c

pub SameOn-put :
    (xs : List ℕ) (block : ℕ → Block) (a : ℕ) (v : Block)
    → Fresh a xs
    → SameOn xs block (put block a v)
unfolding put
SameOn-put [] block a v f = tt
SameOn-put (x ∷ xs) block a v f = (ground arith, SameOn-put xs block a v (ground arith))

pub SameOn-trans : (xs : List ℕ) (b c d : ℕ → Block) → SameOn xs b c → SameOn xs c d → SameOn xs b d
SameOn-trans [] b c d h k = tt
SameOn-trans (x ∷ xs) b c d h k = (ground arith, SameOn-trans xs b c d h.1 k.1)

pub Chain-same :
    (xs : List ℕ) (b c : ℕ → Block) (stop p : ℕ)
    → SameOn xs b c
    → Chain b stop p xs
    → Chain c stop p xs
Chain-same [] b c stop p s h = h
Chain-same (x ∷ xs) b c stop p s h = (h.0, h.1, rw s.0 (Chain-same xs b c stop (b x).next s.1 h.2))

pub Chain-split :
    (xs ys : List ℕ) (b : ℕ → Block) (stop p a : ℕ)
    → Chain b stop p (xs ++ a ∷ ys)
    → Chain b a p xs × (a ≢ 0) × Chain b stop (b a).next ys
Chain-split [] ys b stop p a h = (h.0, h.1, h.2)
Chain-split (x ∷ xs) ys b stop p a h =
    let (k, n, l) = Chain-split xs ys b stop (b x).next a h.2 in ((h.0, h.1, k), n, l)

pub Chain-join :
    (xs ys : List ℕ) (b : ℕ → Block) (stop mid p : ℕ)
    → Chain b mid p xs
    → Chain b stop mid ys
    → Chain b stop p (xs ++ ys)
Chain-join [] ys b stop mid p h k = rw h k
Chain-join (x ∷ xs) ys b stop mid p h k = (h.0, h.1, Chain-join xs ys b stop mid (b x).next h.2 k)

-- The bytes of a block, its header included, end here.
abbrev pub block_end : (ℕ → Block) → ℕ → ℕ
block_end block a = a + sizeof_block + (block a).size

-- Two blocks share no byte.
abbrev pub Apart : (ℕ → Block) → ℕ → ℕ → Type 0
Apart block a c = (block_end block a ≤ c) ⊎ (block_end block c ≤ a)

abbrev pub ApartFrom : (ℕ → Block) → ℕ → List ℕ → Type 0
ApartFrom block a [] = Unit {0}
ApartFrom block a (x ∷ xs) = Apart block a x × ApartFrom block a xs

-- No two blocks of the list share a byte, and all end below 4 GiB.
abbrev pub Layout : (ℕ → Block) → List ℕ → Type 0
Layout block [] = Unit {0}
Layout block (x ∷ xs) = (block_end block x < 2 ^ 32) × ApartFrom block x xs × Layout block xs
