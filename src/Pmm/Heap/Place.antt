-- ===== src/Pmm/Heap/Place.antt =====
-- The end of `kmalloc` in kernel/pmm.c: taking a free block, whole or split.
use my_kernel.Common.{
  ℕ, ◌+◌, ◌-◌, ◌%◌, ◌^◌, ◌≤◌, ◌<◌, ◌≡◌, ◌≢◌, refl, ◌∙◌, ◌⊎◌, inl, inr, true, false, List, [], ◌∷◌,
  ◌++◌, arith, leb, Bool-cases,
}
use my_kernel.Pmm.Heap.{Block, put, place, sizeof_block}
use my_kernel.Pmm.Heap.Chain.{
  Chain, Fresh, SameOn, SameOn-put, SameOn-trans, Chain-same, Chain-split, Chain-join, block_end,
  Apart, ApartFrom, Layout,
}

-- An address within a block is the header of no block apart from it.
pub inside-Fresh :
    (block : ℕ → Block) (a n : ℕ) (xs : List ℕ)
    → a ≤ n
    → n < block_end block a
    → ApartFrom block a xs
    → Fresh n xs
inside-Fresh block a n [] l h k = refl
inside-Fresh block a n (x ∷ xs) l h k = ground (arith, inside-Fresh block a n xs l h k.1)

pub Layout-parts :
    (block : ℕ → Block) (xs ys : List ℕ) (a : ℕ)
    → Layout block (xs ++ a ∷ ys)
    → ApartFrom block a xs × ApartFrom block a ys × (block_end block a < 2 ^ 32)
Layout-parts block [] ys a h = (tt, h.1, h.0)
Layout-parts block (x ∷ xs) ys a h =
    let (p, q, r) = Layout-parts block xs ys a h.2 in ((swap (head xs h.1), p), q, r)
  where
    head : (zs : List ℕ) → ApartFrom block x (zs ++ a ∷ ys) → Apart block x a
    head [] k = k.0
    head (z ∷ zs) k = head zs k.1

    swap : Apart block x a → Apart block a x
    swap k = ground arith

ApartFrom-same :
    (b c : ℕ → Block) (x : ℕ) (ys : List ℕ)
    → c x ≡ b x
    → SameOn ys b c
    → ApartFrom b x ys
    → ApartFrom c x ys
ApartFrom-same b c x [] e s h = tt
ApartFrom-same b c x (y ∷ ys) e s h = (ground arith, ApartFrom-same b c x ys e s.1 h.1)

pub Layout-same : (b c : ℕ → Block) (ys : List ℕ) → SameOn ys b c → Layout b ys → Layout c ys
Layout-same b c [] s h = tt
Layout-same b c (y ∷ ys) s h =
    (ground arith, ApartFrom-same b c y ys s.0 s.1 h.1, Layout-same b c ys s.1 h.2)

-- A block that stays within the bytes of `a` is apart from what `a` was apart from.
ApartFrom-within :
    (b c : ℕ → Block) (a n : ℕ) (ys : List ℕ)
    → a ≤ n
    → block_end c n ≤ block_end b a
    → SameOn ys b c
    → ApartFrom b a ys
    → ApartFrom c n ys
ApartFrom-within b c a n [] l h s k = tt
ApartFrom-within b c a n (y ∷ ys) l h s k = (ground arith, ApartFrom-within b c a n ys l h s.1 k.1)

-- `c` divides the bytes of `a` between `a` and `n`, or leaves some of them out.
module _ (b c : ℕ → Block) (a n : ℕ) (ys : List ℕ) (ends : block_end c a ≤ n)
    (bounded : block_end c n ≤ block_end b a) (sy : SameOn ys b c) where
  apart_both :
      (x : ℕ) (xs : List ℕ)
      → c x ≡ b x
      → SameOn xs b c
      → ApartFrom b x (xs ++ a ∷ ys)
      → ApartFrom c x (xs ++ a ∷ n ∷ ys)
  apart_both x [] e s k = (ground arith, (ground arith, ApartFrom-same b c x ys e sy k.1))
  apart_both x (z ∷ xs) e s k = (ground arith, apart_both x xs e s.1 k.1)

  pub Layout-divide :
      (xs : List ℕ) → SameOn xs b c → Layout b (xs ++ a ∷ ys) → Layout c (xs ++ a ∷ n ∷ ys)
  Layout-divide [] s h = (
    omega arith,
    (inl ends, ApartFrom-within b c a a ys (omega arith) (omega arith) sy h.1),
    (
      omega arith,
      ApartFrom-within b c a n ys (omega arith) bounded sy h.1,
      Layout-same b c ys sy h.2,
    ),
  )
  Layout-divide (x ∷ xs) s h = (ground arith, apart_both x xs s.0 s.1 h.1, Layout-divide xs s.1 h.2)

-- One block changed, and not in its size.
pub Layout-resized :
    (b c : ℕ → Block) (a : ℕ) (xs ys : List ℕ)
    → (c a).size ≡ (b a).size
    → SameOn xs b c
    → SameOn ys b c
    → Layout b (xs ++ a ∷ ys)
    → Layout c (xs ++ a ∷ ys)
Layout-resized b c a [] ys e s t h = (
  ground arith,
  ApartFrom-within b c a a ys (omega arith) (ground arith) t h.1,
  Layout-same b c ys t h.2,
)
Layout-resized b c a (x ∷ xs) ys e s t h =
    (ground arith, go xs s.1 h.1, Layout-resized b c a xs ys e s.1 t h.2)
  where
    go : (zs : List ℕ) → SameOn zs b c → ApartFrom b x (zs ++ a ∷ ys) → ApartFrom c x (zs ++ a ∷ ys)
    go [] u k = (ground arith, ApartFrom-same b c x ys s.0 t k.1)
    go (z ∷ zs) u k = (ground arith, go zs u.1 k.1)

-- What taking the block `a` of the list does: `a` is in use and has room for the request, the
-- list is the old one, with the rest of a split block behind `a`, and no other header changed.
pub record Placed (size : ℕ) (b c : ℕ → Block) (p a : ℕ) (xs ys : List ℕ) : Type 0 where
  pub list : List ℕ
  pub inserted :
      (list ≡ xs ++ a ∷ ys)
      ⊎ ((list ≡ xs ++ a ∷ (a + sizeof_block + size) ∷ ys) × (size + sizeof_block ≤ (b a).size))
  pub chain : Chain c 0 p list
  pub layout : Layout c list
  pub used : (c a).type ≡ 2
  pub room : size ≤ (c a).size
  pub before : SameOn xs b c
  pub behind : SameOn ys b c

pub put_self : (b : ℕ → Block) (a : ℕ) (v : Block) → put b a v a ≡ v
unfolding put
put_self b a v = ground arith

pub put_other : (b : ℕ → Block) (a x : ℕ) (v : Block) → x ≢ a → put b a v x ≡ b x
unfolding put
put_other b a x v h = ground arith

module _ (size : ℕ) (b : ℕ → Block) (p a : ℕ) (xs ys : List ℕ) (ch : Chain b 0 p (xs ++ a ∷ ys))
    (lay : Layout b (xs ++ a ∷ ys)) (room : size ≤ (b a).size) where
  -- A header within the block `a` is the header of no other block.
  sames :
      (n : ℕ) (v : Block)
      → a ≤ n
      → n < block_end b a
      → SameOn xs b (put b n v) × SameOn ys b (put b n v)
  sames n v lo hi =
      let (ax, ay, e) = Layout-parts b xs ys a lay in
      (
        SameOn-put xs b n v (inside-Fresh b a n xs lo hi ax),
        SameOn-put ys b n v (inside-Fresh b a n ys lo hi ay),
      )

  place_whole : (b a).size < size + sizeof_block → Placed size b (place size a b) p a xs ys
  unfolding place
  place_whole h =
      let z : leb (size + sizeof_block) (b a).size ≡ false = ground arith in
      let v : Block = record (b a) { type = 2 } in
      let c = put b a v in
      let (sx, sy) = sames a v (omega arith) (omega arith) in
      let self = put_self b a v in
      let (cx, nz, cy) = Chain-split xs ys b 0 p a ch in
      rw z (record {
        list = xs ++ a ∷ ys;
        inserted = inl refl;
        chain =
            Chain-join xs (a ∷ ys) c 0 a p (Chain-same xs b c a p sx cx)
              (refl, nz, rw self (Chain-same ys b c 0 (b a).next sy cy));
        layout = Layout-resized b c a xs ys (rw self) sx sy lay;
        used = rw self;
        room = rw self room;
        before = sx;
        behind = sy;
      })

  place_split : size + sizeof_block ≤ (b a).size → Placed size b (place size a b) p a xs ys
  unfolding place
  place_split h =
      let z : leb (size + sizeof_block) (b a).size ≡ true = ground arith in
      let e = (Layout-parts b xs ys a lay).2 in
      let n = a + sizeof_block + size in
      let wrap : (a + sizeof_block + size) % 2 ^ 32 ≡ n = omega arith in
      let v : Block = record {
        size = (b a).size - size - sizeof_block;
        type = 1;
        next = (b a).next;
      } in
      let w : Block = record { size = size; type = 2; next = n } in
      let d = put b n v in
      let c = put d a w in
      let (sx, sy) = sames n v (omega arith) (omega arith) in
      let self = put_self d a w in
      let rest : c n ≡ v = put_other d a n w (omega arith) ∙ put_self b n v in
      let (ax, ay, _) = Layout-parts b xs ys a lay in
      let ux =
        SameOn-trans xs b d c sx
          (SameOn-put xs d a w (inside-Fresh b a a xs (omega arith) (omega arith) ax)) in
      let uy =
        SameOn-trans ys b d c sy
          (SameOn-put ys d a w (inside-Fresh b a a ys (omega arith) (omega arith) ay)) in
      let (cx, nz, cy) = Chain-split xs ys b 0 p a ch in
      rw (z, wrap)
        (record {
          list = xs ++ a ∷ n ∷ ys;
          inserted = inr (refl, h);
          chain = Chain-join xs (a ∷ n ∷ ys) c 0 a p (Chain-same xs b c a p ux cx) (
            refl,
            nz,
            rw self (refl, omega arith, rw rest (Chain-same ys b c 0 (b a).next uy cy)),
          );
          layout =
              Layout-divide b c a n ys (rw self (omega arith)) (rw rest (omega arith)) uy xs ux lay;
          used = rw self;
          room = rw self (omega arith);
          before = ux;
          behind = uy;
        })

  -- Taking a block with room keeps the list, without overlap, and marks the block as used.
  pub place-Placed : Placed size b (place size a b) p a xs ys
  place-Placed = elim (Bool-cases (leb (size + sizeof_block) (b a).size)) [
    | inl y ↦ place_split (ground arith)
    | inr n ↦ place_whole (ground arith)
  ]
