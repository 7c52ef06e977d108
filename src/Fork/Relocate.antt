-- ===== src/Fork/Relocate.antt =====
-- The loop over the saved frame pointers in `sys_fork` of kernel/syscall.c: it ends, and stays on
-- the stack of the child.
use my_kernel.Common.{
  ℕ, zero, suc, ◌+◌, ◌-◌, ◌%◌, ◌^◌, ◌≤◌, ◌<◌, ◌≡◌, refl, sym, ap, ◌∙◌, ◌⊎◌, inl, inr, Bool, true,
  false, List, [], ◌∷◌, length, ◌&&◌, arith, ltb, leb, Bool-cases,
}
use my_kernel.Common.Run.{ok}
use my_kernel.Memory.{poke, word_at, put_word}
use my_kernel.Fork.{relocate, minus}

put_word_other :
    (bytes : ℕ → ℕ) (p v a : ℕ) → (a < p) ⊎ (p + 4 ≤ a) → put_word bytes p v a ≡ bytes a
unfolding put_word poke
put_word_other bytes p v a h = ground arith

-- The saved pointer is one into the page of the parent's stack.
abbrev pub from_parent : ℕ → ℕ → Bool
from_parent parent_top saved = leb (minus parent_top 4096) saved && ltb saved parent_top

word_at-same : (f g : ℕ → ℕ) (p : ℕ) → ((a : ℕ) → p ≤ a → g a ≡ f a) → word_at g p ≡ word_at f p
unfolding word_at
word_at-same f g p h =
    rw
      (h p (omega arith), h (p + 1) (omega arith), h (p + 2) (omega arith), h (p + 3) (omega arith))

-- A word reads back as it was written.
pub word_at-put_word : (bytes : ℕ → ℕ) (p v : ℕ) → v < 2 ^ 32 → word_at (put_word bytes p v) p ≡ v
unfolding word_at put_word poke
word_at-put_word bytes p v h = ground arith

word_at-kept :
    (f g : ℕ → ℕ) (p : ℕ) → ((q : ℕ) → p ≤ q → q < p + 4 → g q ≡ f q) → word_at g p ≡ word_at f p
unfolding word_at
word_at-kept f g p h =
    rw
      (
        h p (omega arith) (omega arith),
        h (p + 1) (omega arith) (omega arith),
        h (p + 2) (omega arith) (omega arith),
        h (p + 3) (omega arith) (omega arith),
      )
      refl

word_at-of :
    (f g : ℕ → ℕ) (p q : ℕ) → ((n : ℕ) → n < 4 → g (q + n) ≡ f (p + n)) → word_at g q ≡ word_at f p
unfolding word_at
word_at-of f g p q h =
    let p0 : p + 0 ≡ p = omega arith in
    let q0 : q + 0 ≡ q = omega arith in
    let h0 : g q ≡ f p = ap g (sym q0) ∙ h 0 (omega arith) ∙ ap f p0 in
    rw (h0, h 1 (omega arith), h 2 (omega arith), h 3 (omega arith)) refl

-- The frames of the parent that a walk from the pointer `p` visits: each lies in the part of the
-- stack that is in use, below its last word, and saves a pointer into the page of the stack, to a
-- frame further up. The walk stops at the first pointer that leaves the stack, or a word that is no
-- such pointer.
abbrev pub Frames : (ℕ → ℕ) → ℕ → ℕ → ℕ → List ℕ → Type 0
Frames bytes esp top p [] = (p < esp) ⊎ (top ≤ p + 4) ⊎ (from_parent top (word_at bytes p) ≡ false)
Frames bytes esp top p (q ∷ qs) =
    (q ≡ p)
    × ((esp ≤ p) × (p + 4 < top))
    × (from_parent top (word_at bytes p) ≡ true)
    × (p + 4 ≤ word_at bytes p)
    × Frames bytes esp top (word_at bytes p) qs

module _ (esp parent_top low child_top used : ℕ) (bytes : ℕ → ℕ) where
  -- The pointer of each frame is moved to the stack of the child: it points as far below the top of
  -- that stack as the saved one does below that of the parent.
  abbrev pub Moved : (ℕ → ℕ) → List ℕ → Type 0
  Moved b [] = Unit {0}
  Moved b (q ∷ qs) =
      (word_at b (low + (q - esp)) + parent_top ≡ word_at bytes q + child_top) × Moved b qs

  -- The byte at distance `d` belongs to no frame's pointer.
  abbrev pub Beside : ℕ → List ℕ → Type 0
  Beside d [] = Unit {0}
  Beside d (q ∷ qs) = ((esp + d < q) ⊎ (q + 4 ≤ esp + d)) × Beside d qs

  module _ (parent_used : esp + used ≡ parent_top) (child_used : low + used ≡ child_top)
      (parent_low : parent_top < 2 ^ 32) (child_low : child_top < 2 ^ 32)
      (four : 4 ≤ child_top) where
    abbrev shift : ℕ → ℕ
    shift p = (p + minus child_top parent_top) % 2 ^ 32

    shift-in : (p : ℕ) → esp ≤ p → p ≤ parent_top → shift p ≡ low + (p - esp)
    shift-in p l h = omega arith

    shift-out :
        (p : ℕ)
        → p < 2 ^ 32
        → (p < esp) ⊎ (parent_top ≤ p + 4)
        → (leb low (shift p) && ltb (shift p) (minus child_top 4)) ≡ false
    shift-out p small (inl l) = ground arith
    shift-out p small (inr h) = ground arith

    shift-back :
        (p : ℕ)
        → p < 2 ^ 32
        → (leb low (shift p) && ltb (shift p) (minus child_top 4)) ≡ true
        → (esp ≤ p) × (p + 4 < parent_top)
    shift-back p small y = ground arith

    -- What the walk that begins at the frame `p` of the parent leaves of the bytes `cur`.
    pub record Walked (p : ℕ) (qs : List ℕ) (cur b : ℕ → ℕ) : Type 0 where
      pub moved : Moved b qs
      pub beside : (d : ℕ) → Beside d qs → b (low + d) ≡ cur (low + d)
      pub below : (a : ℕ) → a < low + (p - esp) → b a ≡ cur a
      pub outside : (a : ℕ) → (a < low) ⊎ (child_top ≤ a) → b a ≡ cur a

    stopped : (p : ℕ) (cur : ℕ → ℕ) → Walked p [] cur cur
    stopped p cur = record {
      moved = tt;
      beside = λ d o. refl;
      below = λ a l. refl;
      outside = λ a o. refl;
    }

    copied-word :
        (p : ℕ) (cur : ℕ → ℕ)
        → esp ≤ p
        → p + 4 < parent_top
        → ((d : ℕ) → esp + d < parent_top → p ≤ esp + d → cur (low + d) ≡ bytes (esp + d))
        → word_at cur (low + (p - esp)) ≡ word_at bytes p
    copied-word p cur l h same =
        let at : (n : ℕ) → n < 4 → cur (low + (p - esp) + n) ≡ bytes (p + n) = λ n small.
          let e : low + (p - esp) + n ≡ low + (p - esp + n) = omega arith in
          let f : esp + (p - esp + n) ≡ p + n = omega arith in
          ap cur e ∙ same (p - esp + n) (omega arith) (omega arith) ∙ ap bytes f in
        word_at-of bytes cur p (low + (p - esp)) at

    step-Walked :
        (p q w : ℕ) (qs : List ℕ) (cur b : ℕ → ℕ)
        → q ≡ p
        → (esp ≤ p) × (p + 4 < parent_top)
        → w ≡ word_at bytes p
        → p + 4 ≤ w
        → w < parent_top
        → Walked w qs (put_word cur (low + (p - esp)) (low + (w - esp))) b
        → Walked p (q ∷ qs) cur b
    step-Walked p q w qs cur b same inside e up lt k =
        let at = low + (p - esp) in
        let new = put_word cur at (low + (w - esp)) in
        let word : word_at b at ≡ low + (w - esp) =
          word_at-kept new b at (λ q l h. k.below q (omega arith))
          ∙ word_at-put_word cur at (low + (w - esp)) (omega arith) in
        record {
          moved = (rw same (omega (arith, word, e)), k.moved);
          beside = λ d o.
              k.beside d o.1
              ∙ put_word_other cur at (low + (w - esp)) (low + d) (ground (arith, o.0));
          below = λ a l.
              k.below a (omega arith)
              ∙ put_word_other cur at (low + (w - esp)) a (inl (omega arith));
          outside = λ a o. k.outside a o ∙ put_word_other cur at (low + (w - esp)) a (ground arith);
        }

    -- With fuel for each frame and the end the loop walks over the frames and ends.
    pub relocate-Walked :
        (qs : List ℕ) (fuel p : ℕ) (cur : ℕ → ℕ)
        → Frames bytes esp parent_top p qs
        → p < 2 ^ 32
        → length qs < fuel
        → ((d : ℕ) → esp + d < parent_top → p ≤ esp + d → cur (low + d) ≡ bytes (esp + d))
        → (b : ℕ → ℕ) × (relocate fuel low child_top parent_top (shift p) cur ≡ ok b)
          × Walked p qs cur b
    unfolding relocate
    relocate-Walked qs zero p cur h small enough same = absurd (omega arith)
    relocate-Walked [] (suc fuel) p cur h small enough same =
        elim (Bool-cases (leb low (shift p) && ltb (shift p) (minus child_top 4))) [
          | inr n ↦ (cur, rw n refl, stopped p cur)
          | inl y ↦ elim h [
            | inl l ↦ absurd (ground (arith, shift-out p small (inl l)))
            | inr (inl o) ↦ absurd (ground (arith, shift-out p small (inr o)))
            | inr (inr n) ↦
                let inside : (esp ≤ p) × (p + 4 < parent_top) = shift-back p small y in
                let e = shift-in p inside.0 (omega arith) in
                let w = ap (word_at cur) e ∙ copied-word p cur inside.0 inside.1 same in
                let z : from_parent parent_top (word_at cur (shift p)) ≡ false =
                  ap (from_parent parent_top) w ∙ n in
                (cur, rw (y, z) refl, stopped p cur)
          ]
        ]
    relocate-Walked (q ∷ qs) (suc fuel) p cur (at, inside, z, up, h) small enough same =
        let w = word_at bytes p in
        let lt : w < parent_top = ground arith in
        let e = shift-in p inside.0 (omega arith) in
        let y : (leb low (shift p) && ltb (shift p) (minus child_top 4)) ≡ true = ground arith in
        let read = ap (word_at cur) e ∙ copied-word p cur inside.0 inside.1 same in
        let z' : from_parent parent_top (word_at cur (shift p)) ≡ true =
          ap (from_parent parent_top) read ∙ z in
        let moved : shift (word_at cur (shift p)) ≡ shift w = ap shift read in
        let to = shift-in w (omega arith) (omega arith) in
        let new = put_word cur (low + (p - esp)) (low + (w - esp)) in
        let same' = λ (d : ℕ). λ (l : esp + d < parent_top). λ (g : w ≤ esp + d).
          put_word_other cur (low + (p - esp)) (low + (w - esp)) (low + d) (inr (omega arith))
          ∙ same d l (omega arith) in
        let (b, r, k) = relocate-Walked qs fuel w new h (omega arith) (omega arith) same' in
        let put : put_word cur (shift p) (shift (word_at cur (shift p))) ≡ new =
          ap (put_word cur (shift p)) (moved ∙ to)
          ∙ ap (λ (a : ℕ). put_word cur a (low + (w - esp))) e in
        let run : relocate fuel low child_top parent_top (shift (word_at cur (shift p)))
              (put_word cur (shift p) (shift (word_at cur (shift p))))
            ≡ ok b =
          ap (relocate fuel low child_top parent_top (shift (word_at cur (shift p)))) put
          ∙ ap (λ (a : ℕ). relocate fuel low child_top parent_top a new) moved
          ∙ r in
        (b, rw (y, z', run) refl, step-Walked p q w qs cur b at inside refl up lt k)
