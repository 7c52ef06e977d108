-- ===== src/Process/Links.antt =====
-- The list of processes behind the `next` pointers of kernel/process.c, and the walks that look
-- for a process.
use my_kernel.Common.{
  ℕ, zero, suc, ◌<◌, ◌≡◌, ◌≢◌, refl, sym, ◌∙◌, inl, inr, Bool, true, false, ◌||◌, List, [], ◌∷◌,
  ◌++◌, arith, ◌==◌, if◌then◌else◌, length, Bool-cases,
}
use my_kernel.Common.Run.{ok}
use my_kernel.Process.{Process, Kernel, assign, find_from, find_process, is_valid_process_ptr}

-- From `p` the processes lead through the addresses to `stop`.
abbrev pub Links : (ℕ → Process) → ℕ → ℕ → List ℕ → Type 0
Links proc stop p [] = p ≡ stop
Links proc stop p (a ∷ xs) = (p ≡ a) × (a ≢ 0) × Links proc stop (proc a).next xs

abbrev pub has : ℕ → List ℕ → Bool
has a [] = false
has a (x ∷ xs) = (a == x) || has a xs

pub has-append : (a : ℕ) (xs ys : List ℕ) → has a (xs ++ ys) ≡ (has a xs || has a ys)
has-append a [] ys = refl
has-append a (x ∷ xs) ys = ground (arith, has-append a xs ys)

-- The processes of the list keep their `next`.
abbrev pub SameNext : List ℕ → (ℕ → Process) → (ℕ → Process) → Type 0
SameNext [] f g = Unit {0}
SameNext (x ∷ xs) f g = ((g x).next ≡ (f x).next) × SameNext xs f g

pub Links-same :
    (xs : List ℕ) (f g : ℕ → Process) (stop p : ℕ)
    → SameNext xs f g
    → Links f stop p xs
    → Links g stop p xs
Links-same [] f g stop p s h = h
Links-same (x ∷ xs) f g stop p s h = (h.0, h.1, rw s.0 (Links-same xs f g stop (f x).next s.1 h.2))

pub SameNext-all :
    (xs : List ℕ) (f g : ℕ → Process) → ((q : ℕ) → (g q).next ≡ (f q).next) → SameNext xs f g
SameNext-all [] f g h = tt
SameNext-all (x ∷ xs) f g h = (h x, SameNext-all xs f g h)

pub SameNext-assign :
    (xs : List ℕ) (f : ℕ → Process) (a : ℕ) (v : Process)
    → has a xs ≡ false
    → SameNext xs f (assign f a v)
unfolding assign
SameNext-assign [] f a v h = tt
SameNext-assign (x ∷ xs) f a v h = (ground arith, SameNext-assign xs f a v (ground arith))

pub Links-split :
    (xs ys : List ℕ) (f : ℕ → Process) (stop p a : ℕ)
    → Links f stop p (xs ++ a ∷ ys)
    → Links f a p xs × (a ≢ 0) × Links f stop (f a).next ys
Links-split [] ys f stop p a h = (h.0, h.1, h.2)
Links-split (x ∷ xs) ys f stop p a h =
    let (k, n, l) = Links-split xs ys f stop (f x).next a h.2 in ((h.0, h.1, k), n, l)

-- The list begins somewhere.
pub Links-head_ne :
    (xs ys : List ℕ) (f : ℕ → Process) (stop p a : ℕ) → Links f stop p (xs ++ a ∷ ys) → p ≢ 0
Links-head_ne [] ys f stop p a h = λ e. h.1 (sym h.0 ∙ e)
Links-head_ne (x ∷ xs) ys f stop p a h = λ e. h.1 (sym h.0 ∙ e)

pub Links-join :
    (xs ys : List ℕ) (f : ℕ → Process) (stop mid p : ℕ)
    → Links f mid p xs
    → Links f stop mid ys
    → Links f stop p (xs ++ ys)
Links-join [] ys f stop mid p h k = rw h k
Links-join (x ∷ xs) ys f stop mid p h k = (h.0, h.1, Links-join xs ys f stop mid (f x).next h.2 k)

pub find_from-has :
    (fuel pro p : ℕ) (f : ℕ → Process) (xs : List ℕ)
    → Links f 0 p xs
    → length xs < fuel
    → find_from fuel pro p f ≡ ok (has pro xs)
unfolding find_from
find_from-has zero pro p f xs l h = absurd (omega arith)
find_from-has (suc fuel) pro p f [] l h = let z : (p == 0) ≡ true = ground arith in rw z
find_from-has (suc fuel) pro p f (x ∷ xs) (e, nz, l) h =
    let z : (p == 0) ≡ false = ground arith in
    let ih = find_from-has fuel pro (f x).next f xs l (omega arith) in
    elim (Bool-cases (x == pro)) [
      | inl y ↦ let w : (pro == x) ≡ true = ground arith in rw (z, e, y, w)
      | inr n ↦ let w : (pro == x) ≡ false = ground arith in rw (z, e, n, w) ih
    ]

-- With fuel for every process and the end, `is_valid_process_ptr` and `find_process` tell whether
-- the pointer is in the list of processes.
pub pointer-has :
    (fuel pro : ℕ) (k : Kernel) (xs : List ℕ)
    → Links k.proc 0 k.process_list xs
    → length xs < fuel
    → (is_valid_process_ptr fuel pro k ≡ ok (if has pro xs then 1 else 0))
      × (find_process fuel pro k ≡ ok (if has pro xs then pro else 0))
unfolding is_valid_process_ptr find_process
pointer-has fuel pro k xs l h =
    let e = find_from-has fuel pro k.process_list k.proc xs l h in (rw e, rw e)
