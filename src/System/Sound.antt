-- ===== src/System/Sound.antt =====
-- The invariant of the processes of kernel/process.c.
use my_kernel.Common.{
  ℕ, ◌≡◌, ◌≢◌, refl, sym, ap, ◌∙◌, inl, inr, true, List, [], ◌∷◌, ◌++◌, arith, ◌==◌, Bool-cases,
}
use my_kernel.Process.{Kernel}
use my_kernel.Process.Links.{Links, has, has-append}
use my_kernel.Process.Wake.{settled}
use my_kernel.Process.Circle.{Distinct, Circle}

-- `xs` are the processes in the order of the list. None stands there twice, the current one is
-- among them, each is ready, blocked or a zombie, and none is its own parent.
pub record Sound (k : Kernel) (xs : List ℕ) : Type 0 where
  pub links : Links k.proc 0 k.process_list xs
  pub distinct : Distinct xs
  pub current : has k.current_process xs ≡ true
  pub settles : (q : ℕ) → has q xs ≡ true → settled (k.proc q).state ≡ true
  pub parent : (q : ℕ) → has q xs ≡ true → (k.proc q).parent ≢ q

pub has-split :
    (a : ℕ) (xs : List ℕ)
    → has a xs ≡ true
    → (before : List ℕ) × (after : List ℕ) × (xs ≡ before ++ a ∷ after)
has-split a [] h = absurd (cc)
has-split a (x ∷ xs) h = elim (Bool-cases (a == x)) [
  | inl y ↦ let e : a ≡ x = ground arith in ([], xs, rw e refl)
  | inr n ↦
      let (before, after, e) = has-split a xs (ground arith) in
      (x ∷ before, after, ap (λ t. x ∷ t) e)
]

pub has-middle : (a : ℕ) (xs ys : List ℕ) → has a (xs ++ a ∷ ys) ≡ true
has-middle a xs ys = ground (arith, has-append a xs (a ∷ ys))

pub Sound-Circle :
    (k : Kernel) (xs : List ℕ)
    → Sound k xs
    → (before : List ℕ) × (after : List ℕ) × (xs ≡ before ++ k.current_process ∷ after)
      × Circle k before after
Sound-Circle k xs s =
    let (before, after, e) = has-split k.current_process xs s.current in
    (before, after, e, record { links = rw e at s.links; distinct = rw e at s.distinct })

-- What an event may do to the processes of the list, so that it stays sound.
pub record Keeps (k : Kernel) (xs : List ℕ) (t : Kernel) : Type 0 where
  pub links : Links t.proc 0 t.process_list xs
  pub current : has t.current_process xs ≡ true
  pub settles : (q : ℕ) → settled (k.proc q).state ≡ true → settled (t.proc q).state ≡ true
  pub parent : (q : ℕ) → (t.proc q).parent ≡ (k.proc q).parent

pub Keeps-Sound : (k t : Kernel) (xs : List ℕ) → Sound k xs → Keeps k xs t → Sound t xs
Keeps-Sound k t xs s h = record {
  links = h.links;
  distinct = s.distinct;
  current = h.current;
  settles = λ q m. h.settles q (s.settles q m);
  parent = λ q m e. s.parent q m (sym (h.parent q) ∙ e);
}
