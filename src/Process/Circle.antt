-- ===== src/Process/Circle.antt =====
-- The list of processes of kernel/process.c as a circle: the order in which `schedule` looks at the
-- processes, and how it turns when the processor is handed on.
use my_kernel.Common.{
  ℕ, ◌≡◌, refl, sym, ap, ◌∙◌, ◌⊎◌, inl, inr, true, false, List, [], ◌∷◌, ◌++◌, arith, append_assoc,
  Bool-cases,
}
use my_kernel.Process.{Process, Kernel, is_ready}
use my_kernel.Process.Links.{Links, has, has-append}
use my_kernel.Process.Schedule.{IsRunning, first_ready}

abbrev pub Distinct : List ℕ → Type 0
Distinct [] = Unit {0}
Distinct (x ∷ xs) = (has x xs ≡ false) × Distinct xs

pub Distinct-middle :
    (xs ys : List ℕ) (a : ℕ) → Distinct (xs ++ a ∷ ys) → (has a xs ≡ false) × (has a ys ≡ false)
Distinct-middle [] ys a d = (refl, d.0)
Distinct-middle (x ∷ xs) ys a d =
    let (p, q) = Distinct-middle xs ys a d.1 in (ground (arith, has-append x xs (a ∷ ys)), q)

-- The processes in the order of the list, the current one in the middle, and none twice.
pub record Circle (k : Kernel) (before after : List ℕ) : Type 0 where
  pub links : Links k.proc 0 k.process_list (before ++ k.current_process ∷ after)
  pub distinct : Distinct (before ++ k.current_process ∷ after)

pub Circle-IsRunning :
    (k : Kernel) (before after : List ℕ) → Circle k before after → IsRunning k before after
Circle-IsRunning k before after c =
    let (p, q) = Distinct-middle before after k.current_process c.distinct in
    record { links = c.links; once_before = p; once_after = q }

-- Where the element `x` of two joined lists stands.
pub split-append :
    (xs ys pre post : List ℕ) (x : ℕ)
    → xs ++ ys ≡ pre ++ x ∷ post
    → ((behind : List ℕ) × (xs ≡ pre ++ x ∷ behind) × (post ≡ behind ++ ys))
      ⊎ ((front : List ℕ) × (ys ≡ front ++ x ∷ post) × (pre ≡ xs ++ front))
split-append [] ys pre post x e = inr (pre, e, refl)
split-append (y ∷ xs) ys [] post x e = inl (xs, cc, cc)
split-append (y ∷ xs) ys (z ∷ pre) post x e = elim (split-append xs ys pre post x (cc)) [
  | inl (behind, p, q) ↦ inl (behind, cc, q)
  | inr (front, p, q) ↦ inr (front, p, cc)
]

-- Behind `x` the circle goes on, and comes to what it has passed.
pub rotate :
    (before after pre post : List ℕ) (c x : ℕ)
    → after ++ before ≡ pre ++ x ∷ post
    → (before' : List ℕ) × (after' : List ℕ) × (before' ++ x ∷ after' ≡ before ++ c ∷ after)
      × (after' ++ before' ≡ post ++ c ∷ pre)
rotate before after pre post c x e = elim (split-append after before pre post x e) [
  | inl (behind, p, q) ↦ (
    before ++ c ∷ pre,
    behind,
    append_assoc before (c ∷ pre) (x ∷ behind) ∙ rw p,
    rw q (sym (append_assoc behind before (c ∷ pre))),
  )
  | inr (front, p, q) ↦ (
    front,
    post ++ c ∷ after,
    rw p (sym (append_assoc front (x ∷ post) (c ∷ after))),
    append_assoc post (c ∷ after) front ∙ rw q,
  )
]

-- The first ready process is at most as far as a ready process `q`.
pub first_ready-before :
    (f : ℕ → Process) (us vs : List ℕ) (q : ℕ)
    → is_ready (f q).state ≡ true
    → (first_ready f (us ++ q ∷ vs) ≡ q)
      ⊎ ((pre : List ℕ) × (x : ℕ) × (rest : List ℕ) × (us ≡ pre ++ x ∷ rest)
          × (first_ready f (us ++ q ∷ vs) ≡ x))
unfolding first_ready
first_ready-before f [] vs q r = inl (rw r)
first_ready-before f (u ∷ us) vs q r = elim (Bool-cases (is_ready (f u).state)) [
  | inl y ↦ inr ([], u, us, refl, rw y)
  | inr n ↦ elim (first_ready-before f us vs q r) [
    | inl e ↦ inl (rw n e)
    | inr (pre, x, rest, s, e) ↦ inr (u ∷ pre, x, rest, ap (λ t. u ∷ t) s, rw n e)
  ]
]
