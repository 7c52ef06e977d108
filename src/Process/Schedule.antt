-- ===== src/Process/Schedule.antt =====
-- `schedule` of kernel/process.c is round robin: the first ready process in the order that begins
-- behind the current one.
use my_kernel.Common.{
  ℕ, zero, suc, ◌<◌, ◌≡◌, ◌≢◌, refl, ◌⊎◌, inl, inr, true, false, List, [], ◌∷◌, ◌++◌, arith, ◌==◌,
  if◌then◌else◌, length, length-append, Bool-cases,
}
use my_kernel.Common.Run.{ok}
use my_kernel.Process.{Process, Kernel, is_ready, ready_to_end, ready_to, schedule}
use my_kernel.Process.Links.{Links, Links-split, has, has-append}

-- The first ready process of the list, and 0 if there is none.
unfoldable pub first_ready : (ℕ → Process) → List ℕ → ℕ
first_ready proc [] = 0
first_ready proc (x ∷ xs) = if is_ready (proc x).state then x else first_ready proc xs

ready_to_end-first :
    (fuel p : ℕ) (f : ℕ → Process) (xs : List ℕ)
    → Links f 0 p xs
    → length xs < fuel
    → ready_to_end fuel p f ≡ ok (first_ready f xs)
unfolding ready_to_end first_ready
ready_to_end-first zero p f xs l h = absurd (omega arith)
ready_to_end-first (suc fuel) p f [] l h = let z : (p == 0) ≡ true = ground arith in rw z
ready_to_end-first (suc fuel) p f (x ∷ xs) (e, nz, l) h =
    let z : (p == 0) ≡ false = ground arith in
    let ih = ready_to_end-first fuel (f x).next f xs l (omega arith) in
    elim (Bool-cases (is_ready (f x).state)) [ inl y ↦ rw (z, e, y) | inr n ↦ rw (z, e, n) ih ]

ready_to-first :
    (fuel stop p : ℕ) (f : ℕ → Process) (xs : List ℕ)
    → Links f stop p xs
    → has stop xs ≡ false
    → length xs < fuel
    → ready_to fuel stop p f ≡ ok (first_ready f xs)
unfolding ready_to first_ready
ready_to-first zero stop p f xs l n h = absurd (omega arith)
ready_to-first (suc fuel) stop p f [] l n h = let z : (p == stop) ≡ true = ground arith in rw z
ready_to-first (suc fuel) stop p f (x ∷ xs) (e, nz, l) n h =
    let s : (p == stop) ≡ false = ground arith in
    let z : (p == 0) ≡ false = ground arith in
    let ih = ready_to-first fuel stop (f x).next f xs l (ground arith) (omega arith) in
    elim (Bool-cases (is_ready (f x).state)) [
      | inl y ↦ rw (s, z, e, y)
      | inr m ↦ rw (s, z, e, m) ih
    ]

first_ready-append :
    (f : ℕ → Process) (stop p : ℕ) (xs ys : List ℕ)
    → Links f stop p xs
    → first_ready f (xs ++ ys)
      ≡ (if first_ready f xs == 0 then first_ready f ys else first_ready f xs)
unfolding first_ready
first_ready-append f stop p [] ys l = refl
first_ready-append f stop p (x ∷ xs) ys (e, nz, l) =
    ground (arith, first_ready-append f stop (f x).next xs ys l)

-- The processes in the order of the list, the current one in the middle and nowhere else.
pub record IsRunning (k : Kernel) (before after : List ℕ) : Type 0 where
  pub links : Links k.proc 0 k.process_list (before ++ k.current_process ∷ after)
  pub once_before : has k.current_process before ≡ false
  pub once_after : has k.current_process after ≡ false

-- With the current process in the list, and fuel for every process and the end, `schedule`
-- returns the first ready process behind the current one, else the first one before it, else
-- `NULL`.
pub schedule-first_ready :
    (fuel : ℕ) (k : Kernel) (before after : List ℕ)
    → IsRunning k before after
    → length (before ++ k.current_process ∷ after) < fuel
    → schedule fuel k ≡ ok (first_ready k.proc (after ++ before))
unfolding schedule
schedule-first_ready fuel k before after r h =
    let c = k.current_process in
    let (lb, nz, la) = Links-split before after k.proc 0 k.process_list c r.links in
    let len = length-append before (c ∷ after) in
    let e = ready_to_end-first fuel (k.proc c).next k.proc after la (omega arith) in
    let d = ready_to-first fuel c k.process_list k.proc before lb r.once_before (omega arith) in
    let a = first_ready-append k.proc 0 (k.proc c).next after before la in
    let z : (c == 0) ≡ false = ground arith in
    elim (Bool-cases (first_ready k.proc after == 0)) [
      | inl y ↦ rw (z, e, y, d, a, y)
      | inr n ↦ rw (z, e, n, a, n)
    ]

has-behind : (a x : ℕ) (xs : List ℕ) → has a xs ≡ true → has a (x ∷ xs) ≡ true
has-behind a x xs h = ground arith

pub first_ready-cases :
    (f : ℕ → Process) (xs : List ℕ)
    → (first_ready f xs ≡ 0)
      ⊎ ((has (first_ready f xs) xs ≡ true) × (is_ready (f (first_ready f xs)).state ≡ true))
unfolding first_ready
first_ready-cases f [] = inl refl
first_ready-cases f (x ∷ xs) = elim (Bool-cases (is_ready (f x).state)) [
  | inl y ↦ inr (rw y (ground arith), rw y y)
  | inr n ↦ elim (first_ready-cases f xs) [
    | inl z ↦ inl (rw n z)
    | inr (h, r) ↦
        let e : first_ready f (x ∷ xs) ≡ first_ready f xs = rw n in
        inr (has-behind (first_ready f (x ∷ xs)) x xs (rw e h), rw e r)
  ]
]

pub first_ready-Ready :
    (k : Kernel) (before after : List ℕ)
    → IsRunning k before after
    → let n = first_ready k.proc (after ++ before) in
      (n ≡ 0) ⊎ ((n ≢ k.current_process) × (is_ready (k.proc n).state ≡ true))
first_ready-Ready k before after r =
    let n = first_ready k.proc (after ++ before) in
    let other : (has n (after ++ before) ≡ true) → n ≢ k.current_process =
      λ m e. cc (has-append k.current_process after before, r.once_before, r.once_after, m, e) in
    elim (first_ready-cases k.proc (after ++ before)) [
      | inl z ↦ inl z
      | inr (m, y) ↦ inr (other m, y)
    ]

-- With the current process once in the list, and fuel for every process and the end, what
-- `schedule` returns is `NULL` or a ready process other than the current one.
pub schedule-Ready :
    (fuel : ℕ) (k : Kernel) (before after : List ℕ)
    → IsRunning k before after
    → length (before ++ k.current_process ∷ after) < fuel
    → (next : ℕ) × (schedule fuel k ≡ ok next)
      × ((next ≡ 0) ⊎ ((next ≢ k.current_process) × (is_ready (k.proc next).state ≡ true)))
schedule-Ready fuel k before after r h = (
  first_ready k.proc (after ++ before),
  schedule-first_ready fuel k before after r h,
  first_ready-Ready k before after r,
)
