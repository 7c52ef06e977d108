-- ===== src/Process/Wake.antt =====
-- `wake_processes` of kernel/process.c.
use my_kernel.Common.{
  ℕ, zero, suc, ◌^◌, ◌≤◌, ◌<◌, ◌≡◌, ◌≢◌, ◌↔◌, refl, ◌∙◌, ◌⊎◌, Bool, ◌&&◌, inl, inr, true, false,
  ◌||◌, List, [], ◌∷◌, arith, ◌==◌, if◌then◌else◌, length, Bool-cases,
}
use my_kernel.Common.Run.{ok}
use my_kernel.Process.{
  ProcessState, running, terminated, blocked, is_blocked, is_ready, int_ge, with_state, ready,
  Process, Kernel, assign, wake, wake_from, wake_processes,
}
use my_kernel.Process.Links.{Links, Links-same, SameNext-all, has}

wake_twice : (ticks : ℕ) (p : Process) → wake ticks (wake ticks p) ≡ wake ticks p
unfolding wake
wake_twice ticks p = ground arith

-- No process is left in one of the states that nothing sets.
abbrev pub settled : ProcessState → Bool
settled running = false
settled terminated = false
settled _ = true

pub wake_settled :
    (now : ℕ) (p : Process) → settled p.state ≡ true → settled (wake now p).state ≡ true
unfolding wake
wake_settled now p h = ground arith

pub wake-parent : (now : ℕ) (p : Process) → (wake now p).parent ≡ p.parent
unfolding wake
wake-parent now p = ground arith

pub wake_ready :
    (now : ℕ) (p : Process) → is_ready p.state ≡ true → is_ready (wake now p).state ≡ true
unfolding wake
wake_ready now p h = ground arith

pub wake-blocked :
    (now : ℕ) (p : Process)
    → is_blocked p.state ≡ true
    → wake now p ≡ (if int_ge now p.wake then with_state ready p else p)
unfolding wake
wake-blocked now p h = rw h

wake-next : (ticks : ℕ) (p : Process) → (wake ticks p).next ≡ p.next
unfolding wake
wake-next ticks p = ground arith

-- Every process of the list is woken if it is due, and no other is touched.
abbrev pub Woken : ℕ → List ℕ → (ℕ → Process) → (ℕ → Process) → Type 0
Woken ticks xs f g = (q : ℕ) → g q ≡ (if has q xs then wake ticks (f q) else f q)

woken_step :
    (ticks q x : ℕ) (f : ℕ → Process) (xs : List ℕ)
    → (if has q xs
        then wake ticks (assign f x (wake ticks (f x)) q)
        else assign f x (wake ticks (f x)) q)
      ≡ (if (q == x) || has q xs then wake ticks (f q) else f q)
unfolding assign
woken_step ticks q x f xs = elim (Bool-cases (q == x)) [
  | inr n ↦ rw n
  | inl y ↦
      let e : q ≡ x = ground arith in
      rw (y, e)
        (elim (Bool-cases (has x xs)) [
          | inl m ↦ rw m (ground (arith, wake_twice ticks (f x)))
          | inr m ↦ rw m (ground arith)
        ])
]

wake_from-Woken :
    (fuel ticks p : ℕ) (f : ℕ → Process) (xs : List ℕ)
    → Links f 0 p xs
    → length xs < fuel
    → (g : ℕ → Process) × (wake_from fuel ticks p f ≡ ok g) × Woken ticks xs f g
unfolding wake_from assign
wake_from-Woken zero ticks p f xs l h = absurd (omega arith)
wake_from-Woken (suc fuel) ticks p f [] l h =
    let z : (p == 0) ≡ true = ground arith in (f, rw z, λ q. refl)
wake_from-Woken (suc fuel) ticks p f (x ∷ xs) (e, nz, l) h =
    let z : (p == 0) ≡ false = ground arith in
    let f' = assign f x (wake ticks (f x)) in
    let same : (q : ℕ) → (f' q).next ≡ (f q).next = λ q. ground (arith, wake-next ticks (f x)) in
    let l' = Links-same xs f f' 0 (f x).next (SameNext-all xs f f' same) l in
    let (g, r, w) = wake_from-Woken fuel ticks (f x).next f' xs l' (omega arith) in
    (g, rw (z, e) r, λ q. w q ∙ woken_step ticks q x f xs)

-- With fuel for every process and the end, `wake_processes` makes exactly the blocked processes
-- of the list ready whose time has come, and leaves everything else, the list included.
pub wake_processes-Woken :
    (fuel : ℕ) (k : Kernel) (xs : List ℕ)
    → Links k.proc 0 k.process_list xs
    → length xs < fuel
    → (g : ℕ → Process) × (wake_processes fuel k ≡ ok (record k { proc = g }))
      × Woken k.ticks xs k.proc g
      × Links g 0 k.process_list xs
unfolding wake_processes
wake_processes-Woken fuel k xs l h =
    let (g, e, w) = wake_from-Woken fuel k.ticks k.process_list k.proc xs l h in
    let same : (q : ℕ) → (g q).next ≡ (k.proc q).next =
      λ q. ground (arith, w q, wake-next k.ticks (k.proc q)) in
    (g, rw e, w, Links-same xs k.proc g 0 k.process_list (SameNext-all xs k.proc g same) l)

-- `b <= a` of two 32-bit `int`s, by their bits: the upper half of the numbers is negative.
abbrev pub SignedLe : ℕ → ℕ → Type 0
SignedLe b a =
    ((a < 2 ^ 31) × (2 ^ 31 ≤ b))
    ⊎ ((a < 2 ^ 31) × (b < 2 ^ 31) × (b ≤ a))
    ⊎ ((2 ^ 31 ≤ a) × (2 ^ 31 ≤ b) × (b ≤ a))

-- In `f` the process `q` waits for a tick that is not behind `now`.
pub record IsDue (now : ℕ) (f : ℕ → Process) (q : ℕ) : Type 0 where
  pub state : (f q).state ≡ blocked
  pub time : SignedLe (f q).wake now

-- From `f` to `g` the processes of `xs` that are due become ready, and no other process changes.
pub record Wakes (now : ℕ) (xs : List ℕ) (f g : ℕ → Process) : Type 0 where
  pub wakes : (q : ℕ) → has q xs ≡ true → IsDue now f q → g q ≡ record (f q) { state = ready }
  pub others :
      (q : ℕ)
      → (has q xs ≡ false) ⊎ ((f q).state ≢ blocked) ⊎ (¬ SignedLe (f q).wake now)
      → g q ≡ f q

is_blocked-blocked : (s : ProcessState) → is_blocked s ≡ true → s ≡ blocked
is_blocked-blocked s h = ground arith

int_ge-SignedLe : (a b : ℕ) → a < 2 ^ 32 → b < 2 ^ 32 → (int_ge a b ≡ true) ↔ SignedLe b a
unfolding int_ge
int_ge-SignedLe a b ha hb = (λ e. ground arith, λ s. ground arith)

wake_due :
    (now : ℕ) (p : Process)
    → p.state ≡ blocked
    → int_ge now p.wake ≡ true
    → wake now p ≡ record p { state = ready }
unfolding wake
wake_due now p s t = rw (s, t) refl

wake_not :
    (now : ℕ) (p : Process) → (is_blocked p.state && int_ge now p.wake) ≡ false → wake now p ≡ p
unfolding wake
wake_not now p n = rw n refl

stays :
    (now : ℕ) (p : Process) (listed : Bool)
    → (is_blocked p.state && int_ge now p.wake) ≡ false
    → (if listed then wake now p else p) ≡ p
stays now p true n = wake_not now p n
stays now p false n = refl

and_false-left : (a b : Bool) → ¬ (a ≡ true) → (a && b) ≡ false
and_false-left a b n = ground (arith, n)

and_false-right : (a b : Bool) → ¬ (b ≡ true) → (a && b) ≡ false
and_false-right a b n = ground (arith, n)

-- On a clock and with wake-up times of 32 bits, and with fuel for every process and the end,
-- `wake_processes` makes exactly the blocked processes of the list ready whose wake-up time, as an
-- `int`, is not after the clock, and leaves everything else, the list included.
pub wake_processes-Wakes :
    (fuel : ℕ) (k : Kernel) (xs : List ℕ)
    → Links k.proc 0 k.process_list xs
    → length xs < fuel
    → k.ticks < 2 ^ 32
    → ((q : ℕ) → (k.proc q).wake < 2 ^ 32)
    → (g : ℕ → Process) × (wake_processes fuel k ≡ ok (record k { proc = g }))
      × Wakes k.ticks xs k.proc g
      × Links g 0 k.process_list xs
wake_processes-Wakes fuel k xs l h low lows =
    let (g, e, w, m) = wake_processes-Woken fuel k xs l h in
    (
      g,
      e,
      record {
        wakes = λ q there due.
            let t = (int_ge-SignedLe k.ticks (k.proc q).wake low (lows q)).1 due.time in
            w q ∙ rw there (wake_due k.ticks (k.proc q) due.state t);
        others = λ q why. elim why [
          | inl out ↦ w q ∙ rw out refl
          | inr (inl state) ↦
              w q
              ∙ stays k.ticks (k.proc q) (has q xs) (
                  and_false-left (is_blocked (k.proc q).state) _
                    (λ b. state (is_blocked-blocked _ b)))
          | inr (inr time) ↦
              w q
              ∙ stays k.ticks (k.proc q) (has q xs) (
                  and_false-right (is_blocked (k.proc q).state) _
                    (λ t. time ((int_ge-SignedLe k.ticks (k.proc q).wake low (lows q)).0 t)))
        ];
      },
      m,
    )
