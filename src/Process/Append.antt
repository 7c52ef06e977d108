-- ===== src/Process/Append.antt =====
-- `add_process` of kernel/process.c: the new process comes last.
use my_kernel.Common.{
  ℕ, zero, suc, ◌≤◌, ◌<◌, ◌≡◌, ◌≢◌, refl, ◌⊎◌, inl, inr, true, false, List, [], ◌∷◌, ◌++◌, arith,
  ◌==◌, length, Bool-cases,
}
use my_kernel.Common.Run.{ok}
use my_kernel.Process.{Process, Kernel, assign, append_from, add_process}
use my_kernel.Process.Links.{Links, Links-same, SameNext, SameNext-assign, has}
use my_kernel.Process.Circle.{Distinct}

-- In `g` the process `pro` stands behind `xs`, which lead from `p`; only `next` of one of `xs` has
-- changed.
pub record Appended (xs : List ℕ) (p pro : ℕ) (f g : ℕ → Process) : Type 0 where
  pub links : Links g 0 p (xs ++ pro ∷ [])
  pub others : (q : ℕ) → has q xs ≡ false → g q ≡ f q
  pub fields : (q : ℕ) → (g q ≡ f q) ⊎ (g q ≡ record (f q) { next = pro })

append_from-Appended :
    (fuel pro p x : ℕ) (xs : List ℕ) (f : ℕ → Process)
    → Links f 0 p (x ∷ xs)
    → Distinct (x ∷ xs)
    → has pro (x ∷ xs) ≡ false
    → pro ≢ 0
    → (f pro).next ≡ 0
    → length xs < fuel
    → (g : ℕ → Process) × (append_from fuel pro p f ≡ ok g) × Appended (x ∷ xs) p pro f g
unfolding append_from assign
append_from-Appended zero pro p x xs f l d out nz last enough = absurd (omega arith)
append_from-Appended (suc fuel) pro p x [] f (e, xz, l) d out nz last enough =
    let g = assign f x (record (f x) { next = pro }) in
    let z : ((f x).next == 0) ≡ true = ground arith in
    let n : (pro == x) ≡ false = ground arith in
    let s : (x == x) ≡ true = ground arith in
    (
      g,
      rw (e, z) refl,
      record {
        links = (e, xz, (rw s refl, nz, rw n last));
        others = λ q h. ground arith;
        fields = λ q. elim (Bool-cases (q == x)) [
          | inl y ↦ let same : q ≡ x = ground arith in inr (rw (same, s) refl)
          | inr m ↦ inl (rw m refl)
        ];
      },
    )
append_from-Appended (suc fuel) pro p x (y ∷ ys) f (e, xz, (ey, yz, l)) (dx, d) out nz last enough =
    let (g, a, h) =
      append_from-Appended fuel pro (f x).next y ys f (ey, yz, l) d (ground arith) nz last
        (omega arith) in
    let z : ((f x).next == 0) ≡ false = ground arith in
    let same = h.others x dx in
    (
      g,
      rw (e, z) a,
      record {
        links = (e, xz, rw same h.links);
        others = λ q o. h.others q (ground arith);
        fields = h.fields;
      },
    )

-- With fuel for every process, `add_process` puts the new one, which is in no list, behind the
-- others, and it becomes the only and the current one if there were none. No other field of any
-- process changes.
pub add_process-Appended :
    (fuel pro : ℕ) (k : Kernel) (xs : List ℕ)
    → Links k.proc 0 k.process_list xs
    → Distinct xs
    → has pro xs ≡ false
    → pro ≢ 0
    → length xs ≤ fuel
    → let f = assign k.proc pro (record (k.proc pro) { next = 0 }) in
      (t : Kernel) × (add_process fuel pro k ≡ ok t)
      × Appended xs t.process_list pro f t.proc
      × (((xs ≡ []) × (t ≡ record k { proc = f; process_list = pro; current_process = pro }))
          ⊎ ((xs ≢ []) × (t ≡ record k { proc = t.proc })))
unfolding add_process assign
add_process-Appended fuel pro k [] l d out nz enough =
    let z : (k.process_list == 0) ≡ true = ground arith in
    let f = assign k.proc pro (record (k.proc pro) { next = 0 }) in
    let s : (pro == pro) ≡ true = ground arith in
    (
      record k { proc = f; process_list = pro; current_process = pro },
      rw z refl,
      record { links = (refl, nz, rw s refl); others = λ q h. refl; fields = λ q. inl refl },
      inl (refl, refl),
    )
add_process-Appended fuel pro k (x ∷ xs) (e, xz, l) d out nz enough =
    let z : (k.process_list == 0) ≡ false = ground arith in
    let f = assign k.proc pro (record (k.proc pro) { next = 0 }) in
    let s : (pro == pro) ≡ true = ground arith in
    let same : SameNext (x ∷ xs) k.proc f =
      SameNext-assign (x ∷ xs) k.proc pro (record (k.proc pro) { next = 0 }) out in
    let l' = Links-same (x ∷ xs) k.proc f 0 k.process_list same (e, xz, l) in
    let (g, a, h) =
      append_from-Appended fuel pro k.process_list x xs f l' d out nz (rw s refl) (omega arith) in
    (record k { proc = g }, rw (z, a) refl, h, inr (λ q. cc, refl))
