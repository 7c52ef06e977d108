-- ===== src/System/Create.antt =====
-- `create_process` of kernel/process.c and the invariant of the processes.
use my_kernel.Common.{
  ℕ, ◌≤◌, ◌≡◌, ◌≢◌, refl, sym, ap, ◌∙◌, ◌⊎◌, inl, inr, true, false, List, [], ◌∷◌, ◌++◌, arith,
  ◌==◌, length, Bool-cases,
}
use my_kernel.Common.Run.{ok}
use my_kernel.Pmm.Virtual.{allocate_page, allocate_pages_contig}
use my_kernel.Pmm.Heap.{Heap, kmalloc}
use my_kernel.Process.{Process, Kernel}
use my_kernel.Process.Links.{has, has-append}
use my_kernel.Process.Wake.{settled}
use my_kernel.Process.Circle.{Distinct}
use my_kernel.Process.Create.{sizeof_process, create_process}
use my_kernel.Process.Created.{Created, create_process-Created}
use my_kernel.System.Sound.{Sound}

Distinct-snoc : (xs : List ℕ) (a : ℕ) → Distinct xs → has a xs ≡ false → Distinct (xs ++ a ∷ [])
Distinct-snoc [] a d n = (refl, tt)
Distinct-snoc (x ∷ xs) a d n =
    let m : (x == a) ≡ false = ground arith in
    (ground (arith, has-append x xs (a ∷ []), d.0), Distinct-snoc xs a d.1 (ground arith))

-- A process that only `next` may have changed of.
same_but_next :
    (p q : Process) (n : ℕ)
    → (p ≡ q) ⊎ (p ≡ record q { next = n })
    → (p.state ≡ q.state) × (p.parent ≡ q.parent)
same_but_next p q n (inl e) = (ap (λ (x : Process). x.state) e, ap (λ (x : Process). x.parent) e)
same_but_next p q n (inr e) = (ap (λ (x : Process). x.state) e, ap (λ (x : Process). x.parent) e)

module _ (k t : Kernel) (xs : List ℕ) (pro stack user_stack process_entry entry mode : ℕ)
    (s : Sound k xs) (new : has pro xs ≡ false)
    (c : Created k xs pro stack user_stack process_entry entry mode t) where
  member : (q : ℕ) → has q (xs ++ pro ∷ []) ≡ true → (q ≡ pro) ⊎ ((q ≢ pro) × (has q xs ≡ true))
  member q h = elim (Bool-cases (q == pro)) [
    | inl y ↦ inl (ground arith)
    | inr n ↦ inr (ground arith, ground (arith, has-append q xs (pro ∷ [])))
  ]

  pub Created-Sound : Sound t (xs ++ pro ∷ [])
  Created-Sound = record {
    links = c.links;
    distinct = Distinct-snoc xs pro s.distinct new;
    current = elim c.runs [
      | inl (e, same) ↦ rw same (ground (arith, has-append pro xs (pro ∷ [])))
      | inr (e, same) ↦
          rw same (ground (arith, has-append k.current_process xs (pro ∷ []), s.current))
    ];
    settles = λ q m. elim (member q m) [
      | inl e ↦ rw (e, c.state) refl
      | inr (n, there) ↦
          ap settled (same_but_next (t.proc q) (k.proc q) pro (c.others q n)).0 ∙ s.settles q there
    ];
    parent = λ q m e. elim (member q m) [
      | inl same ↦
          let cur : k.current_process ≡ pro =
            sym c.parent ∙ ap (λ (a : ℕ). (t.proc a).parent) (sym same) ∙ e ∙ same in
          let there : true ≡ false = sym s.current ∙ ap (λ (a : ℕ). has a xs) cur ∙ new in
          absurd (cc there)
      | inr (n, there) ↦
          s.parent q there (sym (same_but_next (t.proc q) (k.proc q) pro (c.others q n)).1 ∙ e)
    ];
  }

-- From a sound kernel with fuel for every process: when `kmalloc` gives a place that is not in the
-- list, and there are pages for the kernel stack and, in user mode, for the user stack,
-- `create_process` ends, and leaves a sound kernel with the new process behind the others.
pub create_process-Sound :
    (blocks fuel process_entry entry mode : ℕ) (k : Kernel) (xs : List ℕ) (pro : ℕ) (heap : Heap)
    → Sound k xs
    → length xs ≤ fuel
    → kmalloc blocks sizeof_process 3 k.heap ≡ ok (pro, heap)
    → pro ≢ 0
    → has pro xs ≡ false
    → (allocate_pages_contig 4 3 heap.vm).0 ≢ 0
    → (mode ≡ 1 → (allocate_page 7 (allocate_pages_contig 4 3 heap.vm).1).0 ≢ 0)
    → (t : Kernel) × (create_process blocks fuel process_entry entry mode k ≡ ok (pro, t))
      × Sound t (xs ++ pro ∷ [])
create_process-Sound blocks fuel process_entry entry mode k xs pro heap s enough m nz new there
      user =
    let (t, e, c) =
      create_process-Created blocks fuel process_entry entry mode k xs pro heap s.links s.distinct
        enough m nz new there user in
    (t, e, Created-Sound k t xs pro _ _ process_entry entry mode s new c)
