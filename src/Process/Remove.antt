-- ===== src/Process/Remove.antt =====
-- `remove_process_list` of kernel/process.c.
pub mod Examples
use my_kernel.Common.{
  ℕ, zero, suc, ◌+◌, ◌^◌, ◌≤◌, ◌<◌, ◌≡◌, ◌≢◌, refl, sym, ap, ◌∙◌, ◌⊎◌, inl, inr, Bool, true, false,
  ◌||◌, List, [], ◌∷◌, ◌++◌, some, arith, ◌==◌, if◌then◌else◌, length, Bool-cases,
}
use my_kernel.Common.Run.{Run, ok, ◌>>=◌}
use my_kernel.Pmm.Regions.{max_free_pages}
use my_kernel.Pmm.Paging.Frames.{Tables}
use my_kernel.Pmm.Virtual.{Vm, free_page}
use my_kernel.Pmm.Virtual.Give.{free_page-room}
use my_kernel.Pmm.Heap.{Heap, kfree}
use my_kernel.Pmm.Heap.Release.{IsHeap, freed, kfree-IsHeap}
use my_kernel.Process.{Process, Kernel, assign, remove_process, unlink_from, remove_process_list}
use my_kernel.Process.Links.{Links, Links-same, SameNext-assign, has, has-append}
use my_kernel.Process.Circle.{Distinct, Distinct-middle}

-- The process in front of `pro`, which stands behind `xs`; `previous` if there is none.
abbrev last : ℕ → List ℕ → ℕ
last previous [] = previous
last previous (x ∷ xs) = last x xs

last-has : (x : ℕ) (xs : List ℕ) → has (last x xs) (x ∷ xs) ≡ true
last-has x [] = ground arith
last-has x (y ∷ ys) = ground (arith, last-has y ys)

has-ne : (x a : ℕ) (xs : List ℕ) → has x xs ≡ false → has a xs ≡ true → (x == a) ≡ false
has-ne x a xs out there = elim (Bool-cases (x == a)) [
  | inl y ↦ let e : x ≡ a = ground arith in cc (out, there, e)
  | inr n ↦ n
]

assign_other : (f : ℕ → Process) (a q : ℕ) (v : Process) → (q == a) ≡ false → assign f a v q ≡ f q
unfolding assign
assign_other f a q v n = rw n refl

assign_fields :
    (f : ℕ → Process) (a q n : ℕ)
    → (assign f a (record (f a) { next = n }) q ≡ f q)
      ⊎ (assign f a (record (f a) { next = n }) q ≡ record (f q) { next = n })
unfolding assign
assign_fields f a q n = elim (Bool-cases (q == a)) [
  | inl y ↦ let e : q ≡ a = ground arith in inr (rw y (ap (λ x. record (f x) { next = n }) (sym e)))
  | inr m ↦ inl (rw m refl)
]

-- The list of processes after `previous`, or the head of the list, is made to lead to `after`.
abbrev pub bypass : ℕ → ℕ → Kernel → Kernel
bypass previous after k =
    if previous == 0
    then record k { process_list = after }
    else record k { proc = assign k.proc previous (record (k.proc previous) { next = after }) }

unlink_from-bypass :
    (blocks fuel pro p previous : ℕ) (k : Kernel) (xs ys : List ℕ)
    → Links k.proc 0 p (xs ++ pro ∷ ys)
    → has pro xs ≡ false
    → length xs < fuel
    → unlink_from blocks fuel pro p previous k
      ≡ remove_process blocks pro (bypass (last previous xs) (k.proc pro).next k)
unfolding unlink_from
unlink_from-bypass blocks zero pro p previous k xs ys l out h = absurd (omega arith)
unlink_from-bypass blocks (suc fuel) pro p previous k [] ys (e, nz, l) out h =
    let z : (pro == 0) ≡ false = ground arith in
    let s : (pro == pro) ≡ true = ground arith in
    elim (Bool-cases (previous == 0)) [
      | inl y ↦ rw (e, z, s, y) refl
      | inr n ↦ rw (e, z, s, n) refl
    ]
unlink_from-bypass blocks (suc fuel) pro p previous k (x ∷ xs) ys (e, nz, l) out h =
    let z : (x == 0) ≡ false = ground arith in
    let n : (x == pro) ≡ false = ground arith in
    rw (e, z, n)
      (unlink_from-bypass blocks fuel pro (k.proc x).next x k xs ys l (ground arith) (omega arith))

-- Behind the first process of the list the links skip `pro`.
skip-Links :
    (f : ℕ → Process) (p x pro : ℕ) (xs ys : List ℕ)
    → Links f 0 p (x ∷ xs ++ pro ∷ ys)
    → Distinct (x ∷ xs ++ pro ∷ ys)
    → let l = last x xs in
      Links (assign f l (record (f l) { next = (f pro).next })) 0 p (x ∷ xs ++ ys)
unfolding assign
skip-Links f p x pro [] ys (e, nz, (e', nz', l)) (dx, d) =
    let v = record (f x) { next = (f pro).next } in
    let s : (x == x) ≡ true = ground arith in
    (
      e,
      nz,
      rw s (
          Links-same ys f (assign f x v) 0 (f pro).next (SameNext-assign ys f x v (ground arith))
            l),
    )
skip-Links f p x pro (y ∷ xs) ys (e, nz, l) (dx, d) =
    let there = last-has y xs in
    let split = has-append x (y ∷ xs) (pro ∷ ys) in
    let n = has-ne x (last y xs) (y ∷ xs) (ground arith) there in
    (e, nz, rw n (skip-Links f (f x).next y pro xs ys l d))

last_ne :
    (f : ℕ → Process) (stop p x : ℕ) (xs ys : List ℕ)
    → Links f stop p (x ∷ xs ++ ys)
    → last x xs ≢ 0
last_ne f stop p x [] ys l = l.1
last_ne f stop p x (y ∷ xs) ys l = last_ne f stop (f x).next y xs ys l.2

-- The processes of `t` are those of `k` without `pro`; no field but `next` of one of them changes.
pub record Unlinked (pro : ℕ) (xs ys : List ℕ) (k t : Kernel) : Type 0 where
  pub links : Links t.proc 0 t.process_list (xs ++ ys)
  pub outside : (q : ℕ) → has q xs ≡ false → t.proc q ≡ k.proc q
  pub fields :
      (q : ℕ) → (t.proc q ≡ k.proc q) ⊎ (t.proc q ≡ record (k.proc q) { next = (k.proc pro).next })
  pub rest : t ≡ record k { proc = t.proc; process_list = t.process_list }

bypass-Unlinked :
    (pro : ℕ) (k : Kernel) (xs ys : List ℕ)
    → Links k.proc 0 k.process_list (xs ++ pro ∷ ys)
    → Distinct (xs ++ pro ∷ ys)
    → Unlinked pro xs ys k (bypass (last 0 xs) (k.proc pro).next k)
bypass-Unlinked pro k [] ys (e, nz, l) d = record {
  links = l;
  outside = λ q h. refl;
  fields = λ q. inl refl;
  rest = refl;
}
bypass-Unlinked pro k (x ∷ xs) ys l d =
    let a = last x xs in
    let nz = last_ne k.proc 0 k.process_list x xs (pro ∷ ys) l in
    let z : (a == 0) ≡ false = ground arith in
    rw z (record {
      links = skip-Links k.proc k.process_list x pro xs ys l d;
      outside = λ q h. let n = has-ne q a (x ∷ xs) h (last-has x xs) in assign_other k.proc a q _ n;
      fields = λ q. assign_fields k.proc a q (k.proc pro).next;
      rest = refl;
    })

-- The first page of the kernel stack and the block of the process are given back.
pub record GivenBack (blocks pro stack : ℕ) (bs : List ℕ) (h h' : Heap) : Type 0 where
  pub vm : Vm
  pub page : free_page stack h.vm ≡ some vm
  pub block : kfree blocks pro (record h { vm = vm }) ≡ ok h'
  pub heap : IsHeap h' bs
  pub count : h'.vm.free_count ≡ h.vm.free_count + 1

remove_process-GivenBack :
    (blocks pro stack : ℕ) (old : Heap) (k : Kernel) (bs : List ℕ)
    → k.heap ≡ old
    → (k.proc pro).kernel_stack ≡ stack
    → old.vm.free_count < max_free_pages
    → IsHeap old bs
    → length bs < blocks
    → (h : Heap) × (remove_process blocks pro k ≡ ok (record k { heap = h }))
      × GivenBack blocks pro stack bs old h
unfolding remove_process
remove_process-GivenBack blocks pro stack old k bs same at_stack room heap enough =
    let (vm, e, count) = free_page-room stack old.vm room in
    let h = record old { vm = vm } in
    let i : IsHeap h bs = record { chain = heap.chain; layout = heap.layout } in
    elim (kfree-IsHeap blocks pro h bs i enough) [
      | inl (q, n) ↦ (
        h,
        rw (same, at_stack, e, q) refl,
        record { vm = vm; page = e; block = q; heap = i; count = count },
      )
      | inr (a, u, q, t, j) ↦ (
        record h { block = freed h.block a },
        rw (same, at_stack, e, q) refl,
        record { vm = vm; page = e; block = q; heap = j; count = count },
      )
    ]

-- With fuel for the processes and for the blocks of the heap, and room in the array of freed
-- addresses, `remove_process_list` takes a process
-- of the list out of it and keeps the others in their order. Of the other processes only the `next`
-- of the one in front changes. The first page of its kernel stack and its block are given back.
pub remove_process_list-Removed :
    (blocks fuel pro : ℕ) (k : Kernel) (xs ys bs : List ℕ)
    → Links k.proc 0 k.process_list (xs ++ pro ∷ ys)
    → Distinct (xs ++ pro ∷ ys)
    → length xs < fuel
    → k.heap.vm.free_count < max_free_pages
    → IsHeap k.heap bs
    → length bs < blocks
    → (t : Kernel) × (h : Heap) × (remove_process_list blocks fuel pro k
        ≡ ok (record t { heap = h }))
      × Unlinked pro xs ys k t
      × GivenBack blocks pro (k.proc pro).kernel_stack bs k.heap h
unfolding remove_process_list
remove_process_list-Removed blocks fuel pro k xs ys bs l d enough room heap more =
    let t = bypass (last 0 xs) (k.proc pro).next k in
    let (out, _) = Distinct-middle xs ys pro d in
    let e = unlink_from-bypass blocks fuel pro k.process_list 0 k xs ys l out enough in
    let u = bypass-Unlinked pro k xs ys l d in
    let same : t.heap ≡ k.heap = ap (λ (v : Kernel). v.heap) u.rest in
    let stack : (t.proc pro).kernel_stack ≡ (k.proc pro).kernel_stack =
      ap (λ (v : Process). v.kernel_stack) (u.outside pro out) in
    let (h, f, g) =
      remove_process-GivenBack blocks pro (k.proc pro).kernel_stack k.heap t bs same stack room heap
        more in
    (t, h, e ∙ f, u, g)
