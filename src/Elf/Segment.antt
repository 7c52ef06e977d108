-- ===== src/Elf/Segment.antt =====
-- `load_segment` of kernel/elf.c: its loop ends, and what it maps.
use my_kernel.Common.{
  ℕ, zero, suc, ◌+◌, ◌*◌, ◌/◌, ◌%◌, ◌^◌, ◌≤◌, ◌<◌, ◌≡◌, ◌≢◌, refl, sym, ◌∙◌, ◌⊎◌, inl, inr, ◌∷◌,
  Bool, true, false, arith, ltb, ◌==◌, Bool-cases,
}
use my_kernel.Common.Run.{ok}
use my_kernel.Pmm.Regions.{allocate}
use my_kernel.Pmm.Regions.Pages.{PageClaim, allocate-PageClaim}
use my_kernel.Pmm.Paging.{Paging, map_page, get_map}
use my_kernel.Pmm.Paging.Lookup.{Words, get_map-page}
use my_kernel.Pmm.Paging.Frames.{Tables}
use my_kernel.Pmm.Paging.Map.{map_page-Maps}
use my_kernel.Pmm.Virtual.Take.{claimed-Tables, get_map-same}
use my_kernel.Elf.Load.{map_segment}

-- No page of memory is left.
abbrev pub Exhausted : Paging → Type 0
Exhausted s = allocate 4096 s.regions ≡ (0, s.regions)

-- The pages from `lo` up to `hi` are mapped in `t`, all others as in `s`. With `done` false, or with
-- no memory left, some of them are not.
pub record Backs (lo hi : ℕ) (s t : Paging) (done : Bool) : Type 0 where
  pub tables : Tables t
  pub others : (v : ℕ) → v < 2 ^ 32 → (v < lo) ⊎ (hi ≤ v) → get_map v t ≡ get_map v s
  pub mapped : Exhausted t ⊎ ((done ≡ true) × ((v : ℕ) → lo ≤ v → v < hi → get_map v t ≢ 0))

-- One round that finds a page of memory.
pub round-Tables :
    (vaddr : ℕ) (s : Paging)
    → Tables s
    → vaddr < 2 ^ 32
    → vaddr % 4096 ≡ 0
    → PageClaim s.regions (allocate 4096 s.regions)
    → let out = allocate 4096 s.regions in
      let t = map_page out.0 vaddr 7 (record s { regions = out.1 }) in
      Tables t
      × ((v : ℕ) → v < 2 ^ 32 → (v < vaddr) ⊎ (vaddr + 4096 ≤ v) → get_map v t ≡ get_map v s)
      × (Exhausted t ⊎ ((v : ℕ) → vaddr ≤ v → v < vaddr + 4096 → get_map v t ≢ 0))
round-Tables vaddr s good hv al c =
    let out = allocate 4096 s.regions in
    let s' = record s { regions = out.1 } in
    let good' = claimed-Tables s out good c in
    let same = get_map-same s s' good.words good'.words refl refl in
    let t = map_page out.0 vaddr 7 s' in
    let failed = record s' { printed = "allocate FAILED\n" ∷ s.printed } in
    let failed-Words : Words failed = record {
      directory = good'.words.directory;
      word = good'.words.word;
    } in
    elim (map_page-Maps out.0 vaddr 7 (omega (arith, c.low)) hv (omega arith) (omega arith) s'
      good') [
        | inr m ↦ (
          m.tables,
          λ v h o. m.others v h (ground arith) ∙ same v,
          inr (λ v lo hi.
              let z : v / 4096 ≡ vaddr / 4096 = omega arith in
              let h : get_map v t ≡ get_map vaddr t = get_map-page v vaddr t m.tables.words z in
              λ e. omega (arith, c.nonzero, c.aligned, m.here)),
        )
        | inl f ↦ (
          rw f.unchanged (record {
            words = failed-Words;
            ordered = good'.ordered;
            pages = good'.pages;
            distinct = good'.distinct;
            apart = good'.apart;
          }),
          λ v h o. rw f.unchanged (get_map-same s failed good.words failed-Words refl refl v),
          inl (rw f.unchanged f.exhausted),
        )
      ]

-- A round of the loop that finds a page of memory.
map_segment-next :
    (fuel lo hi : ℕ) (s : Paging)
    → lo < hi
    → hi < 2 ^ 32
    → lo + 4096 < 2 ^ 32
    → (allocate 4096 s.regions).0 ≢ 0
    → let out = allocate 4096 s.regions in
      map_segment (suc fuel) lo hi s
      ≡ map_segment fuel (lo + 4096) hi (map_page out.0 lo 7 (record s { regions = out.1 }))
unfolding map_segment
map_segment-next fuel lo hi s lt hh small n =
    let y : ltb lo hi ≡ true = ground arith in
    let z : ((allocate 4096 s.regions).0 == 0) ≡ false = ground arith in
    let next : (lo + 4096) % 2 ^ 32 ≡ lo + 4096 = omega arith in rw (y, z, next)

-- Without memory the loop changes nothing more.
map_segment-Exhausted :
    (fuel lo hi : ℕ) (s t : Paging) (done : Bool)
    → Exhausted s
    → map_segment fuel lo hi s ≡ ok (done, t)
    → Exhausted t
unfolding map_segment
map_segment-Exhausted zero lo hi s t done x e = absurd (cc)
map_segment-Exhausted (suc fuel) lo hi s t done x e = elim (Bool-cases (ltb lo hi)) [
  | inl y ↦ let f : s ≡ t = cc (rw (y, x) at e) in rw (← f) x
  | inr n ↦ let f : s ≡ t = cc (rw n at e) in rw (← f) x
]

-- The pages behind the first, and the first.
Backs-cons :
    (fuel lo hi : ℕ) (s u t : Paging) (done : Bool)
    → lo < hi
    → hi < 2 ^ 32
    → lo % 4096 ≡ 0
    → hi % 4096 ≡ 0
    → map_segment fuel (lo + 4096) hi u ≡ ok (done, t)
    → ((v : ℕ) → v < 2 ^ 32 → (v < lo) ⊎ (lo + 4096 ≤ v) → get_map v u ≡ get_map v s)
    → Exhausted u ⊎ ((v : ℕ) → lo ≤ v → v < lo + 4096 → get_map v u ≢ 0)
    → Backs (lo + 4096) hi u t done
    → Backs lo hi s t done
Backs-cons fuel lo hi s u t done lt hh al ah e kept here b = record {
  tables = b.tables;
  others = λ v h o. b.others v h (ground arith) ∙ kept v h (ground arith);
  mapped = elim b.mapped [
    | inl x ↦ inl x
    | inr (d, all) ↦ elim here [
      | inl x ↦ inl (map_segment-Exhausted fuel (lo + 4096) hi u t done x e)
      | inr some_here ↦ inr (
        d,
        λ v a c. elim (Bool-cases (ltb v (lo + 4096))) [
          | inl y ↦
              λ q. some_here v a (ground arith) (sym (b.others v (omega arith) (ground arith)) ∙ q)
          | inr n ↦ all v (ground arith) c
        ],
      )
    ]
  ];
}

-- The loop ends if the fuel is more than the number of pages.
pub map_segment-Backs :
    (fuel lo hi : ℕ) (s : Paging)
    → Tables s
    → hi < 2 ^ 32
    → lo % 4096 ≡ 0
    → hi % 4096 ≡ 0
    → 0 < fuel
    → hi < lo + fuel * 4096
    → (done : Bool) × (t : Paging) × (map_segment fuel lo hi s ≡ ok (done, t))
      × Backs lo hi s t done
unfolding map_segment
map_segment-Backs zero lo hi s good hh al ah pos enough = absurd (omega arith)
map_segment-Backs (suc fuel) lo hi s good hh al ah pos enough = elim (Bool-cases (ltb lo hi)) [
  | inr n ↦ (
    true,
    s,
    rw n,
    record {
      tables = good;
      others = λ v h o. refl;
      mapped = inr (refl, λ v a b. absurd (ground arith));
    },
  )
  | inl y ↦ elim (allocate-PageClaim s.regions good.ordered good.pages) [
    | inl e ↦
        (false, s, rw (y, e), record { tables = good; others = λ v h o. refl; mapped = inl e })
    | inr c ↦
        let lt : lo < hi = ground arith in
        let small : lo + 4096 < 2 ^ 32 = omega arith in
        let out = allocate 4096 s.regions in
        let (good', kept, here) = round-Tables lo s good (omega arith) al c in
        let u = map_page out.0 lo 7 (record s { regions = out.1 }) in
        let (done, t, e, b) =
          map_segment-Backs fuel (lo + 4096) hi u good' hh (omega arith) ah (omega arith)
            (omega arith) in
        (
          done,
          t,
          map_segment-next fuel lo hi s lt hh small c.nonzero ∙ e,
          Backs-cons fuel lo hi s u t done lt hh al ah e kept here b,
        )
  ]
]
