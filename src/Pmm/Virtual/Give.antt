-- ===== src/Pmm/Virtual/Give.antt =====
-- `free_page` of kernel/pmm.c.
use my_kernel.Common.{
  ℕ, ◌+◌, ◌-◌, ◌/◌, ◌%◌, ◌^◌, ◌≤◌, ◌<◌, ◌≡◌, ◌≢◌, refl, sym, ap, ◌∙◌, ◌⊎◌, inl, inr, true, false,
  none, some, arith, ltb, ◌==◌, Bool-cases,
}
use my_kernel.Common.Bits.{bit_and-0x1, bit_and-0xFFFFF000}
use my_kernel.Pmm.Regions.{max_free_pages, allocate, free}
use my_kernel.Pmm.Paging.{Paging, store, get_map}
use my_kernel.Pmm.Paging.Lookup.{
  directory_of, entry_address, frame, Words, get_pte-walk, get_map-walk,
}
use my_kernel.Pmm.Paging.Frames.{Tables}
use my_kernel.Pmm.Paging.Unmap.{PresentPte, cleared, cleared-Unmaps}
use my_kernel.Pmm.Virtual.{Vm, allocate_page, release_page, free_page}

-- What `free_page` does to the page tables and the memory map.
pub record Gives (addr : ℕ) (s t : Paging) : Type 0 where
  pub gone : get_map addr t ≡ 0
  pub others : (v : ℕ) → v < 2 ^ 32 → v / 4096 ≢ addr / 4096 → get_map v t ≡ get_map v s
  pub mapped_frame : PresentPte addr s → t.regions ≡ free (get_map addr s) s.regions
  pub unmapped : ¬ PresentPte addr s → t ≡ s
  pub flushed : t.flushed ≡ s.flushed

release_page-Gives :
    (addr : ℕ) (s : Paging) → Tables s → addr < 2 ^ 32 → Gives addr s (release_page addr s)
unfolding release_page
release_page-Gives addr s ok h =
    let d = s.directory (directory_of addr) in
    let a = entry_address s.directory addr in
    elim (Bool-cases (d % 2 == 0)) [
      | inl y ↦
          rw (get_pte-walk addr s ok.words, y, release_page)
            (record {
              gone = get_map-walk addr s ok.words ∙ rw y;
              others = λ v hv ne. refl;
              mapped_frame = λ p. ground (arith, p.0);
              unmapped = λ n. refl;
              flushed = refl;
            })
      | inr n ↦ elim (Bool-cases (s.word a % 2 == 0)) [
        | inl y ↦
            rw (get_pte-walk addr s ok.words, n, release_page, bit_and-0x1 (s.word a), y)
              (record {
                gone = get_map-walk addr s ok.words ∙ rw (n, y);
                others = λ v hv ne. refl;
                mapped_frame = λ p. ground (arith, p.1);
                unmapped = λ q. refl;
                flushed = refl;
              })
        | inr z ↦
            let p : PresentPte addr s = (ground arith, ground arith) in
            let u = cleared-Unmaps addr s ok h p.0 s.flushed in
            let f = frame (s.word a) in
            let t = record (cleared a s.flushed s) { regions = free f s.regions } in
            let w : Words t = record {
              directory = u.tables.words.directory;
              word = u.tables.words.word;
            } in
            let same : (v : ℕ) → get_map v t ≡ get_map v (cleared a s.flushed s) =
              λ v. get_map-walk v t w ∙ sym (get_map-walk v _ u.tables.words) in
            rw
              (
                get_pte-walk addr s ok.words,
                n,
                release_page,
                bit_and-0x1 (s.word a),
                z,
                bit_and-0xFFFFF000 (s.word a) (ok.words.word a),
              )
              (record {
                gone = same addr ∙ u.gone;
                others = λ v hv ne. same v ∙ u.others v hv ne;
                mapped_frame = λ q.
                    ap (λ x. free x s.regions) (sym (get_map-walk addr s ok.words ∙ rw (n, z)));
                unmapped = λ q. absurd (q p);
                flushed = refl;
              })
      ]
    ]

-- The address is on top of the stack of free addresses.
pub record Pushed (addr : ℕ) (s t : Vm) : Type 0 where
  pub count : t.free_count ≡ s.free_count + 1
  pub top : t.free_virtual s.free_count ≡ addr
  pub below : (i : ℕ) → i < s.free_count → t.free_virtual i ≡ s.free_virtual i
  pub next : t.next_virtual ≡ s.next_virtual

-- While the array has room `free_page` pushes the address whether it is mapped or not. The page
-- is not mapped afterwards, no other mapping changes, the frame of a present page goes back to
-- the memory map, and no address is flushed. With the array full it writes behind its end.
pub free_page-Gives :
    (addr : ℕ) (s : Vm)
    → Tables s.paging
    → addr < 2 ^ 32
    → ((max_free_pages ≤ s.free_count) × (free_page addr s ≡ none))
      ⊎ ((s.free_count < max_free_pages)
          × ((t : Vm) × (free_page addr s ≡ some t)
              × Pushed addr s t
              × Gives addr s.paging t.paging))
unfolding free_page
free_page-Gives addr s ok h = elim (Bool-cases (ltb s.free_count max_free_pages)) [
  | inr n ↦ inl (ground arith, rw n)
  | inl y ↦ inr (
    ground arith,
    (
      record s {
        free_virtual = store s.free_virtual s.free_count addr;
        free_count = s.free_count + 1;
        paging = release_page addr s.paging;
      },
      rw y,
      pushed,
      release_page-Gives addr s.paging ok h,
    ),
  )
]
  where
    pushed : Pushed addr s (record s {
      free_virtual = store s.free_virtual s.free_count addr;
      free_count = s.free_count + 1;
      paging = release_page addr s.paging;
    })
    pushed = record { count = refl; top = ground arith; below = λ i h. ground arith; next = refl }

-- With a free address at hand `allocate_page` returns the one that was freed last.
pub allocate_page-top :
    (flag : ℕ) (s : Vm)
    → 0 < s.free_count
    → (allocate 4096 s.paging.regions).0 ≢ 0
    → ((allocate_page flag s).0 ≡ s.free_virtual (s.free_count - 1))
      × ((allocate_page flag s).1.free_count ≡ s.free_count - 1)
      × ((allocate_page flag s).1.free_virtual ≡ s.free_virtual)
unfolding allocate_page
allocate_page-top flag s h ne =
    let n : ((allocate 4096 s.paging.regions).0 == 0) ≡ false = ground arith in
    let y : ltb 0 s.free_count ≡ true = ground arith in rw (n, y) (refl, refl, refl)

-- With room in the array `free_page` ends, whatever the page tables hold.
pub free_page-room :
    (addr : ℕ) (s : Vm)
    → s.free_count < max_free_pages
    → (t : Vm) × (free_page addr s ≡ some t) × (t.free_count ≡ s.free_count + 1)
unfolding free_page
free_page-room addr s room =
    let y : ltb s.free_count max_free_pages ≡ true = ground arith in
    (
      record s {
        free_virtual = store s.free_virtual s.free_count addr;
        free_count = s.free_count + 1;
        paging = release_page addr s.paging;
      },
      rw y refl,
      refl,
    )

free_page-stack :
    (addr : ℕ) (s t : Vm)
    → free_page addr s ≡ some t
    → (t.free_count ≡ s.free_count + 1) × (t.free_virtual ≡ store s.free_virtual s.free_count addr)
unfolding free_page
free_page-stack addr s t e = ground arith

-- A page that is freed twice is handed out twice: after two calls of `free_page` with one address,
-- the next two calls of `allocate_page` that find memory both return it.
pub free_page_twice :
    (addr flag flag' : ℕ) (s t u : Vm)
    → free_page addr s ≡ some t
    → free_page addr t ≡ some u
    → (allocate 4096 u.paging.regions).0 ≢ 0
    → (allocate 4096 (allocate_page flag u).1.paging.regions).0 ≢ 0
    → ((allocate_page flag u).0 ≡ addr) × ((allocate_page flag' (allocate_page flag u).1).0 ≡ addr)
unfolding store
free_page_twice addr flag flag' s t u e f n m =
    let (c, a) = free_page-stack addr s t e in
    let (d, b) = free_page-stack addr t u f in
    let (top, count, same) = allocate_page-top flag u (omega arith) n in
    let (top', _, _) = allocate_page-top flag' (allocate_page flag u).1 (omega arith) m in
    let i : u.free_count - 1 ≡ s.free_count + 1 = omega arith in
    let j : (allocate_page flag u).1.free_count - 1 ≡ s.free_count = omega arith in
    (top ∙ rw (b, i, c) (ground arith), top' ∙ rw (same, j, b, c, a) (ground arith))
