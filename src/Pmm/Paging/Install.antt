-- ===== src/Pmm/Paging/Install.antt =====
-- A new table in `map_page` of kernel/pmm.c: it maps nothing, and no other table is touched.
use Prim.Native.Nat.{bit_and, bit_or}
use my_kernel.Common.{
  ℕ, ◌+◌, ◌*◌, ◌%◌, ◌^◌, ◌≤◌, ◌<◌, ◌≡◌, ◌≢◌, refl, ◌∙◌, ◌⊎◌, inl, inr, true, false, some, List,
  arith, ◌==◌, if◌then◌else◌, Bool-cases,
}
use my_kernel.Common.Bits.{bit_or_flags}
use my_kernel.Pmm.Regions.{Region}
use my_kernel.Pmm.Regions.Order.{takeable_at}
use my_kernel.Pmm.Regions.Pages.{PageClaim}
use my_kernel.Pmm.Paging.{Paging, fill, install}
use my_kernel.Pmm.Paging.Lookup.{
  frame, page_index, directory_of, entry_address, walk, Words, fill_inside, fill_outside, fill-lt,
}
use my_kernel.Pmm.Paging.Frames.{Present, Tables}

-- The new entry is the new table with `PAGE_PRESENT`.
pub record Installed (d table : ℕ) (s t : Paging) : Type 0 where
  pub entry : ℕ
  pub entry_frame : frame entry ≡ table
  pub entry_present : Present entry
  pub entry_small : entry < 2 ^ 32
  pub directory : (e : ℕ) → t.directory e ≡ (if e == d then entry else s.directory e)
  pub word : (a : ℕ) → t.word a ≡ fill table (λ k. 0) 1024 s.word a
  pub regions : t.regions ≡ s.regions

pub install-Installed :
    (d table flags : ℕ) (s : Paging)
    → table % 4096 ≡ 0
    → table + 4096 ≤ 2 ^ 32
    → Installed d table s (install d table flags s)
unfolding install
install-Installed d table flags s a low = elim (Bool-cases (bit_and flags 4 == 0)) [
  | inl y ↦ rw y (record {
    entry = bit_or table 3;
    entry_frame = omega (arith, bit_or_flags table 3);
    entry_present = omega (arith, bit_or_flags table 3);
    entry_small = omega (arith, bit_or_flags table 3);
    directory = λ e. refl;
    word = λ e. refl;
    regions = refl;
  })
  | inr n ↦ rw n (record {
    entry = bit_or table 7;
    entry_frame = omega (arith, bit_or_flags table 7);
    entry_present = omega (arith, bit_or_flags table 7);
    entry_small = omega (arith, bit_or_flags table 7);
    directory = λ e. refl;
    word = λ e. refl;
    regions = refl;
  })
]

-- `t` is `s` with the map of regions after the page of the table was taken, and the table.
module _ (d : ℕ) (s t : Paging) (out : ℕ × List Region) (ok : Tables s)
    (c : PageClaim s.regions out) (i : Installed d out.0 (record s { regions = out.1 }) t)
    (small : d < 1024) where
  -- No table of `s` stands in the new frame, which was free.
  frame_apart : (e : ℕ) → e < 1024 → Present (s.directory e) → frame (s.directory e) ≢ out.0
  frame_apart e he p q =
      ok.apart e he p (rw q (c.claims.takeable out.0 (omega arith) (omega arith)))

  still_taken : (a : ℕ) → takeable_at s.regions a ≢ some true → takeable_at out.1 a ≢ some true
  still_taken a h = ground (arith, c.claims.gone a, c.claims.others_takeable a)

  new_taken : takeable_at out.1 out.0 ≢ some true
  new_taken = ground (arith, c.claims.gone out.0)

  pub installed-Words : Words t
  installed-Words = record {
    directory = λ e. rw (i.directory e) (ground (arith, i.entry_small, ok.words.directory e));
    word = λ a.
        rw (i.word a)
          (fill-lt out.0 (λ k. 0) 1024 s.word a (2 ^ 32) (λ k h. omega arith) (ok.words.word a));
  }

  installed_distinct :
      (e f : ℕ)
      → e < 1024
      → f < 1024
      → Present (t.directory e)
      → Present (t.directory f)
      → frame (t.directory e) ≡ frame (t.directory f)
      → e ≡ f
  installed_distinct e f he hf pe pf q = ground (
    arith,
    i.directory e,
    i.directory f,
    i.entry_frame,
    frame_apart e he,
    frame_apart f hf,
    ok.distinct e f he hf,
  )

  installed_apart :
      (e : ℕ)
      → e < 1024
      → Present (t.directory e)
      → takeable_at t.regions (frame (t.directory e)) ≢ some true
  installed_apart e he p = elim (Bool-cases (e == d)) [
    | inl y ↦
        let q : t.directory e ≡ i.entry = i.directory e ∙ rw y in
        rw (q, i.entry_frame, i.regions) new_taken
    | inr n ↦
        let q : t.directory e ≡ s.directory e = i.directory e ∙ rw n in
        rw (q, i.regions) (still_taken _ (ok.apart e he (rw q at p)))
  ]

  pub installed-Tables : Tables t
  installed-Tables = record {
    words = installed-Words;
    ordered = rw i.regions c.claims.ordered;
    pages = rw i.regions c.regions;
    distinct = installed_distinct;
    apart = installed_apart;
  }

  pub installed-Present : Present (t.directory d)
  installed-Present = ground (arith, i.directory d, i.entry_present)

  -- Every walk gives what it gave before: the new table is empty.
  pub walk_installed :
      (v : ℕ)
      → v < 2 ^ 32
      → s.directory d % 2 ≡ 0
      → walk t.directory t.word v ≡ walk s.directory s.word v
  walk_installed v hv absent = elim (Bool-cases (directory_of v == d)) [
    | inl y ↦
        let q : t.directory (directory_of v) ≡ i.entry = i.directory (directory_of v) ∙ rw y in
        let g : directory_of v ≡ d = ground arith in
        let n : (s.directory (directory_of v) % 2 == 0) ≡ true = rw g (ground arith) in
        let z : (i.entry % 2 == 0) ≡ false = ground (arith, i.entry_present) in
        rw (
          n,
          q,
          z,
          i.entry_frame,
          i.word (out.0 + 4 * page_index v),
          fill_inside out.0 (λ k. 0) 1024 s.word (page_index v) (omega arith),
        )
    | inr n ↦
        let q : t.directory (directory_of v) ≡ s.directory (directory_of v) =
          i.directory (directory_of v) ∙ rw n in
        elim (Bool-cases (s.directory (directory_of v) % 2 == 0)) [
          | inl y ↦ rw (q, y)
          | inr z ↦
              let apart = frame_apart (directory_of v) (omega arith) (ground arith) in
              let e = s.directory (directory_of v) in
              let far : (frame e + 4096 ≤ out.0) ⊎ (out.0 + 4096 ≤ frame e) =
                omega (arith, c.aligned) in
              let side : (entry_address s.directory v < out.0)
                  ⊎ (out.0 + 4 * 1024 ≤ entry_address s.directory v) =
                ground arith in
              rw (
                q,
                z,
                i.word (entry_address s.directory v),
                fill_outside out.0 (λ k. 0) 1024 s.word (entry_address s.directory v) side,
              )
        ]
  ]
