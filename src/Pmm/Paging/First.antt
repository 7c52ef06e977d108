-- ===== src/Pmm/Paging/First.antt =====
-- `build_first_page` of kernel/pmm.c: the identity on the first 4 MiB, and nothing else.
use Prim.Native.Nat.{bit_or}
use my_kernel.Common.{
  ℕ, ◌+◌, ◌*◌, ◌%◌, ◌^◌, ◌≤◌, ◌<◌, ◌≡◌, ◌≢◌, ◌∙◌, inl, inr, true, false, some, arith, ltb, ◌==◌,
  if◌then◌else◌, Bool-cases,
}
use my_kernel.Common.Bits.{bit_or_flags}
use my_kernel.Pmm.Regions.Order.{OrderedFrom, takeable_at}
use my_kernel.Pmm.Regions.Pages.{PageRegions}
use my_kernel.Pmm.Paging.{Paging, build_first_page, get_map}
use my_kernel.Pmm.Paging.Lookup.{
  frame, page_index, directory_of, Words, fill_inside, fill-lt, get_map-walk,
}
use my_kernel.Pmm.Paging.Frames.{Tables}

module _ (first : ℕ) (s : Paging) (w : Words s) (aligned : first % 4096 ≡ 0)
    (low : first + 4096 ≤ 2 ^ 32) where
  first-Words : Words (build_first_page first s)
  unfolding build_first_page
  first-Words = record {
    directory = λ d. ground (arith, bit_or_flags first 7);
    word = λ a.
        fill-lt first (λ k. bit_or (k * 0x1000) 7) 1024 s.word a (2 ^ 32)
          (λ k h. omega (arith, bit_or_flags (k * 0x1000) 7)) (w.word a);
  }

  -- After `build_first_page` an address below 4 MiB is mapped to itself, page by page, and no
  -- other address is mapped.
  pub build_first_page-identity :
      (v : ℕ)
      → v < 2 ^ 32
      → get_map v (build_first_page first s) ≡ (if ltb v (2 ^ 22) then frame v else 0)
  unfolding build_first_page
  build_first_page-identity v hv =
      let t = build_first_page first s in
      let p = page_index v in
      elim (Bool-cases (ltb v (2 ^ 22))) [
        | inl y ↦
            let z : (directory_of v == 0) ≡ true = ground arith in
            let e : bit_or first 7 ≡ first + 7 = bit_or_flags first 7 aligned (omega arith) in
            let f : frame (first + 7) ≡ first = omega arith in
            let o : ((first + 7) % 2 == 0) ≡ false = ground arith in
            let g : bit_or (p * 0x1000) 7 ≡ p * 0x1000 + 7 =
              bit_or_flags (p * 0x1000) 7 (omega arith) (omega arith) in
            get_map-walk v t first-Words
            ∙ rw
                (
                  z,
                  e,
                  o,
                  f,
                  fill_inside first (λ k. bit_or (k * 0x1000) 7) 1024 s.word p (omega arith),
                  g,
                  y,
                )
                (ground arith)
        | inr n ↦
            let z : (directory_of v == 0) ≡ false = ground arith in
            get_map-walk v t first-Words ∙ rw (z, n)
      ]

  -- It leaves well-formed tables, if its table does not stand in memory that `allocate` may take.
  pub build_first_page-Tables :
      OrderedFrom 0 s.regions
      → PageRegions s.regions
      → takeable_at s.regions first ≢ some true
      → Tables (build_first_page first s)
  unfolding build_first_page
  build_first_page-Tables o p n = record {
    words = first-Words;
    ordered = o;
    pages = p;
    distinct = λ d e hd he pd pe q. ground arith;
    apart = λ d hd pd.
        let z : frame (bit_or first 7) ≡ first = omega (arith, bit_or_flags first 7) in
        elim (Bool-cases (d == 0)) [ inl y ↦ rw (y, z) n | inr y ↦ ground arith ];
  }
