-- ===== src/Pmm/Paging/Unmap.antt =====
-- `unmap_page` of kernel/pmm.c.
use my_kernel.Common.{
  ℕ, ◌/◌, ◌%◌, ◌^◌, ◌<◌, ◌≡◌, ◌≢◌, sym, ◌∙◌, ◌⊎◌, inl, inr, false, List, ◌∷◌, arith, ◌==◌,
  Bool-cases,
}
use my_kernel.Common.Bits.{bit_and-0x1}
use my_kernel.Pmm.Paging.{Paging, store, get_map, unmap_page}
use my_kernel.Pmm.Paging.Lookup.{
  directory_of, entry_address, walk, Words, get_pte-walk, get_map-walk,
}
use my_kernel.Pmm.Paging.Frames.{Present, Tables}
use my_kernel.Pmm.Paging.Enter.{entry-injective}

abbrev pub PresentPte : ℕ → Paging → Type 0
PresentPte virtual s =
    Present (s.directory (directory_of virtual))
    × Present (s.word (entry_address s.directory virtual))

-- `t` is `s` without the mapping of the page.
pub record Unmaps (virtual : ℕ) (s t : Paging) : Type 0 where
  pub tables : Tables t
  pub gone : get_map virtual t ≡ 0
  pub others : (v : ℕ) → v < 2 ^ 32 → v / 4096 ≢ virtual / 4096 → get_map v t ≡ get_map v s

abbrev pub cleared : ℕ → List ℕ → Paging → Paging
cleared pte flushed s = record s { word = store s.word pte 0; flushed = flushed }

module _ (virtual : ℕ) (s : Paging) (ok : Tables s) (hv : virtual < 2 ^ 32)
    (p : Present (s.directory (directory_of virtual))) (flushed : List ℕ) where
  cleared-Words : Words (cleared (entry_address s.directory virtual) flushed s)
  unfolding store
  cleared-Words = record {
    directory = ok.words.directory;
    word = λ a. ground (arith, ok.words.word a);
  }

  -- Clearing the entry takes away this page and no other.
  pub cleared-Unmaps : Unmaps virtual s (cleared (entry_address s.directory virtual) flushed s)
  unfolding store
  cleared-Unmaps =
      let a = entry_address s.directory virtual in
      let t = cleared a flushed s in
      record {
        tables = record {
          words = cleared-Words;
          ordered = ok.ordered;
          pages = ok.pages;
          distinct = ok.distinct;
          apart = ok.apart;
        };
        gone = get_map-walk virtual t cleared-Words ∙ ground arith;
        others = λ v hw ne.
            get_map-walk v t cleared-Words ∙ other v hw ne ∙ sym (get_map-walk v s ok.words);
      }
    where
      other :
          (v : ℕ)
          → v < 2 ^ 32
          → v / 4096 ≢ virtual / 4096
          → walk s.directory (store s.word (entry_address s.directory virtual) 0) v
            ≡ walk s.directory s.word v
      other v hw ne = elim (Bool-cases (s.directory (directory_of v) % 2 == 0)) [
        | inl y ↦ rw y
        | inr n ↦
            let apart : entry_address s.directory v ≢ entry_address s.directory virtual =
              λ q. ne (entry-injective s v virtual ok hw hv (ground arith) p q) in
            let z : (entry_address s.directory v == entry_address s.directory virtual) ≡ false =
              ground arith in
            rw (n, z)
      ]

-- On well-formed tables `unmap_page` changes nothing if the page is not present. Otherwise it
-- removes the mapping of the page, keeps every other mapping and flushes the address.
pub unmap_page-Unmaps :
    (virtual : ℕ) (s : Paging)
    → Tables s
    → virtual < 2 ^ 32
    → ((unmap_page virtual s ≡ s) × (get_map virtual s ≡ 0) × (¬ PresentPte virtual s))
      ⊎ (PresentPte virtual s
          × Unmaps virtual s (unmap_page virtual s)
          × ((unmap_page virtual s).flushed ≡ virtual ∷ s.flushed))
unfolding unmap_page
unmap_page-Unmaps virtual s ok hv =
    let d = s.directory (directory_of virtual) in
    let a = entry_address s.directory virtual in
    elim (Bool-cases (d % 2 == 0)) [
      | inl y ↦ inl (
        rw (get_pte-walk virtual s ok.words, y, unmap_page),
        get_map-walk virtual s ok.words ∙ rw y,
        λ h. ground (arith, h.0),
      )
      | inr n ↦ elim (Bool-cases (s.word a % 2 == 0)) [
        | inl y ↦ inl (
          rw (get_pte-walk virtual s ok.words, n, unmap_page, bit_and-0x1 (s.word a), y),
          get_map-walk virtual s ok.words ∙ rw (n, y),
          λ h. ground (arith, h.1),
        )
        | inr z ↦
            let u = cleared-Unmaps virtual s ok hv (ground arith) (virtual ∷ s.flushed) in
            inr (
              (ground arith, ground arith),
              rw (get_pte-walk virtual s ok.words, n, unmap_page, bit_and-0x1 (s.word a), z) (u),
              rw (get_pte-walk virtual s ok.words, n, unmap_page, bit_and-0x1 (s.word a), z),
            )
      ]
    ]
