-- ===== src/Pmm/Paging/Map.antt =====
-- `map_page` of kernel/pmm.c: afterwards the page is mapped to the frame, and no other page moves.
use my_kernel.Common.{
  ℕ, ◌/◌, ◌%◌, ◌^◌, ◌<◌, ◌≡◌, ◌≢◌, sym, ◌∙◌, ◌⊎◌, inl, inr, false, ◌∷◌, arith, ◌==◌, Bool-cases,
}
use my_kernel.Common.Bits.{bit_and-0x1}
use my_kernel.Pmm.Regions.{allocate}
use my_kernel.Pmm.Regions.Pages.{PageClaim, allocate-PageClaim}
use my_kernel.Pmm.Paging.{Paging, install, enter, map_new, map_page, get_map}
use my_kernel.Pmm.Paging.Lookup.{frame, directory_of, directory_index_lem, get_map-walk}
use my_kernel.Pmm.Paging.Frames.{Present, Tables, enter-Entered}
use my_kernel.Pmm.Paging.Install.{
  install-Installed, installed-Tables, installed-Present, walk_installed,
}
use my_kernel.Pmm.Paging.Enter.{entered-Tables, entered-Words, walk_self, walk_other}

-- `t` is `s` with the page of `virtual` mapped to the frame of `physical`.
pub record Maps (physical virtual : ℕ) (s t : Paging) : Type 0 where
  pub tables : Tables t
  pub here : get_map virtual t ≡ frame physical
  pub others : (v : ℕ) → v < 2 ^ 32 → v / 4096 ≢ virtual / 4096 → get_map v t ≡ get_map v s
  pub flushed : t.flushed ≡ virtual ∷ s.flushed

-- The directory entry has no table, and there is no page for one.
pub record MapFails (virtual : ℕ) (s t : Paging) : Type 0 where
  pub absent : s.directory (directory_of virtual) % 2 ≡ 0
  pub exhausted : allocate 4096 s.regions ≡ (0, s.regions)
  pub unchanged : t ≡ record s { printed = "allocate FAILED\n" ∷ s.printed }

module _ (physical virtual flags : ℕ) (hp : physical < 2 ^ 32) (hv : virtual < 2 ^ 32)
    (hf : flags < 4096) (odd : flags % 2 ≡ 1) where
  enter-Maps :
      (s : Paging)
      → Tables s
      → Present (s.directory (directory_of virtual))
      → Maps physical virtual s (enter physical virtual flags s)
  enter-Maps s ok p =
      let t = enter physical virtual flags s in
      let e = enter-Entered physical virtual flags s ok.words hp hf in
      let w = entered-Words physical virtual flags s t ok e hp hf in
      record {
        tables = entered-Tables physical virtual flags s t ok e hp hf;
        here =
            get_map-walk virtual t w
            ∙ walk_self physical virtual flags s t ok e hp hf p
            ∙ ground arith;
        others = λ v hw ne.
            get_map-walk v t w
            ∙ walk_other physical virtual flags s t ok e hp hf v hv hw ne p
            ∙ sym (get_map-walk v s ok.words);
        flushed = e.flushed;
      }

  map_new-Maps :
      (s : Paging)
      → Tables s
      → s.directory (directory_of virtual) % 2 ≡ 0
      → PageClaim s.regions (allocate 4096 s.regions)
      → Maps physical virtual s (map_new physical virtual flags (allocate 4096 s.regions) s)
  unfolding map_new
  map_new-Maps s ok absent c =
      let out = allocate 4096 s.regions in
      let d = directory_of virtual in
      let r = record s { regions = out.1 } in
      let t = install d out.0 flags r in
      let i = install-Installed d out.0 flags r c.aligned c.low in
      let n : (out.0 == 0) ≡ false = ground (arith, c.nonzero) in
      let small : d < 1024 = omega arith in
      let ok' = installed-Tables d s t out ok c i small in
      let m = enter-Maps t ok' (installed-Present d s t out ok c i small) in
      rw (n, directory_index_lem virtual)
        (record {
          tables = m.tables;
          here = m.here;
          others = λ v hw ne.
              m.others v hw ne
              ∙ get_map-walk v t ok'.words
              ∙ walk_installed d s t out ok c i small v hw absent
              ∙ sym (get_map-walk v s ok.words);
          flushed = m.flushed;
        })

  -- On well-formed tables `map_page` with a present flag either maps the page of the virtual
  -- address to the physical frame, keeps every other mapping and the tables well formed, and
  -- flushes that one address; or it needs a table that there is no memory for, and changes
  -- nothing but for the message.
  pub map_page-Maps :
      (s : Paging)
      → Tables s
      → MapFails virtual s (map_page physical virtual flags s)
        ⊎ Maps physical virtual s (map_page physical virtual flags s)
  unfolding map_page
  map_page-Maps s ok =
      let d = directory_of virtual in
      elim (Bool-cases (s.directory d % 2 == 0)) [
        | inr n ↦ inr (
            rw (directory_index_lem virtual, bit_and-0x1 (s.directory d), n)
              (enter-Maps s ok (ground arith)))
        | inl y ↦ elim (allocate-PageClaim s.regions ok.ordered ok.pages) [
          | inl e ↦ inl (
              rw (directory_index_lem virtual, bit_and-0x1 (s.directory d), y)
                (record { absent = ground arith; exhausted = e; unchanged = rw (e, map_new) }))
          | inr c ↦ inr (
              rw (directory_index_lem virtual, bit_and-0x1 (s.directory d), y)
                (map_new-Maps s ok (ground arith) c))
        ]
      ]
