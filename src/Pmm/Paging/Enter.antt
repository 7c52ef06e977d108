-- ===== src/Pmm/Paging/Enter.antt =====
-- The last write of `map_page` in kernel/pmm.c: one page changes, the tables stay well formed.
use my_kernel.Common.{
  ℕ, ◌+◌, ◌*◌, ◌/◌, ◌%◌, ◌^◌, ◌<◌, ◌≡◌, ◌≢◌, sym, ap, ◌∙◌, inl, inr, true, false, arith, ◌==◌,
  Bool-cases,
}
use my_kernel.Pmm.Paging.{Paging}
use my_kernel.Pmm.Paging.Lookup.{
  frame, page_index, directory_of, entry_address, mapped, walk, Words,
}
use my_kernel.Pmm.Paging.Frames.{Present, Tables, Entered}

-- Two pages of a present directory entry share their entry's address only if they are one page.
pub entry-injective :
    (s : Paging) (v w : ℕ)
    → Tables s
    → v < 2 ^ 32
    → w < 2 ^ 32
    → Present (s.directory (directory_of v))
    → Present (s.directory (directory_of w))
    → entry_address s.directory v ≡ entry_address s.directory w
    → v / 4096 ≡ w / 4096
entry-injective s v w t hv hw pv pw e =
    let a = s.directory (directory_of v) in
    let b = s.directory (directory_of w) in
    let f : frame a ≡ frame b = omega arith in
    let d = t.distinct (directory_of v) (directory_of w) (omega arith) (omega arith) pv pw f in
    omega arith

module _ (physical virtual flags : ℕ) (s t : Paging) (ok : Tables s)
    (e : Entered physical virtual flags s t) (hp : physical < 2 ^ 32) (hf : flags < 4096) where
  pub entered-Words : Words t
  entered-Words = record {
    directory = e.frames.small;
    word = λ a. rw (e.word a) (ground (arith, ok.words.word a));
  }

  pub entered-Tables : Tables t
  entered-Tables = record {
    words = entered-Words;
    ordered = rw e.regions ok.ordered;
    pages = rw e.regions ok.pages;
    distinct = λ d f hd hf' pd pf q.
        ok.distinct d f hd hf' (rw (e.frames.present d) at pd) (rw (e.frames.present f) at pf)
          (sym (e.frames.same d) ∙ q ∙ e.frames.same f);
    apart =
        λ d hd pd. rw (e.regions, e.frames.same d) (ok.apart d hd (rw (e.frames.present d) at pd));
  }

  -- The walk after the write, for the page that is mapped and for the others.
  pub walk_self :
      Present (s.directory (directory_of virtual))
      → walk t.directory t.word virtual ≡ mapped (frame physical + flags)
  walk_self p =
      let d = directory_of virtual in
      let n : (t.directory d % 2 == 0) ≡ false = ground (arith, e.frames.present d) in
      let a : entry_address t.directory virtual ≡ entry_address s.directory virtual =
        ap (λ x. x + 4 * page_index virtual) (e.frames.same d) in
      rw (n, a, e.word (entry_address s.directory virtual)) (ground arith)

  pub walk_other :
      (v : ℕ)
      → virtual < 2 ^ 32
      → v < 2 ^ 32
      → v / 4096 ≢ virtual / 4096
      → Present (s.directory (directory_of virtual))
      → walk t.directory t.word v ≡ walk s.directory s.word v
  walk_other v hv hw ne p = elim (Bool-cases (s.directory (directory_of v) % 2 == 0)) [
    | inl y ↦
        let n : (t.directory (directory_of v) % 2 == 0) ≡ true =
          ground (arith, e.frames.present (directory_of v)) in
        rw (n, y)
    | inr y ↦
        let n : (t.directory (directory_of v) % 2 == 0) ≡ false =
          ground (arith, e.frames.present (directory_of v)) in
        let a : entry_address t.directory v ≡ entry_address s.directory v =
          ap (λ x. x + 4 * page_index v) (e.frames.same (directory_of v)) in
        let apart : entry_address s.directory v ≢ entry_address s.directory virtual =
          λ q. ne (entry-injective s v virtual ok hw hv (ground arith) p q) in
        let z : (entry_address s.directory v == entry_address s.directory virtual) ≡ false =
          ground arith in
        rw (n, y, a, e.word (entry_address s.directory v), z)
  ]
