-- ===== src/Pmm/Virtual/Take.antt =====
-- `allocate_page` of kernel/pmm.c.
use my_kernel.Common.{
  ℕ, ◌+◌, ◌-◌, ◌/◌, ◌%◌, ◌^◌, ◌<◌, ◌≡◌, ◌≢◌, refl, sym, ap, ◌∙◌, inl, inr, true, false, List, arith,
  ltb, ◌==◌, Bool-cases,
}
use my_kernel.Pmm.Regions.{Region, allocate}
use my_kernel.Pmm.Regions.Pages.{PageClaim, allocate-PageClaim}
use my_kernel.Pmm.Paging.{Paging, get_map, map_page}
use my_kernel.Pmm.Paging.Lookup.{directory_of, frame, Words, get_map-walk}
use my_kernel.Pmm.Paging.Frames.{Tables}
use my_kernel.Pmm.Paging.Map.{map_page-Maps}
use my_kernel.Pmm.Virtual.{Vm, default_flag, pick_virtual, with_regions, allocate_page}

-- Every address that `allocate_page` may pick is a 32-bit address.
pub record Addresses (s : Vm) : Type 0 where
  pub next : s.next_virtual < 2 ^ 32
  pub free : (i : ℕ) → i < s.free_count → s.free_virtual i < 2 ^ 32

pub pick_virtual-lt : (s : Vm) → Addresses s → (pick_virtual s).0 < 2 ^ 32
unfolding pick_virtual
pick_virtual-lt s a = ground (arith, a.next, a.free (s.free_count - 1))

pick_virtual-same :
    (s : Vm) (m : List Region) → (pick_virtual (with_regions m s)).0 ≡ (pick_virtual s).0
unfolding pick_virtual
pick_virtual-same s m = ground arith

pub pick_virtual-paging : (s : Vm) → (pick_virtual s).1.paging ≡ s.paging
unfolding pick_virtual
pick_virtual-paging s = ground arith

-- The memory map alone may change: the tables stay well formed if it gives out one page.
pub claimed-Tables :
    (s : Paging) (out : ℕ × List Region)
    → Tables s
    → PageClaim s.regions out
    → Tables (record s { regions = out.1 })
claimed-Tables s out ok c = record {
  words = record { directory = ok.words.directory; word = ok.words.word };
  ordered = c.claims.ordered;
  pages = c.regions;
  distinct = ok.distinct;
  apart = λ d hd p. ground (
    arith,
    ok.apart d hd p,
    c.claims.gone (frame (s.directory d)),
    c.claims.others_takeable (frame (s.directory d)),
  );
}

-- The freed address on top of the stack is taken from it, the others stay; with none freed the next
-- fresh address is taken, and the one behind it is next.
pub data Picks (s : Vm) (out : ℕ × Vm) : Type 0 where
  popped :
      out.0 ≡ s.free_virtual (s.free_count - 1)
      → out.1.free_count + 1 ≡ s.free_count
      → ((i : ℕ) → i < out.1.free_count → out.1.free_virtual i ≡ s.free_virtual i)
      → out.1.next_virtual ≡ s.next_virtual
      → Picks s out
  advanced :
      out.0 ≡ s.next_virtual
      → s.free_count ≡ 0
      → out.1.free_count ≡ 0
      → out.1.next_virtual ≡ (s.next_virtual + 4096) % 2 ^ 32
      → Picks s out

pick_virtual-Picks : (s : Vm) → Picks s (pick_virtual s)
unfolding pick_virtual
pick_virtual-Picks s = elim (Bool-cases (ltb 0 s.free_count)) [
  | inl y ↦ rw y (popped refl (ground arith) (λ i h. refl) refl)
  | inr n ↦ rw n (advanced refl (ground arith) (ground arith) refl)
]

-- The memory map and the tables make no difference.
Picks-pages :
    (s : Vm) (m : List Region) (p : Paging) (out : ℕ × Vm)
    → Picks (with_regions m s) out
    → Picks s (out.0, record out.1 { paging = p })
Picks-pages s m p out (popped a b c d) = popped a b c d
Picks-pages s m p out (advanced a b c d) = advanced a b c d

pub data Took (s : Vm) (out : ℕ × Vm) : Type 0 where
  exhausted : allocate 4096 s.paging.regions ≡ (0, s.paging.regions) → out ≡ (0, s) → Took s out
  mapped :
      PageClaim s.paging.regions (allocate 4096 s.paging.regions)
      → out.0 ≡ (pick_virtual s).0
      → Picks s out
      → Tables out.1.paging
      → get_map out.0 out.1.paging ≡ (allocate 4096 s.paging.regions).0
      → ((v : ℕ)
          → v < 2 ^ 32
          → v / 4096 ≢ out.0 / 4096
          → get_map v out.1.paging ≡ get_map v s.paging)
      → Took s out
  unmapped :
      PageClaim s.paging.regions (allocate 4096 s.paging.regions)
      → out.0 ≡ (pick_virtual s).0
      → Picks s out
      → Tables out.1.paging
      → get_map out.0 out.1.paging ≡ 0
      → ((v : ℕ) → get_map v out.1.paging ≡ get_map v s.paging)
      → allocate 4096 (allocate 4096 s.paging.regions).1 ≡ (0, (allocate 4096 s.paging.regions).1)
      → Took s out

-- Only the directory, and the words, decide what an address is mapped to.
pub get_map-same :
    (s t : Paging)
    → Words s
    → Words t
    → t.directory ≡ s.directory
    → t.word ≡ s.word
    → (v : ℕ) → get_map v t ≡ get_map v s
get_map-same s t w x d e v = get_map-walk v t x ∙ rw (d, e) refl ∙ sym (get_map-walk v s w)

module _ (virtual flag : ℕ) (s t : Vm) (ok : Tables s.paging) (hv : virtual < 2 ^ 32)
    (hf : flag < 4096) (odd : flag % 2 ≡ 1)
    (c : PageClaim s.paging.regions (allocate 4096 s.paging.regions))
    (picked : virtual ≡ (pick_virtual s).0)
    (picks : Picks s (
      virtual,
      record t { paging = map_page (allocate 4096 s.paging.regions).0 virtual flag t.paging },
    ))
    (same : t.paging ≡ record s.paging { regions = (allocate 4096 s.paging.regions).1 }) where
  mapped-Took : Took s (
    virtual,
    record t { paging = map_page (allocate 4096 s.paging.regions).0 virtual flag t.paging },
  )
  mapped-Took =
      let new = allocate 4096 s.paging.regions in
      let p = record s.paging { regions = new.1 } in
      let ok' = claimed-Tables s.paging new ok c in
      let before = get_map-same s.paging p ok.words ok'.words refl refl in
      let picks' = rw same at picks in
      rw same (elim (map_page-Maps new.0 virtual flag (omega (arith, c.low)) hv hf odd p ok') [
        | inr m ↦
            mapped c picked picks' m.tables (m.here ∙ omega (arith, c.aligned))
              (λ v h ne. m.others v h ne ∙ before v)
        | inl f ↦
            let q = map_page new.0 virtual flag p in
            let d : q.directory ≡ s.paging.directory = ap (λ x. x.directory) f.unchanged in
            let e : q.word ≡ s.paging.word = ap (λ x. x.word) f.unchanged in
            let okq : Tables q = rw f.unchanged (record {
              words = record { directory = ok.words.directory; word = ok.words.word };
              ordered = ok'.ordered;
              pages = ok'.pages;
              distinct = ok'.distinct;
              apart = ok'.apart;
            }) in
            let kept = get_map-same s.paging q ok.words okq.words d e in
            let none_there : (s.paging.directory (directory_of virtual) % 2 == 0) ≡ true =
              ground (arith, f.absent) in
            unmapped c picked picks' okq
              (kept virtual ∙ get_map-walk virtual s.paging ok.words ∙ rw none_there) kept
              f.exhausted
      ])

pub allocate_page-Took :
    (flag : ℕ) (s : Vm)
    → Tables s.paging
    → Addresses s
    → default_flag flag < 4096
    → default_flag flag % 2 ≡ 1
    → Took s (allocate_page flag s)
unfolding allocate_page
allocate_page-Took flag s ok a hf odd =
    elim (allocate-PageClaim s.paging.regions ok.ordered ok.pages) [
      | inl e ↦ rw (e, allocate_page) (exhausted e refl)
      | inr c ↦
          let new = allocate 4096 s.paging.regions in
          let n : (new.0 == 0) ≡ false = ground (arith, c.nonzero) in
          let t = (pick_virtual (with_regions new.1 s)).1 in
          let e = pick_virtual-same s new.1 in
          rw (n, allocate_page)
            (mapped-Took (pick_virtual (with_regions new.1 s)).0 (default_flag flag) s t ok
              (rw e (pick_virtual-lt s a)) hf odd c e
              (Picks-pages s new.1 _ (pick_virtual (with_regions new.1 s))
                (pick_virtual-Picks (with_regions new.1 s)))
              (pick_virtual-paging (with_regions new.1 s)))
    ]
