-- ===== src/Pmm/Paging/Frames.antt =====
-- The well-formed page tables of kernel/pmm.c, and the two writes of `map_page`.
use Prim.Native.Nat.{bit_and, bit_or}
use my_kernel.Common.{
  ℕ, ◌+◌, ◌%◌, ◌^◌, ◌<◌, ◌≡◌, ◌≢◌, refl, inl, inr, true, some, ◌∷◌, arith, ◌==◌, if◌then◌else◌,
  Bool-cases,
}
use my_kernel.Common.Bits.{bit_and-0xFFFFF000, bit_or_flags, bit_or-0x4}
use my_kernel.Pmm.Regions.Order.{OrderedFrom, takeable_at}
use my_kernel.Pmm.Regions.Pages.{PageRegions}
use my_kernel.Pmm.Paging.{Paging, store, enter}
use my_kernel.Pmm.Paging.Lookup.{
  frame, directory_of, entry_address, Words, directory_index_lem, table_index_lem,
}

-- The entry has a table.
abbrev pub Present : ℕ → Type 0
Present entry = entry % 2 ≡ 1

-- The tables of different entries stand in different frames, none of which is free memory.
pub record Tables (s : Paging) : Type 0 where
  pub words : Words s
  pub ordered : OrderedFrom 0 s.regions
  pub pages : PageRegions s.regions
  pub distinct :
      (d e : ℕ)
      → d < 1024
      → e < 1024
      → Present (s.directory d)
      → Present (s.directory e)
      → frame (s.directory d) ≡ frame (s.directory e)
      → d ≡ e
  pub apart :
      (d : ℕ)
      → d < 1024
      → Present (s.directory d)
      → takeable_at s.regions (frame (s.directory d)) ≢ some true

-- An entry with `|= PAGE_USER` names the same frame and is as present as before.
pub or_user :
    (entry : ℕ)
    → entry < 2 ^ 32
    → (frame (bit_or entry 4) ≡ frame entry)
      × (bit_or entry 4 % 2 ≡ entry % 2)
      × (bit_or entry 4 < 2 ^ 32)
or_user entry h = omega (arith, bit_or-0x4 entry)

pub or_page :
    (physical flags : ℕ)
    → physical < 2 ^ 32
    → flags < 4096
    → bit_or (bit_and physical 0xFFFFF000) flags ≡ frame physical + flags
or_page physical flags h f =
    rw (bit_and-0xFFFFF000 physical h) (bit_or_flags (frame physical) flags (omega arith) f)

-- Two directories that agree up to the flags of the entries.
pub record SameFrames (f g : ℕ → ℕ) : Type 0 where
  pub same : (d : ℕ) → frame (g d) ≡ frame (f d)
  pub present : (d : ℕ) → g d % 2 ≡ f d % 2
  pub small : (d : ℕ) → g d < 2 ^ 32

set_user :
    (f : ℕ → ℕ) (d : ℕ) → ((e : ℕ) → f e < 2 ^ 32) → SameFrames f (store f d (bit_or (f d) 4))
unfolding store
set_user f d h = record {
  same = λ e. ground (arith, or_user (f d) (h d));
  present = λ e. ground (arith, or_user (f d) (h d));
  small = λ e. ground (arith, or_user (f d) (h d), h e);
}

-- `enter` keeps the frames of the tables and writes the one entry.
pub record Entered (physical virtual flags : ℕ) (s t : Paging) : Type 0 where
  pub frames : SameFrames s.directory t.directory
  pub word :
      (a : ℕ)
      → t.word a
        ≡ (if a == entry_address s.directory virtual then frame physical + flags else s.word a)
  pub regions : t.regions ≡ s.regions
  pub flushed : t.flushed ≡ virtual ∷ s.flushed

pub enter-Entered :
    (physical virtual flags : ℕ) (s : Paging)
    → Words s
    → physical < 2 ^ 32
    → flags < 4096
    → Entered physical virtual flags s (enter physical virtual flags s)
unfolding enter
enter-Entered physical virtual flags s w hp hf =
    let d = directory_of virtual in
    elim (Bool-cases (bit_and flags 4 == 0)) [
      | inl y ↦
          rw (y, directory_index_lem virtual, table_index_lem virtual)
            (record {
              frames = record { same = λ e. refl; present = λ e. refl; small = w.directory };
              word = λ a. rw (
                bit_and-0xFFFFF000 (s.directory d) (w.directory d),
                or_page physical flags hp hf,
              );
              regions = refl;
              flushed = refl;
            })
      | inr n ↦
          let f = set_user s.directory d w.directory in
          rw (n, directory_index_lem virtual, table_index_lem virtual)
            (record {
              frames = f;
              word = λ a. rw (
                bit_and-0xFFFFF000 (store s.directory d (bit_or (s.directory d) 4) d) (f.small d),
                f.same d,
                or_page physical flags hp hf,
              );
              regions = refl;
              flushed = refl;
            })
    ]
