-- ===== src/Pmm/Regions/Examples.antt =====
-- Tests of kernel/pmm.c's memory map on one region of 16 KiB behind the first MiB.
use my_kernel.Common.{◌≡◌, ◌≢◌, refl, ap, ◌⊎◌, inl, inr, List, [], ◌∷◌, arith}
use my_kernel.Pmm.Regions.{Region, allocate, free}
use my_kernel.Pmm.Regions.Order.{OrderedFrom}
use my_kernel.Pmm.Regions.Ownership.{Claims, FreeBelow, allocate-Claims}
use my_kernel.Pmm.Regions.Free.{NoBase, Releases, free-Releases}
use my_kernel.Pmm.Regions.RoundTrip.{Coalesced, Low, free-allocate}
use my_kernel.Pmm.Regions.Pages.{PageRegions, PageClaim, allocate-PageClaim}

abbrev pub low_memory : List Region
low_memory =
    (record { base = 0x1000; length = 0x1000; type = 2; acpi = 1 })
    ∷ (record { base = 0x100000; length = 0x4000; type = 1; acpi = 1 })
    ∷ []

pub low_memory-ordered : OrderedFrom 0 low_memory
low_memory-ordered = omega arith

pub low_memory-pages : PageRegions low_memory
low_memory-pages = (λ e. ground arith, (λ e. omega arith, tt))

low_memory-Coalesced : Coalesced low_memory
low_memory-Coalesced = (refl, tt)

low_memory-Low : Low low_memory
low_memory-Low = omega arith

pub allocate-first : (allocate 4096 low_memory).0 ≡ 0x100000
unfolding allocate
allocate-first = refl

free-allocate_example : free (allocate 4096 low_memory).0 (allocate 4096 low_memory).1 ≡ low_memory
free-allocate_example =
    free-allocate 4096 low_memory (omega arith) low_memory-ordered low_memory-Coalesced
      low_memory-Low (rw allocate-first (omega arith))

low_memory-FreeBelow : FreeBelow low_memory
low_memory-FreeBelow = λ a h. ground arith

allocate-Claims_example :
    (allocate 5 low_memory ≡ (0, low_memory))
    ⊎ Claims 5 low_memory (allocate 5 low_memory) (allocate 5 low_memory).0
allocate-Claims_example =
    allocate-Claims 5 low_memory (omega arith) low_memory-ordered low_memory-FreeBelow

pub succeeds :
    (m : List Region)
    → (allocate 4096 m).0 ≢ 0
    → (allocate 4096 m ≡ (0, m)) ⊎ PageClaim m (allocate 4096 m)
    → PageClaim m (allocate 4096 m)
succeeds m n (inl e) = absurd (n (ap (λ x. x.0) e))
succeeds m n (inr c) = c

pub first_claim : PageClaim low_memory (allocate 4096 low_memory)
first_claim =
    succeeds low_memory (rw allocate-first (omega arith))
      (allocate-PageClaim low_memory low_memory-ordered low_memory-pages)

allocate-second : (allocate 4096 (allocate 4096 low_memory).1).0 ≡ 0x101000
unfolding allocate
allocate-second = refl

second_claim : PageClaim (allocate 4096 low_memory).1 (allocate 4096 (allocate 4096 low_memory).1)
second_claim =
    succeeds (allocate 4096 low_memory).1 (rw allocate-second (omega arith)) (
      allocate-PageClaim (allocate 4096 low_memory).1 first_claim.claims.ordered
        first_claim.regions)

free-Releases_example :
    ((free 0x1000 low_memory ≡ low_memory) × NoBase 0x1000 low_memory)
    ⊎ ((r : Region) × Releases 0x1000 low_memory (free 0x1000 low_memory) r)
free-Releases_example = free-Releases 0x1000 low_memory low_memory-ordered
