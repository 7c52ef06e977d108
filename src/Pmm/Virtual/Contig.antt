-- ===== src/Pmm/Virtual/Contig.antt =====
-- `allocate_pages_contig` of kernel/pmm.c takes fresh addresses only.
use my_kernel.Common.{ℕ, zero, suc, ◌+◌, ◌*◌, ◌%◌, ◌^◌, ◌≡◌, refl, inl, inr, ◌==◌, Bool-cases}
use my_kernel.Pmm.Regions.{allocate}
use my_kernel.Pmm.Virtual.{Vm, default_flag, contig_step, contig_loop, allocate_pages_contig}

contig_loop-free_count :
    (n k start flag : ℕ) (s : Vm) → (contig_loop n k start flag s).1.free_count ≡ s.free_count
unfolding contig_loop contig_step
contig_loop-free_count zero k start flag s = refl
contig_loop-free_count (suc n) k start flag s =
    let new = allocate 4096 s.paging.regions in
    let t = (contig_step ((start + k * 4096) % 2 ^ 32) flag new s).1 in
    let ih = contig_loop-free_count n (suc k) start flag t in
    elim (Bool-cases (new.0 == 0)) [ inl y ↦ rw y refl | inr m ↦ rw m (rw m at ih) ]

-- The stack of freed addresses stays as it is.
pub allocate_pages_contig-free_count :
    (count flag : ℕ) (s : Vm) → (allocate_pages_contig count flag s).1.free_count ≡ s.free_count
unfolding allocate_pages_contig
allocate_pages_contig-free_count count flag s =
    contig_loop-free_count count 0 s.next_virtual (default_flag flag)
      (record s { next_virtual = (s.next_virtual + count * 4096) % 2 ^ 32 })
