-- ===== src/Pmm/Virtual.antt =====
-- The virtual pages of kernel/pmm.c: `init_virtual_allocator`, `allocate_page`,
-- `allocate_pages_contig` and `free_page`. `none` is a write behind the array `free_virtual`,
-- which the source does not prevent.
pub mod Take
pub mod Give
pub mod Contig
pub mod Examples
use Prim.Native.Nat.{bit_and, bit_or}
use my_kernel.Common.{
  ℕ, zero, suc, ◌+◌, ◌-◌, ◌*◌, ◌/◌, ◌%◌, ◌^◌, ◌≡◌, Bool, true, false, Option, none, some, List, ltb,
  ◌==◌, if◌then◌else◌,
}
use my_kernel.Pmm.Regions.{Region, max_free_pages, allocate, free}
use my_kernel.Pmm.Paging.{Paging, page_present, page_write, store, get_pte, map_page}

pub record Vm : Type 0 where
  pub paging : Paging
  pub next_virtual : ℕ
  pub free_virtual : ℕ → ℕ
  pub free_count : ℕ

abbrev pub with_regions : List Region → Vm → Vm
with_regions regions s = record s { paging = record s.paging { regions = regions } }

unfoldable pub default_flag : ℕ → ℕ
default_flag flag = if flag == 0 then bit_or page_present page_write else flag

-- `kernel_end` is the address of `_kernel_end`, which the linker chooses.
unfoldable pub init_virtual_allocator : ℕ → Vm → Vm
init_virtual_allocator kernel_end s = record s {
  next_virtual = bit_and ((kernel_end + 4095) % 2 ^ 32) 0xFFFFF000;
}

-- The address that `allocate_page` uses, and the state behind it.
unfoldable pub pick_virtual : Vm → ℕ × Vm
pick_virtual s =
    if ltb 0 s.free_count
    then (s.free_virtual (s.free_count - 1), record s { free_count = s.free_count - 1 })
    else (s.next_virtual, record s { next_virtual = (s.next_virtual + 4096) % 2 ^ 32 })

-- `allocate_page` behind the call of `allocate`, which gave `new`.
unfoldable pub take_page : ℕ → ℕ × List Region → Vm → ℕ × Vm
unfolding pick_virtual
take_page flag new s =
    if new.0 == 0
    then (0, with_regions new.1 s)
    else let (virtual, t) = pick_virtual (with_regions new.1 s) in
      (virtual, record t { paging = map_page new.0 virtual flag t.paging })

unfoldable pub allocate_page : ℕ → Vm → ℕ × Vm
unfolding default_flag take_page
allocate_page flag s = take_page (default_flag flag) (allocate 4096 s.paging.regions) s

-- One round of the loop of `allocate_pages_contig`; `false` is its early return.
unfoldable pub contig_step : ℕ → ℕ → ℕ × List Region → Vm → Bool × Vm
contig_step virtual flag new s = if new.0 == 0 then (false, with_regions new.1 s) else (
  true,
  record s { paging = map_page new.0 virtual flag (record s.paging { regions = new.1 }) },
)

-- The rounds from `k` on, `n` of them.
unfoldable pub contig_loop : ℕ → ℕ → ℕ → ℕ → Vm → Bool × Vm
unfolding contig_step
contig_loop zero k start flag s = (true, s)
contig_loop (suc n) k start flag s =
    let (done, t) =
      contig_step ((start + k * 4096) % 2 ^ 32) flag (allocate 4096 s.paging.regions) s in
    let rest = contig_loop n (suc k) start flag t in if done then rest else (false, t)

unfoldable pub allocate_pages_contig : ℕ → ℕ → Vm → ℕ × Vm
unfolding default_flag contig_loop
allocate_pages_contig count flag s =
    let start = s.next_virtual in
    let (done, t) =
      contig_loop count 0 start (default_flag flag)
        (record s { next_virtual = (start + count * 4096) % 2 ^ 32 }) in
    (if done then start else 0, t)

-- `free_page` behind the push of the address.
pub release_page : ℕ → Paging → Paging
unfolding store
release_page addr s = elim (get_pte addr s) [
  | none ↦ s
  | some pte ↦ if bit_and (s.word pte) 1 == 0 then s else record s {
    regions = free (bit_and (s.word pte) 0xFFFFF000) s.regions;
    word = store s.word pte 0;
  }
]

pub free_page : ℕ → Vm → Option Vm
unfolding release_page store
free_page addr s =
    if ltb s.free_count max_free_pages
    then some (record s {
      free_virtual = store s.free_virtual s.free_count addr;
      free_count = s.free_count + 1;
      paging = release_page addr s.paging;
    })
    else none
