-- ===== src/Elf/Load.antt =====
-- The loader of kernel/elf.c: `load_segment`, `elf_load_exec`, `elf_load_file`. Bytes are found by
-- their virtual addresses, page tables in the store of Pmm/Paging, which no write to a byte changes:
-- a segment that lies on the page tables or the kernel's variables is not modelled.
use Prim.Native.Nat.{bit_and}
use my_kernel.Common.{
  ℕ, zero, suc, ◌+◌, ◌-◌, ◌*◌, ◌/◌, ◌%◌, ◌^◌, Bool, true, false, not, ◌&&◌, none, some, ◌++◌, ltb,
  ◌==◌, if◌then◌else◌,
}
use my_kernel.Common.Run.{Run, ok, fault, out_of_fuel, ◌>>=◌}
use my_kernel.Pmm.Regions.{allocate}
use my_kernel.Pmm.Paging.{Paging, map_page, get_map}
use my_kernel.Memory.{memset, memcpy, half_at, word_at}
use my_kernel.Elf.{Elf32Ehdr, check_elf_supported, et_rel, et_exec}

pub record Elf32Phdr : Type 0 where
  pub p_type : ℕ
  pub p_offset : ℕ
  pub p_vaddr : ℕ
  pub p_paddr : ℕ
  pub p_filesz : ℕ
  pub p_memsz : ℕ
  pub p_flags : ℕ
  pub p_align : ℕ

-- What the loader changes: the page tables, and the bytes that are seen at the virtual addresses.
-- `contents` are the bytes that physical memory has in frames that are not mapped yet.
pub record Space : Type 0 where
  pub paging : Paging
  pub bytes : ℕ → ℕ
  pub contents : ℕ → ℕ

-- The bytes that are seen when the tables have changed: a page that is mapped to another frame shows
-- what stands there.
unfoldable pub shows : (ℕ → ℕ) → Paging → Paging → (ℕ → ℕ) → ℕ → ℕ
shows contents before after bytes a =
    let frame = get_map a after in
    if frame == get_map a before then bytes a else contents (frame + a % 4096)

-- Every one of `k` pages from the one at `v` on is mapped.
unfoldable pub backed : ℕ → ℕ → Paging → Bool
backed zero v s = true
backed (suc k) v s =
    let rest = backed k ((v + 4096) % 2 ^ 32) s in if get_map v s == 0 then false else rest

-- An access to the `n` bytes from `a` on does not make a page fault.
unfoldable pub accessible : ℕ → ℕ → Paging → Bool
unfolding backed
accessible n a s =
    backed (if n == 0 then 0 else (a + n - 1) / 4096 - a / 4096 + 1) (a / 4096 * 4096) s

-- The headers at an address, by the offsets of their fields.
unfoldable pub ehdr_at : (ℕ → ℕ) → ℕ → Elf32Ehdr
ehdr_at bytes p = record {
  e_ident = λ i. bytes (p + i);
  e_type = half_at bytes (p + 16);
  e_machine = half_at bytes (p + 18);
  e_version = word_at bytes (p + 20);
  e_entry = word_at bytes (p + 24);
  e_phoff = word_at bytes (p + 28);
  e_shoff = word_at bytes (p + 32);
  e_flags = word_at bytes (p + 36);
  e_ehsize = half_at bytes (p + 40);
  e_phsize = half_at bytes (p + 42);
  e_phnum = half_at bytes (p + 44);
  e_shsize = half_at bytes (p + 46);
  e_shnum = half_at bytes (p + 48);
  e_shsrtndx = half_at bytes (p + 50);
}

unfoldable pub phdr_at : (ℕ → ℕ) → ℕ → Elf32Phdr
phdr_at bytes p = record {
  p_type = word_at bytes p;
  p_offset = word_at bytes (p + 4);
  p_vaddr = word_at bytes (p + 8);
  p_paddr = word_at bytes (p + 12);
  p_filesz = word_at bytes (p + 16);
  p_memsz = word_at bytes (p + 20);
  p_flags = word_at bytes (p + 24);
  p_align = word_at bytes (p + 28);
}

-- The loop of `load_segment` from `vaddr` on; `false` is its early return.
unfoldable pub map_segment : ℕ → ℕ → ℕ → Paging → Run (Bool × Paging)
map_segment zero vaddr segment_end s = out_of_fuel
map_segment (suc fuel) vaddr segment_end s =
    let phy = allocate 4096 s.regions in
    let rest =
      map_segment fuel ((vaddr + 4096) % 2 ^ 32) segment_end
        (map_page phy.0 vaddr 7 (record s { regions = phy.1 })) in
    let taken = if phy.0 == 0 then ok (false, record s { regions = phy.1 }) else rest in
    if ltb vaddr segment_end then taken else ok (true, s)

unfoldable pub segment_start : Elf32Phdr → ℕ
segment_start ph = bit_and ph.p_vaddr 0xFFFFF000

unfoldable pub segment_end : Elf32Phdr → ℕ
segment_end ph = bit_and ((ph.p_vaddr + ph.p_memsz + 0xFFF) % 2 ^ 32) 0xFFFFF000

-- The end of `load_segment`: the bytes of the file, and zeros behind them.
unfoldable pub fill_segment : Elf32Phdr → ℕ → (ℕ → ℕ) → ℕ → ℕ
fill_segment ph file bytes =
    let copied = memcpy ph.p_vaddr ((file + ph.p_offset) % 2 ^ 32) ph.p_filesz bytes in
    if ltb ph.p_filesz ph.p_memsz
    then memset ((ph.p_vaddr + ph.p_filesz) % 2 ^ 32) 0 (ph.p_memsz - ph.p_filesz) copied
    else copied

-- The accesses of `fill_segment`.
unfoldable pub fills : Elf32Phdr → ℕ → Paging → Bool
unfolding accessible
fills ph file s =
    accessible ph.p_filesz ((file + ph.p_offset) % 2 ^ 32) s
    && accessible ph.p_filesz ph.p_vaddr s
    && accessible (ph.p_memsz - ph.p_filesz) ((ph.p_vaddr + ph.p_filesz) % 2 ^ 32) s

-- `load_segment` behind its loop; a page fault is `fault`.
unfoldable pub fill_mapped : Elf32Phdr → ℕ → Bool × Paging → Space → Run Space
unfolding shows fills fill_segment
fill_mapped ph file (done, p) s =
    let t = record s { paging = p; bytes = shows s.contents s.paging p s.bytes } in
    if done
    then (if fills ph file p then ok (record t { bytes = fill_segment ph file t.bytes }) else fault)
    else ok t

-- `load_segment`: at most 2^20 pages, and one round for the end.
unfoldable pub load_segment : Elf32Phdr → ℕ → Space → Run Space
unfolding fill_mapped
load_segment ph file s = do
  mapped ← map_segment (suc (2 ^ 20)) (segment_start ph) (segment_end ph) s.paging
  fill_mapped ph file mapped s

abbrev pub pt_load : ℕ
pt_load = 1

-- The loop of `elf_load_exec` from the program header `i` on.
unfoldable pub load_segments : ℕ → ℕ → ℕ → Space → Run Space
unfolding load_segment accessible
load_segments zero i file s = out_of_fuel
load_segments (suc fuel) i file s =
    let hdr = ehdr_at s.bytes file in
    let at = (file + hdr.e_phoff + i * hdr.e_phsize) % 2 ^ 32 in
    let ph = phdr_at s.bytes at in
    let loaded = if ph.p_type == pt_load then load_segment ph file s else ok s in
    let rest = (do t ← loaded; load_segments fuel (suc i) file t) in
    if ltb i hdr.e_phnum then (if accessible 32 at s.paging then rest else fault) else ok s

-- `i` and `e_phnum` have 16 bits.
unfoldable pub elf_load_exec : ℕ → Space → Run (ℕ × Space)
unfolding load_segments
elf_load_exec file s = do
  t ← load_segments (2 ^ 16) 0 file s
  ok ((ehdr_at t.bytes file).e_entry, t)

-- `rel` is what the call of `elf_load_rel`, which returns nothing, happens to leave.
unfoldable pub elf_load_file : ℕ → ℕ → Space → Run (ℕ × Space)
unfolding elf_load_exec accessible
elf_load_file rel file s =
    let hdr = ehdr_at s.bytes file in
    let (supported, messages) = check_elf_supported (if file == 0 then none else some hdr) in
    let t = record s { paging = record s.paging { printed = messages ++ s.paging.printed } } in
    if not (file == 0) && not (accessible 52 file s.paging)
    then fault
    else if supported == 0
    then ok (0, t)
    else if hdr.e_type == et_exec
    then elf_load_exec file t
    else if hdr.e_type == et_rel
    then ok (rel, t)
    else ok (0, t)
