-- ===== src/Elf/Bytes.antt =====
-- `load_segment` of kernel/elf.c: the bytes of a segment.
use my_kernel.Common.{ℕ, ◌+◌, ◌-◌, ◌*◌, ◌/◌, ◌^◌, ◌≤◌, ◌<◌, ◌≡◌, ◌≢◌, ◌⊎◌, true, if◌then◌else◌}
use my_kernel.Pmm.Paging.{Paging, get_map}
use my_kernel.Memory.Fill.{within, Disjoint}
use my_kernel.Elf.Load.{Elf32Phdr, Space, shows}
use my_kernel.Elf.Segment.{Backs}

-- The segment and its bytes in the file lie below 4 GiB, and share no byte.
pub record Fits (ph : Elf32Phdr) (file : ℕ) : Type 0 where
  pub filesz : ph.p_filesz ≤ ph.p_memsz
  pub target : ph.p_vaddr + ph.p_memsz + 0xFFF < 2 ^ 32
  pub source : file + ph.p_offset + ph.p_filesz < 2 ^ 32
  pub apart : Disjoint ph.p_vaddr (file + ph.p_offset) ph.p_filesz

-- The bytes of a loaded segment: those of the file, then zeros, and all others as before.
abbrev pub loaded : Elf32Phdr → ℕ → (ℕ → ℕ) → ℕ → ℕ
loaded ph file bytes a =
    if within ph.p_vaddr ph.p_filesz a
    then bytes (file + ph.p_offset + (a - ph.p_vaddr))
    else if within ph.p_vaddr ph.p_memsz a
    then 0
    else bytes a

-- The bytes of the file for the segment are mapped, outside the pages of the segment.
pub record Stays (ph : Elf32Phdr) (file : ℕ) (s : Paging) : Type 0 where
  pub there :
      (u : ℕ)
      → (file + ph.p_offset) / 4096 * 4096 ≤ u
      → u < file + ph.p_offset + ph.p_filesz
      → get_map u s ≢ 0
  pub outside :
      (file + ph.p_offset + ph.p_filesz ≤ ph.p_vaddr / 4096 * 4096)
      ⊎ ((ph.p_vaddr + ph.p_memsz + 0xFFF) / 4096 * 4096 ≤ (file + ph.p_offset) / 4096 * 4096)

-- From `s` to `t` the segment is loaded.
pub record Loaded (ph : Elf32Phdr) (file : ℕ) (s t : Space) : Type 0 where
  pub from_file :
      (d : ℕ) → d < ph.p_filesz → t.bytes (ph.p_vaddr + d) ≡ s.bytes (file + ph.p_offset + d)
  pub zeros : (d : ℕ) → ph.p_filesz ≤ d → d < ph.p_memsz → t.bytes (ph.p_vaddr + d) ≡ 0
  pub others :
      (a : ℕ)
      → a < 2 ^ 32
      → (a < ph.p_vaddr / 4096 * 4096) ⊎ ((ph.p_vaddr + ph.p_memsz + 0xFFF) / 4096 * 4096 ≤ a)
      → t.bytes a ≡ s.bytes a

module _ (ph : Elf32Phdr) (file : ℕ) (s : Space) (f : Fits ph file) (r : Stays ph file s.paging)
    (p : Paging)
    (b : Backs
      (ph.p_vaddr / 4096 * 4096)
      ((ph.p_vaddr + ph.p_memsz + 0xFFF) / 4096 * 4096)
      s.paging
      p
      true)
    (all : (v : ℕ)
      → ph.p_vaddr / 4096 * 4096 ≤ v
      → v < (ph.p_vaddr + ph.p_memsz + 0xFFF) / 4096 * 4096
      → get_map v p ≢ 0) where
  shown : ℕ → ℕ
  shown = shows s.contents s.paging p s.bytes
