-- ===== src/Elf/Examples.antt =====
-- Tests of kernel/elf.c: `load_segment` on a segment of two pages.
use my_kernel.Common.{◌*◌, ◌%◌}
use my_kernel.Pmm.Paging.{Paging}
use my_kernel.Pmm.Paging.Examples.{booted}
use my_kernel.Elf.Load.{Elf32Phdr, Space}

-- A segment of 0x1800 bytes, 0x1200 of which are in the file at 0x5000.
abbrev segment : Elf32Phdr
segment = record {
  p_type = 1;
  p_offset = 0x1000;
  p_vaddr = 0x800100;
  p_paddr = 0;
  p_filesz = 0x1200;
  p_memsz = 0x1800;
  p_flags = 5;
  p_align = 0x1000;
}

abbrev space : Space
space = record { paging = booted; bytes = λ a. a * 7 % 256; contents = λ p. 0xCC }
