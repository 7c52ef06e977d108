-- ===== src/Elf.antt =====
-- The checks of kernel/elf.c and the header of kernel/elf.h. A check gives what it returns and the
-- messages that it prints; `none` is a header at `NULL`.
pub mod Load
pub mod Segment
pub mod Access
pub mod Bytes
pub mod Examples
use Prim.Native.String.{String}
use my_kernel.Common.{
  ℕ, ◌<◌, ◌≡◌, ◌≢◌, refl, ◌⊎◌, inl, inr, Bool, true, false, not, ◌&&◌, Option, none, some, List, [],
  ◌∷◌, arith, ◌==◌, if◌then◌else◌, Bool-cases,
}

pub record Elf32Ehdr : Type 0 where
  pub e_ident : ℕ → ℕ
  pub e_type : ℕ
  pub e_machine : ℕ
  pub e_version : ℕ
  pub e_entry : ℕ
  pub e_phoff : ℕ
  pub e_shoff : ℕ
  pub e_flags : ℕ
  pub e_ehsize : ℕ
  pub e_phsize : ℕ
  pub e_phnum : ℕ
  pub e_shsize : ℕ
  pub e_shnum : ℕ
  pub e_shsrtndx : ℕ

abbrev pub elfclass_32 : ℕ
elfclass_32 = 1

abbrev pub em_386 : ℕ
em_386 = 3

abbrev pub ev_current : ℕ
ev_current = 1

abbrev pub et_rel : ℕ
et_rel = 1

abbrev pub et_exec : ℕ
et_exec = 2

unfoldable pub check_elf_file : Option Elf32Ehdr → ℕ × List String
check_elf_file none = (0, [])
check_elf_file (some hdr) =
    if not (hdr.e_ident 0 == 0x7F)
    then (0, "index 0 error \n" ∷ [])
    else if not (hdr.e_ident 1 == b'E')
    then (0, "index 1 error \n" ∷ [])
    else if not (hdr.e_ident 2 == b'L')
    then (0, "index 2 error \n" ∷ [])
    else if not (hdr.e_ident 3 == b'F')
    then (0, "index 3 error \n" ∷ [])
    else (1, [])

-- `check_elf_supported` behind the test of the file, which gave `checked`.
unfoldable pub check_kind : ℕ × List String → Elf32Ehdr → ℕ × List String
check_kind (checked, printed) hdr =
    if checked == 0
    then (0, printed)
    else if not (hdr.e_ident 4 == elfclass_32)
    then (0, "index 4 error \n" ∷ printed)
    else if not (hdr.e_machine == em_386)
    then (0, "machine error \n" ∷ printed)
    else if not (hdr.e_ident 6 == ev_current)
    then (0, "index 6 error \n" ∷ printed)
    else if not (hdr.e_type == et_rel) && not (hdr.e_type == et_exec)
    then (0, "not existing type \n" ∷ printed)
    else (1, printed)

unfoldable pub check_elf_supported : Option Elf32Ehdr → ℕ × List String
unfolding check_elf_file check_kind
check_elf_supported none = (0, [])
check_elf_supported (some hdr) = check_kind (check_elf_file (some hdr)) hdr

-- A 32-bit file for the i386, to be linked or to be run.
abbrev pub Supported : Elf32Ehdr → Type 0
Supported hdr =
    (hdr.e_ident 0 ≡ 0x7F)
    × (hdr.e_ident 1 ≡ b'E')
    × (hdr.e_ident 2 ≡ b'L')
    × (hdr.e_ident 3 ≡ b'F')
    × (hdr.e_ident 4 ≡ elfclass_32)
    × (hdr.e_machine ≡ em_386)
    × (hdr.e_ident 6 ≡ ev_current)
    × ((hdr.e_type ≡ et_rel) ⊎ (hdr.e_type ≡ et_exec))

-- `check_elf_supported` returns 1 exactly for a 32-bit file for the i386 to be linked or run, and
-- then prints nothing; for any other header it returns 0 and prints a message.
pub check_elf_supported-Supported :
    (hdr : Elf32Ehdr)
    → ((check_elf_supported (some hdr) ≡ (1, [])) × Supported hdr)
      ⊎ (((check_elf_supported (some hdr)).0 ≡ 0)
          × ((check_elf_supported (some hdr)).1 ≢ [])
          × (¬ Supported hdr))
unfolding check_elf_supported check_elf_file check_kind
check_elf_supported-Supported hdr = ground arith
