-- ===== src/Memory/Fill.antt =====
-- What `memset` and `memcpy` of kernel/pmm.c leave in every byte.
use my_kernel.Common.{
  ℕ, zero, suc, ◌+◌, ◌-◌, ◌%◌, ◌^◌, ◌≤◌, ◌≡◌, refl, ◌∙◌, ◌⊎◌, inl, inr, Bool, ◌&&◌, arith, ltb, leb,
  ◌==◌, if◌then◌else◌, Bool-cases,
}
use my_kernel.Memory.{poke, memset, copy_from, memcpy}

-- `a` is one of the `n` addresses from `p` on.
abbrev pub within : ℕ → ℕ → ℕ → Bool
within p n a = leb p a && ltb a (p + n)

-- `memset` over a range that does not wrap sets exactly the bytes of the range.
pub memset_lem :
    (size ptr value : ℕ) (bytes : ℕ → ℕ) (a : ℕ)
    → ptr + size ≤ 2 ^ 32
    → memset ptr value size bytes a ≡ (if within ptr size a then value % 256 else bytes a)
unfolding memset poke
memset_lem zero ptr value bytes a h = ground arith
memset_lem (suc size) ptr value bytes a h = elim (Bool-cases (ptr + 1 == 2 ^ 32)) [
  | inl y ↦ let z : size ≡ 0 = ground arith in rw z (ground arith)
  | inr n ↦
      let e : (ptr + 1) % 2 ^ 32 ≡ ptr + 1 = ground arith in
      rw e (
        memset_lem size (ptr + 1) value (poke bytes ptr (value % 256)) a (ground arith)
        ∙ ground arith)
]

-- The ranges of `n` bytes share no byte.
abbrev pub Disjoint : ℕ → ℕ → ℕ → Type 0
Disjoint p q n = (p + n ≤ q) ⊎ (q + n ≤ p)

copy_from_lem :
    (n dest src k : ℕ) (bytes : ℕ → ℕ) (a : ℕ)
    → dest + (k + n) ≤ 2 ^ 32
    → src + (k + n) ≤ 2 ^ 32
    → Disjoint dest src (k + n)
    → copy_from dest src k n bytes a
      ≡ (if within (dest + k) n a then bytes (src + (a - dest)) else bytes a)
unfolding copy_from poke
copy_from_lem zero dest src k bytes a hd hs d = ground arith
copy_from_lem (suc n) dest src k bytes a hd hs d =
    let e : (dest + k) % 2 ^ 32 ≡ dest + k = omega arith in
    let f : (src + k) % 2 ^ 32 ≡ src + k = omega arith in
    let g : suc k + n ≡ k + suc n = omega arith in
    let ih =
      copy_from_lem n dest src (suc k) (poke bytes (dest + k) (bytes (src + k))) a (rw g hd)
        (rw g hs) (rw g d) in
    rw (e, f)
      (ih ∙ elim (Bool-cases (a == dest + k)) [
        | inl y ↦ let q : src + (a - dest) ≡ src + k = ground arith in rw q (ground arith)
        | inr m ↦ ground arith
      ])

-- `memcpy` between ranges that do not wrap and share no byte is a copy, and changes no other byte.
pub memcpy_lem :
    (n dest src : ℕ) (bytes : ℕ → ℕ) (a : ℕ)
    → dest + n ≤ 2 ^ 32
    → src + n ≤ 2 ^ 32
    → Disjoint dest src n
    → memcpy dest src n bytes a ≡ (if within dest n a then bytes (src + (a - dest)) else bytes a)
unfolding memcpy
memcpy_lem n dest src bytes a hd hs d =
    let z : dest + 0 ≡ dest = omega arith in
    copy_from_lem n dest src 0 bytes a (omega arith) (omega arith) (omega arith) ∙ rw z refl
