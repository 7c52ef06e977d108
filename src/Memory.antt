-- ===== src/Memory.antt =====
-- `memset` and `memcpy` of kernel/pmm.c over bytes that are found by their virtual addresses. That
-- the pages are mapped is left to the callers.
pub mod Fill
use my_kernel.Common.{ℕ, zero, suc, ◌+◌, ◌*◌, ◌/◌, ◌%◌, ◌^◌, ◌==◌, if◌then◌else◌}

-- `*p = v`
unfoldable pub poke : (ℕ → ℕ) → ℕ → ℕ → ℕ → ℕ
poke bytes p v a = if a == p then v else bytes a

pub memset : ℕ → ℕ → ℕ → (ℕ → ℕ) → ℕ → ℕ
unfolding poke
memset ptr value zero bytes = bytes
memset ptr value (suc size) bytes =
    memset ((ptr + 1) % 2 ^ 32) value size (poke bytes ptr (value % 256))

-- The loop of `memcpy` from `k` on, `n` rounds.
pub copy_from : ℕ → ℕ → ℕ → ℕ → (ℕ → ℕ) → ℕ → ℕ
unfolding poke
copy_from dest src k zero bytes = bytes
copy_from dest src k (suc n) bytes =
    copy_from dest src (suc k) n (poke bytes ((dest + k) % 2 ^ 32) (bytes ((src + k) % 2 ^ 32)))

pub memcpy : ℕ → ℕ → ℕ → (ℕ → ℕ) → ℕ → ℕ
unfolding copy_from
memcpy dest src n bytes = copy_from dest src 0 n bytes

-- A field of 16 or 32 bits, its low byte first.
unfoldable pub half_at : (ℕ → ℕ) → ℕ → ℕ
half_at bytes p = bytes p + bytes (p + 1) * 2 ^ 8

unfoldable pub word_at : (ℕ → ℕ) → ℕ → ℕ
word_at bytes p = bytes p + bytes (p + 1) * 2 ^ 8 + bytes (p + 2) * 2 ^ 16 + bytes (p + 3) * 2 ^ 24

-- A write of such a field.
unfoldable pub put_word : (ℕ → ℕ) → ℕ → ℕ → ℕ → ℕ
unfolding poke
put_word bytes p v =
    poke (poke (poke (poke bytes p (v % 256)) (p + 1) (v / 2 ^ 8 % 256)) (p + 2) (v / 2 ^ 16 % 256))
      (p + 3) (v / 2 ^ 24 % 256)
