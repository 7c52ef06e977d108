-- ===== src/Elf/Access.antt =====
-- Accesses of the loader of kernel/elf.c: when they make no page fault, and what they see.
use my_kernel.Common.{
  ℕ, suc, ◌+◌, ◌-◌, ◌*◌, ◌/◌, ◌%◌, ◌^◌, ◌≤◌, ◌<◌, ◌≡◌, ◌≢◌, refl, true, false, zero, ◌==◌, inl, inr,
  arith, Bool-cases,
}
use my_kernel.Pmm.Paging.{Paging, get_map}
use my_kernel.Elf.Load.{shows, backed, accessible}

backed-all :
    (k v end : ℕ) (s : Paging)
    → v + k * 4096 < end + 4096
    → end ≤ 2 ^ 32
    → ((u : ℕ) → v ≤ u → u < end → get_map u s ≢ 0)
    → backed k v s ≡ true
unfolding backed
backed-all zero v end s h small all = refl
backed-all (suc k) v end s h small all =
    let z : (get_map v s == 0) ≡ false = ground (arith, all v (omega arith) (omega arith)) in
    elim (Bool-cases (k == 0)) [
      | inl y ↦ let e : k ≡ 0 = ground arith in rw (z, e) refl
      | inr n ↦
          let next : (v + 4096) % 2 ^ 32 ≡ v + 4096 = ground arith in
          let more =
            backed-all k (v + 4096) end s (omega arith) small (λ u l r. all u (omega arith) r) in
          rw (z, next, more) refl
    ]

pub accessible-all :
    (n a : ℕ) (s : Paging)
    → a + n ≤ 2 ^ 32
    → ((u : ℕ) → a / 4096 * 4096 ≤ u → u < a + n → get_map u s ≢ 0)
    → accessible n a s ≡ true
unfolding accessible backed
accessible-all n a s small all = elim (Bool-cases (n == 0)) [
  | inl y ↦ rw y refl
  | inr m ↦ rw m (
      backed-all ((a + n - 1) / 4096 - a / 4096 + 1) (a / 4096 * 4096) (a + n) s (ground arith)
        small all)
]

pub shows-same :
    (contents : ℕ → ℕ) (s t : Paging) (bytes : ℕ → ℕ) (a : ℕ)
    → get_map a t ≡ get_map a s
    → shows contents s t bytes a ≡ bytes a
unfolding shows
shows-same contents s t bytes a e =
    let y : (get_map a t == get_map a s) ≡ true = ground arith in rw y refl
