-- ===== src/TlCache/Blocks.antt =====
-- The blocks that the cache hands out.
use vadm.Base.{
  ℕ, zero, suc, ◌+◌, ◌*◌, ◌≤◌, ◌≡◌, ◌⊎◌, inl, inr, Bool-cases, refl, ap, none, some, arith, ltb,
  leb, if◌then◌else◌, true,
}
use vadm.TlCache.{TranslationCache, tc_get_code_block}

-- The cache after `n` calls of `tc_get_code_block`.
abbrev pub after_blocks : ℕ → TranslationCache → TranslationCache
after_blocks zero c = c
after_blocks (suc n) c = (tc_get_code_block (after_blocks n c)).1

blocks_used : ℕ → ℕ
blocks_used n = if ltb n 64 then n else 64

moved :
    (c : TranslationCache)
    → (tc_get_code_block c).1.p_next_code_block ≡ (
        if leb (c.p_next_code_block + 1024) (c.p_first_code_block + 65536)
        then c.p_next_code_block + 1024
        else c.p_next_code_block)
unfolding tc_get_code_block
moved c = ground arith

module _ (c : TranslationCache) (fresh : c.p_next_code_block ≡ c.p_first_code_block) where
  first_stays : (n : ℕ) → (after_blocks n c).p_first_code_block ≡ c.p_first_code_block
  unfolding tc_get_code_block
  first_stays zero = refl
  first_stays (suc n) = ground (arith, first_stays n)

  next_block :
      (n : ℕ) → (after_blocks n c).p_next_code_block ≡ c.p_first_code_block + blocks_used n * 1024
  unfolding blocks_used
  next_block zero = ground arith
  next_block (suc n) = ground (arith, moved (after_blocks n c), next_block n, first_stays n)

  -- From a cache that has handed out no block, the calls number 0 to 63 of `tc_get_code_block`
  -- return the consecutive blocks of 1024 bytes of the 64 KB that are mapped, and every later call
  -- returns NULL.
  pub tc_get_code_block_lem :
      (n : ℕ)
      → (tc_get_code_block (after_blocks n c)).0
        ≡ (if ltb n 64 then some (c.p_first_code_block + n * 1024) else none)
  unfolding tc_get_code_block blocks_used
  tc_get_code_block_lem n = ground (arith, next_block n, first_stays n)

-- The cache with the next block handed out.
abbrev pub next_used : TranslationCache → TranslationCache
next_used c = record c { p_next_code_block = c.p_next_code_block + 1024 }

pub tc_get_code_block-cases :
    (c : TranslationCache)
    → (tc_get_code_block c ≡ (some c.p_next_code_block, next_used c))
      ⊎ (tc_get_code_block c ≡ (none, c))
unfolding tc_get_code_block
tc_get_code_block-cases c =
    elim (Bool-cases (leb (c.p_next_code_block + 1024) (c.p_first_code_block + 65536))) [
      | inl e ↦ inl (rw e (ap (λ (n : ℕ). (some n, next_used c)) (omega arith)))
      | inr e ↦ inr (rw e refl)
    ]

pub tc_get_code_block-taken :
    (c : TranslationCache)
    → c.p_next_code_block + 1024 ≤ c.p_first_code_block + 65536
    → tc_get_code_block c ≡ (some c.p_next_code_block, next_used c)
unfolding tc_get_code_block
tc_get_code_block-taken c room = rw (is_left) (ap (λ (n : ℕ). (some n, next_used c)) (omega arith))
  where
    is_left : leb (c.p_next_code_block + 1024) (c.p_first_code_block + 65536) ≡ true
    is_left = ground (arith, room)
