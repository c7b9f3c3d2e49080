-- ===== src/TlCache/Lookup.antt =====
-- The cache as a map from source addresses to destination addresses.
use vadm.Base.{
  ℕ, ◌*◌, ◌/◌, ◌%◌, ◌^◌, ◌<◌, ◌≡◌, refl, ap, ◌∙◌, Bool, true, false, ◌&&◌, Option, none, some,
  arith, bit_and, bit_and-shifted, zero-bit_and, ◌==◌, if◌then◌else◌, u32,
}
use vadm.Base.Outcome.{Outcome, returns}
use vadm.TlCache.{
  null, node, is_null, TranslationCache, put_walk, tc_init, tc_put_addr, tc_get_addr,
  num_source_addr_bits,
}
use vadm.TlCache.Tree.{
  IsTree, same_key, Puts, put_root-Puts, fresh-found, get_walk-returns, get_walk-same_key,
}

-- The root is a node, and every slot below it is empty or a node, down to the addresses.
pub record IsCache (c : TranslationCache) : Type 0 where
  pub tree : IsTree num_source_addr_bits c.p_root_node
  pub root : is_null c.p_root_node ≡ false

-- The program's `assert` holds of every address below 4 GB.
fits_32_bits : (a : ℕ) → a < 2 ^ 32 → bit_and a 0xffffffff00000000 ≡ 0
fits_32_bits a h =
    bit_and-shifted 32 a 0xffffffff
    ∙ ap (λ (t : ℕ). bit_and t 0xffffffff * 2 ^ 32) high
    ∙ ap (λ (t : ℕ). t * 2 ^ 32) (zero-bit_and 0xffffffff)
  where
    high : a / 2 ^ 32 ≡ 0
    high = omega arith

-- What `tc_put_addr` leaves: the cache, valid again, where a lookup of any address finds the new
-- destination if the address agrees with the source in its 21 low bits and no allocation failed,
-- and what it found before otherwise. The blocks are not touched.
pub record PutAddr (c : TranslationCache) (p_src_addr p_dst_addr : ℕ)
    (result : Outcome (Bool × TranslationCache)) : Type 0 where
  pub done : Bool
  pub after : TranslationCache
  pub result_returns : result ≡ returns (done, after)
  pub valid : IsCache after
  pub found :
      (p_addr : ℕ)
      → tc_get_addr after p_addr ≡ (
          if done && same_key num_source_addr_bits p_src_addr p_addr
          then returns (some p_dst_addr)
          else tc_get_addr c p_addr)
  pub same_first : after.p_first_code_block ≡ c.p_first_code_block
  pub same_next : after.p_next_code_block ≡ c.p_next_code_block

module _ (malloc : ℕ → Bool) (c : TranslationCache) (p_src_addr p_dst_addr : ℕ) where
  low : (a : ℕ) → u32 a % 2 ^ 21 ≡ a % 2 ^ 21
  low a = omega arith

  from_walk :
      p_src_addr < 2 ^ 32
      → is_null c.p_root_node ≡ false
      → Puts num_source_addr_bits
          (u32 p_src_addr)
          p_dst_addr
          c.p_root_node
          (put_walk malloc 20 (u32 p_src_addr) p_dst_addr c.p_root_node c.malloc_calls)
      → PutAddr c p_src_addr p_dst_addr (tc_put_addr malloc c p_src_addr p_dst_addr)
  from_walk small nn p = record {
    done = p.put.done;
    after = record c { p_root_node = p.put.tree; malloc_calls = p.put.calls };
    result_returns =
        unfold tc_put_addr in rw (fits_32_bits p_src_addr small, p.result_returns) refl;
    valid = record { tree = p.tree; root = p.not_null nn };
    found = λ a.
        unfold tc_get_addr in
        ground (arith, p.found (u32 a), p.not_null nn, nn, low a, low p_src_addr);
    same_first = refl;
    same_next = refl;
  }

  -- On a valid cache, `tc_put_addr` of an address below 4 GB, with a destination that is not NULL,
  -- returns, whatever calls of `malloc` fail. If it returns true, a lookup of any address that agrees
  -- with the source address in the 21 low bits finds the destination, and all other lookups are as
  -- before; if it returns false, all lookups are as before. The cache stays valid.
  pub tc_put_addr-PutAddr :
      IsCache c
      → p_src_addr < 2 ^ 32
      → 0 < p_dst_addr
      → PutAddr c p_src_addr p_dst_addr (tc_put_addr malloc c p_src_addr p_dst_addr)
  tc_put_addr-PutAddr v small pos = from_walk small v.root (
      put_root-Puts malloc 20 (u32 p_src_addr) p_dst_addr c.p_root_node c.malloc_calls pos v.tree
        v.root)

-- Addresses below 2 MB, as all that the loader uses are, agree in 21 bits only if they are equal.
pub same_key_exact : (a b : ℕ) → a < 2 ^ 21 → b < 2 ^ 21 → same_key 21 a b ≡ (a == b)
same_key_exact a b ha hb = ground arith

-- A lookup in a valid cache returns.
pub tc_get_addr-returns :
    (c : TranslationCache) (p_src_addr : ℕ)
    → IsCache c
    → (found : Option ℕ) × (tc_get_addr c p_src_addr ≡ returns found)
unfolding tc_get_addr
tc_get_addr-returns c p_src_addr v =
    get_walk-returns 21 (u32 p_src_addr) c.p_root_node v.tree v.root

-- A cache that `tc_init` returns is valid if the memory of its root node holds two NULL pointers.
pub tc_init-IsCache :
    (malloc : ℕ → Bool) (mapping : Option ℕ) (c : TranslationCache)
    → tc_init malloc null null mapping ≡ some c
    → IsCache c × ((p_src_addr : ℕ) → tc_get_addr c p_src_addr ≡ returns none)
unfolding tc_init
tc_init-IsCache malloc mapping c h = (
  record { tree = rw empty (tt, tt); root = rw empty },
  λ p_src_addr. unfold tc_get_addr in rw empty (fresh-found 20 (u32 p_src_addr)),
)
  where
    empty : c.p_root_node ≡ node null null
    empty = ground arith

-- Addresses that agree in their 21 low bits have one entry.
pub tc_get_addr-same_key :
    (c : TranslationCache) (a b : ℕ) → same_key 21 a b ≡ true → tc_get_addr c a ≡ tc_get_addr c b
unfolding tc_get_addr
tc_get_addr-same_key c a b h = get_walk-same_key 21 (u32 a) (u32 b) c.p_root_node (ground arith)
