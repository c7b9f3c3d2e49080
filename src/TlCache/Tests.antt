-- ===== src/TlCache/Tests.antt =====
-- The cache at concrete inputs: the theorems applied, and the unit test of tlcache.c.
use vadm.Base.{ℕ, ◌≡◌, ◌+◌, ◌*◌, refl, arith, Bool, true, Option, none, some, if◌then◌else◌, ltb}
use vadm.Base.Outcome.{Outcome, returns, ◌>>=◌}
use vadm.TlCache.{
  null, node, TranslationCache, has_bit, tc_init, tc_get_code_block, tc_put_addr, tc_get_addr,
  put_walk, get_walk,
}
use vadm.TlCache.Lookup.{IsCache, PutAddr, tc_put_addr-PutAddr, tc_get_addr-same_key}
use vadm.TlCache.Success.{tc_put_addr-tc_get_addr}
use vadm.TlCache.Blocks.{after_blocks, tc_get_code_block_lem}

abbrev always : ℕ → Bool
always n = true

-- `malloc` has filled the root node with zeros.
abbrev cache : TranslationCache
cache = record {
  p_root_node = node null null;
  p_first_code_block = 0x7000_0000;
  p_next_code_block = 0x7000_0000;
  malloc_calls = 2;
}

cache-IsCache : IsCache cache
cache-IsCache = record { tree = (tt, tt); root = refl }

-- The unit test of tlcache.c: two addresses are put, and three looked up.
abbrev unit_test : Outcome (Option ℕ × Option ℕ × Option ℕ)
unit_test = do
  (_, one) ← tc_put_addr always cache 0x5 0xdeadbeef
  (_, two) ← tc_put_addr always one 0x6 0xcafebabe
  at_5 ← tc_get_addr two 0x5
  at_6 ← tc_get_addr two 0x6
  at_7 ← tc_get_addr two 0x7
  returns (at_5, at_6, at_7)

unit_test_passes : unit_test ≡ returns (some 0xdeadbeef, some 0xcafebabe, none)
unfolding tc_put_addr tc_get_addr put_walk get_walk has_bit
unit_test_passes = refl

tc_put_addr-PutAddr_example :
    PutAddr cache 0x100000 0x7000_0000 (tc_put_addr always cache 0x100000 0x7000_0000)
tc_put_addr-PutAddr_example =
    tc_put_addr-PutAddr always cache 0x100000 0x7000_0000 cache-IsCache (omega arith) (omega arith)

tc_init_runs : tc_init always null null (some 0x7000_0000) ≡ some cache
unfolding tc_init
tc_init_runs = refl

tc_get_addr-same_key_example : tc_get_addr cache 0x100000 ≡ tc_get_addr cache 0x300000
tc_get_addr-same_key_example = tc_get_addr-same_key cache 0x100000 0x300000 refl

tc_get_code_block_lem_example :
    (tc_get_code_block (after_blocks 3 cache)).0
    ≡ (if ltb 3 64 then some (0x7000_0000 + 3 * 1024) else none)
tc_get_code_block_lem_example = tc_get_code_block_lem cache refl 3

tc_put_addr-tc_get_addr_example :
    (after : TranslationCache) × (tc_put_addr always cache 0x100000 0x7000_0000
      ≡ returns (true, after))
    × (tc_get_addr after 0x100000 ≡ returns (some 0x7000_0000))
tc_put_addr-tc_get_addr_example =
    tc_put_addr-tc_get_addr always (λ n. refl) cache 0x100000 0x7000_0000 cache-IsCache
      (omega arith) (omega arith)
