-- ===== src/Translate/Success.antt =====
-- `setup_tu` when neither memory nor the blocks run out.
use vadm.Base.{ℕ, ◌+◌, ◌^◌, ◌<◌, ◌≤◌, ◌≡◌, refl, Bool, true, none, some}
use vadm.Base.Outcome.{returns}
use vadm.TlCache.{tc_get_addr}
use vadm.TlCache.Blocks.{next_used, tc_get_code_block-taken}
use vadm.TlCache.Success.{tc_put_addr-tc_get_addr}
use vadm.Translate.State.{Machine}
use vadm.Translate.Setup.{setup_tu, write_stub}
use vadm.Translate.Stub.{IsStub, write_stub-IsStub}
use vadm.Translate.Entries.{IsReady}

-- On a ready machine (the tree of the cache is well formed, its root a node, and the next block is not
-- at address 0), if no allocation fails and a block is left, `setup_tu` of a unit below 4 GB that has
-- no entry returns the next block, which a lookup of the unit finds afterwards, and the stub of the
-- unit stands there.
pub setup_tu_succeeds :
    (malloc : ℕ → Bool) (f p_m68k_code : ℕ) (s : Machine)
    → ((n : ℕ) → malloc n ≡ true)
    → IsReady s
    → p_m68k_code < 2 ^ 32
    → s.tlcache.p_next_code_block + 1024 ≤ s.tlcache.p_first_code_block + 65536
    → tc_get_addr s.tlcache p_m68k_code ≡ returns none
    → (after : Machine) × (setup_tu malloc f p_m68k_code s
        ≡ returns (some s.tlcache.p_next_code_block, after))
      × (tc_get_addr after.tlcache p_m68k_code ≡ returns (some s.tlcache.p_next_code_block))
      × IsStub f p_m68k_code s.tlcache.p_next_code_block after.memory
unfolding setup_tu
setup_tu_succeeds malloc f p_m68k_code s always ready small room empty =
    let (cache, put, found) =
      tc_put_addr-tc_get_addr malloc always (next_used s.tlcache) p_m68k_code
        s.tlcache.p_next_code_block (record { tree = ready.cache.tree; root = ready.cache.root })
        small ready.block in
    (
      record s {
        memory = write_stub f p_m68k_code s.tlcache.p_next_code_block s.memory;
        tlcache = cache;
      },
      rw (empty, tc_get_code_block-taken s.tlcache room, put) refl,
      found,
      write_stub-IsStub f p_m68k_code s.tlcache.p_next_code_block s.memory,
    )
