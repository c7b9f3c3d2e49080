-- ===== src/TlCache.antt =====
-- tlcache.c and tlcache.h: the translation cache. It maps the addresses of 680x0 code to those of
-- the translated code by a binary tree, and hands out the blocks for the translated code.
-- Every node is reached through one pointer only, so a pointer to a node is modelled as the node.
-- The two pointers of the nodes at the lowest level are addresses of code, cast to node pointers.
-- `malloc` and `mmap` are parameters: `malloc n` says whether the call number `n` succeeds.
pub mod Tree
pub mod Lookup
pub mod Blocks
pub mod Success
mod Tests
use vadm.Base.{
  ℕ, zero, suc, ◌+◌, ◌-◌, ◌^◌, Bool, true, false, not, Option, none, some, bit_and, ◌==◌, leb,
  if◌then◌else◌, u32,
}
use vadm.Base.Outcome.{Outcome, returns, fault, ◌>>=◌}

abbrev pub max_code_size : ℕ
max_code_size = 65536

abbrev pub max_code_block_size : ℕ
max_code_block_size = 1024

abbrev pub num_source_addr_bits : ℕ
num_source_addr_bits = 21

-- A value of type `TranslationCacheNode *`.
pub data NodePointer : Type 0 where
  null : NodePointer
  node : NodePointer → NodePointer → NodePointer
  code : ℕ → NodePointer

pub record TranslationCache : Type 0 where
  pub p_root_node : NodePointer
  pub p_first_code_block : ℕ
  pub p_next_code_block : ℕ
  -- The calls of `malloc` so far.
  pub malloc_calls : ℕ

-- `(TranslationCacheNode *) p_dst_addr`; address 0 is NULL.
abbrev pub as_node_pointer : ℕ → NodePointer
as_node_pointer p_dst_addr = if p_dst_addr == 0 then null else code p_dst_addr

-- `key & curr_bit` as a condition, where `curr_bit` is `1 << k`.
unfoldable pub has_bit : ℕ → ℕ → Bool
has_bit key k = not (bit_and key (2 ^ k) == 0)

-- `left` and `right` are what the memory of the root node holds when `malloc` returns it.
unfoldable pub tc_init : (ℕ → Bool) → NodePointer → NodePointer → Option ℕ → Option TranslationCache
tc_init malloc left right mapping =
    if not (malloc 0) then none else if not (malloc 1) then none else elim mapping [
      | none ↦ none
      | some p_block ↦ some (record {
        p_root_node = node left right;
        p_first_code_block = p_block;
        p_next_code_block = p_block;
        malloc_calls = 2;
      })
    ]

-- The block, or NULL, and the cache with the next block moved on.
unfoldable pub tc_get_code_block : TranslationCache → Option ℕ × TranslationCache
tc_get_code_block p_tc =
    if leb (p_tc.p_next_code_block + max_code_block_size) (p_tc.p_first_code_block + max_code_size)
    then (
      some (p_tc.p_next_code_block + max_code_block_size - max_code_block_size),
      record p_tc { p_next_code_block = p_tc.p_next_code_block + max_code_block_size },
    )
    else (none, p_tc)

-- What a walk down the tree leaves: the node that it began at, the calls of `malloc`, and whether
-- none of them failed.
pub record Put : Type 0 where
  pub tree : NodePointer
  pub calls : ℕ
  pub done : Bool

abbrev rebuild : (NodePointer → NodePointer) → Outcome Put → Outcome Put
rebuild f (returns p) = returns (record p { tree = f p.tree })
rebuild f fault = fault

module _ (malloc : ℕ → Bool) where
  -- The successor that the walk goes to, which is created if it is not there.
  abbrev enter : NodePointer → ℕ → (NodePointer → ℕ → Outcome Put) → Outcome Put
  enter null calls go =
      if malloc calls
      then go (node null null) (calls + 1)
      else returns (record { tree = null; calls = calls + 1; done = false })
  enter (node l r) calls go = go (node l r) calls
  enter (code a) calls go = go (code a) calls

  -- The loop of `tc_put_addr` at `curr_bit = 1 << k`, and what follows it.
  unfoldable pub put_walk : ℕ → ℕ → ℕ → NodePointer → ℕ → Outcome Put
  put_walk zero key p_dst_addr (node l r) calls =
      if has_bit key 0
      then returns
          (record { tree = node (as_node_pointer p_dst_addr) r; calls = calls; done = true })
      else returns
          (record { tree = node l (as_node_pointer p_dst_addr); calls = calls; done = true })
  put_walk (suc k) key p_dst_addr (node l r) calls =
      if has_bit key (suc k)
      then rebuild (λ t. node t r) (enter l calls (put_walk k key p_dst_addr))
      else rebuild (λ t. node l t) (enter r calls (put_walk k key p_dst_addr))
  put_walk k key p_dst_addr t calls = fault

  -- `assert` stops the program for a source address that does not fit 32 bits.
  unfoldable pub tc_put_addr : TranslationCache → ℕ → ℕ → Outcome (Bool × TranslationCache)
  tc_put_addr p_tc p_src_addr p_dst_addr =
      if bit_and p_src_addr 0xffffffff00000000 == 0
      then (do
        p ←
            put_walk (num_source_addr_bits - 1) (u32 p_src_addr) p_dst_addr p_tc.p_root_node
              p_tc.malloc_calls
        returns (p.done, record p_tc { p_root_node = p.tree; malloc_calls = p.calls }))
      else fault

-- `*pp_curr_node == NULL`.
abbrev is_null : NodePointer → Bool
is_null null = true
is_null (node l r) = false
is_null (code a) = false

-- The loop of `tc_get_addr` with the bits below `k` still to come. A node where an address of
-- code is expected has no meaning as such.
unfoldable pub get_walk : ℕ → ℕ → NodePointer → Outcome (Option ℕ)
get_walk zero key (code a) = returns (some a)
get_walk (suc k) key (node l r) =
    let next : NodePointer = if has_bit key k then l else r in
    let rest : Outcome (Option ℕ) = get_walk k key next in
    if is_null next then returns none else rest
get_walk k key t = fault

unfoldable pub tc_get_addr : TranslationCache → ℕ → Outcome (Option ℕ)
tc_get_addr p_tc p_src_addr = get_walk num_source_addr_bits (u32 p_src_addr) p_tc.p_root_node
