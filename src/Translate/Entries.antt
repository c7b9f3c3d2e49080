-- ===== src/Translate/Entries.antt =====
-- `setup_tu` as an operation on the cache: each unit gets one block, once.
use vadm.Base.{
  ℕ, ◌+◌, ◌^◌, ◌<◌, ◌≤◌, ◌≡◌, refl, ap, ◌∙◌, sym, ◌⊎◌, inl, inr, arith, Bool, true, false,
  Bool-cases, Option, none, some, if◌then◌else◌,
}
use vadm.Base.Bytes.{Memory}
use vadm.Base.Outcome.{Outcome, returns}
use vadm.TlCache.{TranslationCache, tc_get_addr, tc_get_code_block, tc_put_addr}
use vadm.TlCache.Blocks.{next_used, tc_get_code_block-cases}
use vadm.TlCache.Tree.{same_key}
use vadm.TlCache.Lookup.{
  IsCache, PutAddr, tc_put_addr-PutAddr, tc_get_addr-returns, tc_get_addr-same_key,
}
use vadm.Translate.State.{Machine}
use vadm.Translate.Setup.{write_stub, setup_tu}
use vadm.Translate.Stub.{IsStub, write_stub-IsStub, write_stub_outside}

-- The cache is valid, and the next block is not at address 0.
pub record IsReady (s : Machine) : Type 0 where
  pub cache : IsCache s.tlcache
  pub block : 0 < s.tlcache.p_next_code_block

-- What a lookup finds afterwards: the unit's own address at its key, and elsewhere what was there.
abbrev pub entered : ℕ → Option ℕ → Machine → ℕ → Outcome (Option ℕ)
entered p_m68k_code none s a = tc_get_addr s.tlcache a
entered p_m68k_code (some x) s a =
    if same_key 21 p_m68k_code a then returns (some x) else tc_get_addr s.tlcache a

-- A call of `setup_tu` returns; it leaves the machine ready, and the entry of the unit is in the cache
-- if an address is returned. No memory outside the next block is written. If the unit had an entry,
-- that is returned and nothing changes; if not, an address that is returned is that of the next
-- block, with the stub of the unit in it.
pub record SetsUp (f p_m68k_code : ℕ) (s : Machine) (result : Outcome (Option ℕ × Machine))
    : Type 0 where
  pub address : Option ℕ
  pub after : Machine
  pub result_returns : result ≡ returns (address, after)
  pub ready : IsReady after
  pub grows : s.tlcache.p_next_code_block ≤ after.tlcache.p_next_code_block
  pub entries : (a : ℕ) → tc_get_addr after.tlcache a ≡ entered p_m68k_code address s a
  pub outside :
      (q : ℕ)
      → (q < s.tlcache.p_next_code_block) ⊎ (s.tlcache.p_next_code_block + 1024 ≤ q)
      → after.memory q ≡ s.memory q
  pub old :
      (x : ℕ)
      → tc_get_addr s.tlcache p_m68k_code ≡ returns (some x)
      → (address ≡ some x) × (after ≡ s)
  pub new :
      (x : ℕ)
      → tc_get_addr s.tlcache p_m68k_code ≡ returns none
      → address ≡ some x
      → (x ≡ s.tlcache.p_next_code_block)
        × IsStub f p_m68k_code s.tlcache.p_next_code_block after.memory

module _ (malloc : ℕ → Bool) (f p_m68k_code : ℕ) (s : Machine) (ready : IsReady s) where
  -- The unit has an entry.
  known :
      (x : ℕ)
      → tc_get_addr s.tlcache p_m68k_code ≡ returns (some x)
      → SetsUp f p_m68k_code s (setup_tu malloc f p_m68k_code s)
  known x e = record {
    address = some x;
    after = s;
    result_returns = unfold setup_tu in rw e;
    ready = ready;
    grows = omega arith;
    entries = λ a. elim (Bool-cases (same_key 21 p_m68k_code a)) [
      | inl same ↦ rw same (sym (tc_get_addr-same_key s.tlcache p_m68k_code a same) ∙ e)
      | inr differs ↦ rw differs
    ];
    outside = λ q h. refl;
    old = λ y e'. (cc, refl);
    new = λ y e' h. cc;
  }

  -- No block is left.
  full :
      tc_get_addr s.tlcache p_m68k_code ≡ returns none
      → (tc_get_code_block s.tlcache) ≡ (none, s.tlcache)
      → SetsUp f p_m68k_code s (setup_tu malloc f p_m68k_code s)
  full e b = record {
    address = none;
    after = s;
    result_returns = unfold setup_tu in rw (e, b);
    ready = ready;
    grows = omega arith;
    entries = λ a. refl;
    outside = λ q h. refl;
    old = λ y e'. cc;
    new = λ y e' h. cc;
  }

  abbrev block : ℕ
  block = s.tlcache.p_next_code_block

  abbrev put_call : Outcome (Bool × TranslationCache)
  put_call = tc_put_addr malloc (next_used s.tlcache) p_m68k_code block

  module _ (empty : tc_get_addr s.tlcache p_m68k_code ≡ returns none)
      (taken : tc_get_code_block s.tlcache ≡ (some block, next_used s.tlcache))
      (cache : TranslationCache) (valid : IsCache cache)
      (moved : cache.p_next_code_block ≡ block + 1024) where
    IsReady-again : (m : Memory) → IsReady (record s { memory = m; tlcache = cache })
    IsReady-again m = record { cache = valid; block = omega (arith, ready.block) }

    -- The next block is taken, and the put has returned true.
    entered_unit :
        put_call ≡ returns (true, cache)
        → ((a : ℕ) → tc_get_addr cache a ≡ entered p_m68k_code (some block) s a)
        → SetsUp f p_m68k_code s (setup_tu malloc f p_m68k_code s)
    entered_unit put found = record {
      address = some block;
      after = record s { memory = write_stub f p_m68k_code block s.memory; tlcache = cache };
      result_returns = unfold setup_tu in rw (empty, taken, put) refl;
      ready = IsReady-again (write_stub f p_m68k_code block s.memory);
      grows = omega arith;
      entries = found;
      outside = write_stub_outside f p_m68k_code block s.memory;
      old = λ y e'. cc;
      new = λ y e' h. (cc, write_stub-IsStub f p_m68k_code block s.memory);
    }

    -- The put has returned false.
    not_entered :
        put_call ≡ returns (false, cache)
        → ((a : ℕ) → tc_get_addr cache a ≡ tc_get_addr s.tlcache a)
        → SetsUp f p_m68k_code s (setup_tu malloc f p_m68k_code s)
    not_entered put found = record {
      address = none;
      after = record s { tlcache = cache };
      result_returns = unfold setup_tu in rw (empty, taken, put) refl;
      ready = IsReady-again s.memory;
      grows = omega arith;
      entries = found;
      outside = λ q h. refl;
      old = λ y e'. cc;
      new = λ y e' h. cc;
    }

  with_put :
      (empty : tc_get_addr s.tlcache p_m68k_code ≡ returns none)
      (taken : tc_get_code_block s.tlcache ≡ (some block, next_used s.tlcache))
      → PutAddr (next_used s.tlcache) p_m68k_code block put_call
      → SetsUp f p_m68k_code s (setup_tu malloc f p_m68k_code s)
  with_put empty taken p = elim (Bool-cases p.done) [
    | inl e ↦
        entered_unit empty taken p.after p.valid p.same_next
          (p.result_returns ∙ ap (λ (b : Bool). returns (b, p.after)) e)
          (λ a. p.found a ∙ rw e (same_entry a))
    | inr e ↦
        not_entered empty taken p.after p.valid p.same_next
          (p.result_returns ∙ ap (λ (b : Bool). returns (b, p.after)) e)
          (λ a. p.found a ∙ rw e (next_used_entry a))
  ]
    where
      next_used_entry : (a : ℕ) → tc_get_addr (next_used s.tlcache) a ≡ tc_get_addr s.tlcache a
      next_used_entry a = unfold tc_get_addr in refl

      same_entry :
          (a : ℕ)
          → (if same_key 21 p_m68k_code a
              then returns (some block)
              else tc_get_addr (next_used s.tlcache) a)
            ≡ entered p_m68k_code (some block) s a
      same_entry a = rw next_used_entry refl

  fresh :
      p_m68k_code < 2 ^ 32
      → tc_get_addr s.tlcache p_m68k_code ≡ returns none
      → SetsUp f p_m68k_code s (setup_tu malloc f p_m68k_code s)
  fresh small e = elim (tc_get_code_block-cases s.tlcache) [
    | inl b ↦ with_put e b (
        tc_put_addr-PutAddr malloc (next_used s.tlcache) p_m68k_code block
          (record { tree = ready.cache.tree; root = ready.cache.root }) small ready.block)
    | inr b ↦ full e b
  ]

  -- On a ready machine, `setup_tu` of a unit below 4 GB returns, and leaves the machine ready. If it
  -- returns an address, the lookup of the unit finds it afterwards, and the lookups of units with
  -- another key are as before; if it returns NULL, all lookups are as before. A unit with an entry gets
  -- that back, and nothing changes; an address for a unit without one is that of the next block, with
  -- the stub of the unit in it. No memory outside the next block is written.
  pub setup_tu-SetsUp :
      p_m68k_code < 2 ^ 32 → SetsUp f p_m68k_code s (setup_tu malloc f p_m68k_code s)
  setup_tu-SetsUp small = by_entry (tc_get_addr-returns s.tlcache p_m68k_code ready.cache)
    where
      by_entry :
          ((found : Option ℕ) × (tc_get_addr s.tlcache p_m68k_code ≡ returns found))
          → SetsUp f p_m68k_code s (setup_tu malloc f p_m68k_code s)
      by_entry (some x, e) = known x e
      by_entry (none, e) = fresh small e
