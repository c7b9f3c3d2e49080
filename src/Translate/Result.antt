-- ===== src/Translate/Result.antt =====
-- `translate_tu`: the result of a call, by the entry of the unit and the run of the loop.
use vadm.Base.{
  ℕ, ◌+◌, ◌<◌, ◌≡◌, refl, ap, ◌∙◌, inl, inr, Bool, Bool-cases, Option, none, some, [], ◌∷◌,
}
use vadm.Base.Bytes.{write_byte, read_bytes, write_bytes, read_bytes-write_bytes}
use vadm.Base.Outcome.{Outcome, returns, fault}
use vadm.X86.{decode, jump8}
use vadm.X86.Listing.{Disassembles}
use vadm.TlCache.{tc_get_addr}
use vadm.Translate.State.{Machine, State}
use vadm.Translate.Unit.{
  Uninitialized, write_jump, with_table, start_of_translated_code, after_lookup, translate_tu,
}
use vadm.Translate.Runs.{Runs, Ran, returned, linked, translate_loop_complete, translate_loop_sound}

-- The state in which the loop starts.
abbrev pub at_start : ℕ → ℕ → Machine → State
at_start p_m68k_code p_x86_code m = record {
  machine = with_table m;
  inpos = p_m68k_code;
  outpos = p_x86_code + start_of_translated_code;
}

pub same_cache : (m : Machine) → (with_table m).tlcache ≡ m.tlcache
unfolding with_table
same_cache m = elim (Bool-cases m.initialized) [ inl e ↦ rw e | inr e ↦ rw e ]

jump_bytes : (x : ℕ) (after : State) → read_bytes (linked x after).memory x 2 ≡ 0xeb ∷ 0x7e ∷ []
unfolding write_jump write_byte write_bytes
jump_bytes x after =
    read_bytes-write_bytes (0xeb ∷ 0x7e ∷ []) (record { mem = after.memory; pos = x })

-- At the start of the block stands a jump of 126 bytes, behind which the translated code begins.
jump_over_stub :
    (x : ℕ) (after : State)
    → Disassembles (read_bytes (linked x after).memory x 2) (jump8 0x7e ∷ []) []
unfolding decode
jump_over_stub x after = rw jump_bytes ([], refl, refl)

module _ (malloc : ℕ → Bool) (translate_tu_addr : ℕ) (u : Uninitialized) (p_m68k_code : ℕ)
    (m : Machine) where
  -- If the unit's entry is the block `x`, and the code at the unit's address runs through `n`
  -- instructions that the table knows and whose handlers succeed, and then such a terminal one, the
  -- loop ends, with any fuel above `n`: `translate_tu` returns the block, and at the block's start
  -- stands a jump of 126 bytes, over the stub.
  pub translate_tu_complete :
      (n fuel x : ℕ) (after : State)
      → tc_get_addr m.tlcache p_m68k_code ≡ returns (some x)
      → Runs malloc translate_tu_addr u n (at_start p_m68k_code x m) after
      → n < fuel
      → (translate_tu malloc translate_tu_addr u fuel p_m68k_code m
          ≡ returned (some x) (linked x after))
        × Disassembles (read_bytes (linked x after).memory x 2) (jump8 0x7e ∷ []) []
  unfolding translate_tu
  translate_tu_complete n fuel x after e r h = (
    ap (after_lookup malloc translate_tu_addr u fuel p_m68k_code (with_table m)) lookup
        ∙ translate_loop_complete malloc translate_tu_addr u n fuel x (at_start p_m68k_code x m)
            after r h,
    jump_over_stub x after,
  )
    where
      lookup : tc_get_addr (with_table m).tlcache p_m68k_code ≡ returns (some x)
      lookup = rw same_cache e

  -- If a call of `translate_tu` returns an address, then that is the unit's entry in the cache, and
  -- from the unit's start on a number of instructions, and then a terminal one, had entries in the
  -- table and handlers that succeeded, each in the state that the one before it left.
  pub translate_tu_sound :
      (fuel x : ℕ) (after : Machine)
      → translate_tu malloc translate_tu_addr u fuel p_m68k_code m ≡ returned (some x) after
      → (tc_get_addr m.tlcache p_m68k_code ≡ returns (some x))
        × Ran malloc translate_tu_addr u x fuel (at_start p_m68k_code x m) x after
  unfolding translate_tu
  translate_tu_sound fuel x after h =
      by_entry (tc_get_addr (with_table m).tlcache p_m68k_code) refl h
    where
      by_entry :
          (found : Outcome (Option ℕ))
          → tc_get_addr (with_table m).tlcache p_m68k_code ≡ found
          → after_lookup malloc translate_tu_addr u fuel p_m68k_code (with_table m) found
            ≡ returned (some x) after
          → (tc_get_addr m.tlcache p_m68k_code ≡ returns (some x))
            × Ran malloc translate_tu_addr u x fuel (at_start p_m68k_code x m) x after
      by_entry fault e k = cc
      by_entry (returns none) e k = cc
      by_entry (returns (some y)) e k =
          let r : Ran malloc translate_tu_addr u y fuel (at_start p_m68k_code y m) x after =
            translate_loop_sound malloc translate_tu_addr u fuel y x after
              (at_start p_m68k_code y m) k in
          rw r.address (rw same_cache at e, rw r.address at r)
