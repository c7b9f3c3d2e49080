-- ===== src/Translate/Links.antt =====
-- The handler of the conditional branches, `m68k_bcc`: the two units and the jumps to them.
use vadm.Base.{
  ℕ, ◌+◌, ◌^◌, ◌<◌, ◌≤◌, ◌≡◌, refl, ◌∙◌, ◌⊎◌, inl, inr, arith, Bool-cases, Option-cases, Bool, true,
  Option, none, some, [], ◌∷◌, ℤ, pos, minus_one, u8, u32,
}
use vadm.Base.Bytes.{write_byte, write_dword, write_bytes, write_bytes_outside, read_bytes}
use vadm.Base.Outcome.{Outcome, returns, ◌>>=◌}
use vadm.X86.{Condition, jump_if, jump32}
use vadm.X86.Listing.{Disassembles}
use vadm.TlCache.{tc_get_addr}
use vadm.TlCache.Tree.{same_key, same_key_self}
use vadm.TlCache.Lookup.{tc_get_addr-same_key}
use vadm.Translate.State.{Machine, State, emit}
use vadm.Translate.Setup.{setup_tu}
use vadm.Translate.Handlers.{
  m68k_bcc, branch_offset, relative, write_jumps, taken_set_up, both_set_up, with_machine,
}
use vadm.Translate.Entries.{IsReady, SetsUp, setup_tu-SetsUp}
use vadm.Translate.Branch.{
  branch_target, condition_field, condition_number, branch_opcode_lem, jumps_code,
  jumps_code-Disassembles, before_units, opcode_written, to_first, to_second, jumps_read,
  jumps_before, condition_code,
}

abbrev pub behind_offset : ℕ → State → ℕ
behind_offset opcode s = s.inpos + (branch_offset opcode s).1

-- Where a jump leads whose last byte stands before `p`.
abbrev pub landing : ℕ → ℕ → ℕ
landing p displacement = u32 (p + displacement)

relative-landing : (to p skip : ℕ) → landing (p + skip) (u32 (relative to p skip)) ≡ u32 to
relative-landing to p skip = omega arith

-- The handler returns the number of bytes of the offset, and leaves the input behind them. The units
-- of the branch target and of the next instruction have entries in the cache, and the eleven bytes
-- at the old output position are a conditional jump, which leads to the entry of the target, and a
-- jump to that of the next instruction, as far as 32 bits tell. No byte before them changes.
pub record Linked (c : Condition) (opcode : ℕ) (s : State) (result : Outcome (ℤ × State))
    : Type 0 where
  pub taken : ℕ
  pub not_taken : ℕ
  pub after : State
  pub result_returns : result ≡ returns (pos (branch_offset opcode s).1, after)
  pub input : after.inpos ≡ behind_offset opcode s
  pub output : after.outpos ≡ s.outpos + 11
  pub before : (q : ℕ) → q < s.outpos → after.memory q ≡ s.memory q
  pub ready : IsReady after.machine
  pub taken_entry : tc_get_addr after.tlcache (branch_target opcode s) ≡ returns (some taken)
  pub not_taken_entry :
      tc_get_addr after.tlcache (behind_offset opcode s) ≡ returns (some not_taken)
  pub to_taken : ℕ
  pub to_not_taken : ℕ
  pub reads :
      Disassembles
        (read_bytes after.memory s.outpos 11)
        (jump_if c to_taken ∷ jump32 to_not_taken ∷ [])
        []
  pub taken_landing : landing (s.outpos + 6) to_taken ≡ u32 taken
  pub not_taken_landing : landing (s.outpos + 11) to_not_taken ≡ u32 not_taken

-- The handler returns -1, since one of the two calls of `setup_tu` returned NULL.
pub record Fails (malloc : ℕ → Bool) (f opcode : ℕ) (s : State) (result : Outcome (ℤ × State))
    : Type 0 where
  pub after : State
  pub result_returns : result ≡ returns (minus_one, after)
  pub unit : ℕ
  pub before : Machine
  pub is_unit : (unit ≡ branch_target opcode s) ⊎ (unit ≡ behind_offset opcode s)
  pub refused : setup_tu malloc f unit before ≡ returns (none, after.machine)

module _ (malloc : ℕ → Bool) (f : ℕ) (c : Condition) (opcode : ℕ) (s : State)
    (is_condition : condition_field opcode ≡ condition_number c) (ready : IsReady s.machine) where
  abbrev s₁ : State
  s₁ = before_units c opcode s

  abbrev call : Outcome (Option ℕ × Machine)
  call = setup_tu malloc f (branch_target opcode s) s₁.machine

  bcc_call :
      m68k_bcc malloc f opcode s ≡ (call >>= taken_set_up malloc f (branch_offset opcode s).1 s₁)
  unfolding m68k_bcc
  bcc_call = rw (branch_opcode_lem c opcode is_condition) refl

  ready₁ : IsReady s₁.machine
  unfolding emit write_byte
  ready₁ = record { cache = ready.cache; block = ready.block }

  module _ (small : branch_target opcode s < 2 ^ 32) (small' : behind_offset opcode s < 2 ^ 32)
      (room : s.outpos + 2 ≤ s.tlcache.p_next_code_block) where
    first : SetsUp f (branch_target opcode s) s₁.machine call
    first = setup_tu-SetsUp malloc f (branch_target opcode s) s₁.machine ready₁ small

    second :
        SetsUp f
          (behind_offset opcode s)
          first.after
          (setup_tu malloc f (behind_offset opcode s) first.after)
    second = setup_tu-SetsUp malloc f (behind_offset opcode s) first.after first.ready small'

    input₁ : s₁.inpos ≡ behind_offset opcode s
    input₁ = unfold emit in refl

    no_taken : first.address ≡ none → Fails malloc f opcode s (m68k_bcc malloc f opcode s)
    no_taken e = record {
      after = with_machine first.after s₁;
      result_returns = bcc_call ∙ rw (first.result_returns, e) refl;
      unit = branch_target opcode s;
      before = s₁.machine;
      is_unit = inl refl;
      refused = first.result_returns ∙ rw e refl;
    }

    after_first :
        (taken : ℕ)
        → first.address ≡ some taken
        → m68k_bcc malloc f opcode s
          ≡ returns (both_set_up (branch_offset opcode s).1 taken s₁ (second.address, second.after))
    after_first taken e =
        bcc_call ∙ rw (first.result_returns, e, input₁, second.result_returns) refl

    no_next :
        (taken : ℕ)
        → first.address ≡ some taken
        → second.address ≡ none
        → Fails malloc f opcode s (m68k_bcc malloc f opcode s)
    no_next taken e e' = record {
      after = with_machine second.after s₁;
      result_returns = after_first taken e ∙ rw e' refl;
      unit = behind_offset opcode s;
      before = first.after;
      is_unit = inr refl;
      refused = second.result_returns ∙ rw e' refl;
    }

    module _ (taken not_taken : ℕ) (e : first.address ≡ some taken)
        (e' : second.address ≡ some not_taken) where
      abbrev final : State
      final = emit (write_jumps taken not_taken) (with_machine second.after s₁)

      same_target : tc_get_addr first.after.tlcache (branch_target opcode s) ≡ returns (some taken)
      same_target =
          first.entries (branch_target opcode s)
          ∙ rw (e, same_key_self (branch_target opcode s)) refl

      target_entry :
          tc_get_addr second.after.tlcache (branch_target opcode s) ≡ returns (some taken)
      target_entry =
          elim (Bool-cases (same_key 21 (behind_offset opcode s) (branch_target opcode s))) [
            | inl same ↦ second.entries (branch_target opcode s) ∙ rw (e', same) (one_unit same)
            | inr differs ↦ second.entries (branch_target opcode s) ∙ rw (e', differs) same_target
          ]
        where
          one_unit :
              same_key 21 (behind_offset opcode s) (branch_target opcode s) ≡ true
              → returns (some not_taken) ≡ returns (some taken)
          one_unit same =
              let (a, b) = second.old taken (
                tc_get_addr-same_key first.after.tlcache (behind_offset opcode s)
                  (branch_target opcode s) same
                ∙ same_target) in
              cc

      next_entry :
          tc_get_addr second.after.tlcache (behind_offset opcode s) ≡ returns (some not_taken)
      next_entry =
          second.entries (behind_offset opcode s)
          ∙ rw (e', same_key_self (behind_offset opcode s)) refl

      grown : s.tlcache.p_next_code_block ≤ first.after.tlcache.p_next_code_block
      grown = unfold emit in first.grows

      unchanged :
          (q : ℕ)
          → s.outpos ≤ q
          → q < s.outpos + 2
          → second.after.memory q
            ≡ (opcode_written c taken not_taken s.outpos s.memory s.memory).mem q
      unchanged q a b =
          second.outside q (inl omega (arith, room, grown))
          ∙ first.outside q (inl unfold emit in omega (arith, room))
          ∙ unfold emit in refl

      opcode_before :
          (q : ℕ)
          → q < s.outpos
          → (opcode_written c taken not_taken s.outpos s.memory s.memory).mem q ≡ s.memory q
      unfolding write_byte write_bytes
      opcode_before q h =
          write_bytes_outside (0x0f ∷ u8 (condition_code c) ∷ [])
            (record { mem = s.memory; pos = s.outpos }) q (inl h)

      memory_before : (q : ℕ) → q < s.outpos → final.memory q ≡ s.memory q
      unfolding emit write_byte
      memory_before q h =
          jumps_before c taken not_taken s.outpos s.memory second.after.memory q h
          ∙ second.outside q (inl (omega (arith, room, grown)))
          ∙ first.outside q (inl (omega (arith, room)))
          ∙ opcode_before q h

      bytes_there :
          read_bytes final.memory s.outpos 11
          ≡ jumps_code c
              (to_first c taken not_taken s.outpos s.memory second.after.memory)
              (to_second c taken not_taken s.outpos s.memory second.after.memory)
      unfolding emit write_byte
      bytes_there = jumps_read c taken not_taken s.outpos s.memory second.after.memory unchanged

      linked : Linked c opcode s (m68k_bcc malloc f opcode s)
      unfolding emit
      linked = record {
        taken = taken;
        not_taken = not_taken;
        after = final;
        result_returns = after_first taken e ∙ rw e' refl;
        input = input₁;
        output = unfold write_byte write_dword in omega arith;
        before = memory_before;
        ready = record { cache = second.ready.cache; block = second.ready.block };
        taken_entry = target_entry;
        not_taken_entry = next_entry;
        to_taken = u32 (to_first c taken not_taken s.outpos s.memory second.after.memory);
        to_not_taken = u32 (to_second c taken not_taken s.outpos s.memory second.after.memory);
        reads = rw bytes_there (
            jumps_code-Disassembles c
              (to_first c taken not_taken s.outpos s.memory second.after.memory)
              (to_second c taken not_taken s.outpos s.memory second.after.memory));
        taken_landing = omega arith;
        not_taken_landing = omega arith;
      }

    -- A BNE or BEQ in a state that is ready (the tree of the cache is well formed, its root a node, and
    -- the next block is not at address 0), whose target and next instruction are below 4 GB, at an
    -- output position that leaves two bytes to the next block: the handler returns, and either
    -- `setup_tu` returned NULL for one of the two units, and the result is -1, or both have entries and
    -- the code jumps to them.
    pub m68k_bcc-Linked :
        Fails malloc f opcode s (m68k_bcc malloc f opcode s)
        ⊎ Linked c opcode s (m68k_bcc malloc f opcode s)
    m68k_bcc-Linked = elim (Option-cases first.address) [
      | inl e ↦ inl (no_taken e)
      | inr (taken, e) ↦ elim (Option-cases second.address) [
        | inl e' ↦ inl (no_next taken e e')
        | inr (not_taken, e') ↦ inr (linked taken not_taken e e')
      ]
    ]
