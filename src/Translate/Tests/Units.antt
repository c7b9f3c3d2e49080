-- ===== src/Translate/Tests/Units.antt =====
-- The units: their stubs, branches between them, and the translation of a whole unit.
use vadm.Base.{ℕ, ◌≡◌, refl, arith, ◌⊎◌, true, false, none, some, List, [], ◌∷◌, pos}
use vadm.Base.Bytes.{write_byte, write_dword, read_bytes}
use vadm.Base.Outcome.{returns}
use vadm.TlCache.{TranslationCache}
use vadm.Translate.State.{Machine, State, emit, rts, moveq}
use vadm.Translate.Operand.{read_word}
use vadm.Translate.Setup.{setup_tu}
use vadm.Translate.Handlers.{m68k_moveq, m68k_rts}
use vadm.Translate.Table.{entry, search_table}
use vadm.Translate.Opcodes.{init_opc_info_lookup_tbl_lem}
use vadm.Translate.Entries.{SetsUp, setup_tu-SetsUp}
use vadm.X86.{equal, jump8}
use vadm.X86.Listing.{Disassembles}
use vadm.TlCache.{tc_get_addr, get_walk, has_bit}
use vadm.Translate.Handlers.{m68k_bcc, branch_offset}
use vadm.Translate.Links.{Fails, Linked, m68k_bcc-Linked}
use vadm.Translate.Unit.{Uninitialized, call_handler, with_table, translate_tu}
use vadm.Translate.Table.{valid_ea_mode}
use vadm.Translate.Runs.{Handled, Runs, Ran, last, next, returned, linked, behind}
use vadm.Translate.Result.{at_start, translate_tu_complete, translate_tu_sound}
use vadm.TlCache.{tc_put_addr}
use vadm.TlCache.Success.{tc_put_addr-tc_get_addr}
use vadm.Translate.Encode.{x86_encode_move_imm_to_dreg}
use vadm.Translate.Stub.{IsStub}
use vadm.Translate.Success.{setup_tu_succeeds}
use vadm.Translate.Tests.Programs.{empty_cache, machine_of, unset, always, machine_IsReady}

setup_tu-SetsUp_example :
    SetsUp 0x5555_0000 0x10_0000
      (machine_of [])
      (setup_tu always 0x5555_0000 0x10_0000 (machine_of []))
setup_tu-SetsUp_example =
    setup_tu-SetsUp always 0x5555_0000 0x10_0000 (machine_of []) (machine_IsReady []) (omega arith)

-- The first instruction stands in the block before the next one.
abbrev beq_state : State
beq_state = record {
  machine = machine_of (0x67 ∷ 0x04 ∷ []);
  inpos = 0x10_0002;
  outpos = 0x6fff_fc80;
}

m68k_bcc-Linked_example :
    Fails always 0x5555_0000 0x6704 beq_state (m68k_bcc always 0x5555_0000 0x6704 beq_state)
    ⊎ Linked equal 0x6704 beq_state (m68k_bcc always 0x5555_0000 0x6704 beq_state)
unfolding branch_offset
m68k_bcc-Linked_example =
    m68k_bcc-Linked always 0x5555_0000 equal 0x6704 beq_state refl
      (machine_IsReady (0x67 ∷ 0x04 ∷ [])) (omega arith) (omega arith) (omega arith)

-- moveq.l #0x80, d0; rts
abbrev program : List ℕ
program = 0x70 ∷ 0x80 ∷ 0x4e ∷ 0x75 ∷ []

nothing_found : tc_get_addr empty_cache 0x10_0000 ≡ returns none
unfolding tc_get_addr get_walk has_bit
nothing_found = refl

setup_tu_succeeds_example :
    (after : Machine) × (setup_tu always 0x5555_0000 0x10_0000 (machine_of program)
      ≡ returns (some 0x7000_0000, after))
    × (tc_get_addr after.tlcache 0x10_0000 ≡ returns (some 0x7000_0000))
    × IsStub 0x5555_0000 0x10_0000 0x7000_0000 after.memory
setup_tu_succeeds_example =
    setup_tu_succeeds always 0x5555_0000 0x10_0000 (machine_of program) (λ n. refl)
      (machine_IsReady program) (omega arith) (omega arith) nothing_found

-- The cache with the unit entered.
abbrev entry_made :
    (after : TranslationCache) × (tc_put_addr always empty_cache 0x10_0000 0x7000_0000
      ≡ returns (true, after))
    × (tc_get_addr after 0x10_0000 ≡ returns (some 0x7000_0000))
entry_made =
    tc_put_addr-tc_get_addr always (λ n. refl) empty_cache 0x10_0000 0x7000_0000
      (record { tree = (tt, tt); root = refl }) (omega arith) (omega arith)

abbrev entered_machine : Machine
entered_machine = record (machine_of program) { tlcache = entry_made.0 }

abbrev nothing_set : Uninitialized
nothing_set = record { first = λ p. unset; second = λ p. unset }

abbrev at_moveq : State
at_moveq = at_start 0x10_0000 0x7000_0000 entered_machine

abbrev at_rts : State
at_rts = (m68k_moveq 0x7080 (behind at_moveq)).1

abbrev at_end : State
at_end = (m68k_rts 0x4e75 (behind at_rts)).1

moveq-Handled : Handled always 0x5555_0000 nothing_set false at_moveq at_rts
unfolding read_word with_table search_table valid_ea_mode call_handler m68k_moveq
moveq-Handled = record {
  info = entry moveq 0xf100 0x7000 0x000 false;
  nbytes_used = pos 0;
  found = init_opc_info_lookup_tbl_lem (λ opcode. none) 0x7080 (omega arith);
  kind = refl;
  handled = refl;
  succeeded = refl;
}

rts-Handled : Handled always 0x5555_0000 nothing_set true at_rts at_end
unfolding read_word with_table search_table valid_ea_mode call_handler m68k_moveq emit
    x86_encode_move_imm_to_dreg write_byte write_dword m68k_rts
rts-Handled = record {
  info = entry rts 0xffff 0x4e75 0x000 true;
  nbytes_used = pos 0;
  found = init_opc_info_lookup_tbl_lem (λ opcode. none) 0x4e75 (omega arith);
  kind = refl;
  handled = refl;
  succeeded = refl;
}

program-Runs : Runs always 0x5555_0000 nothing_set 1 at_moveq at_end
program-Runs = next moveq-Handled (last rts-Handled)

program_translated :
    translate_tu always 0x5555_0000 nothing_set 2 0x10_0000 entered_machine
    ≡ returned (some 0x7000_0000) (linked 0x7000_0000 at_end)
program_translated =
    (translate_tu_complete always 0x5555_0000 nothing_set 0x10_0000 entered_machine 1 2 0x7000_0000
      at_end entry_made.2 program-Runs (omega arith)).0

translate_tu_complete_example :
    (translate_tu always 0x5555_0000 nothing_set 2 0x10_0000 entered_machine
      ≡ returned (some 0x7000_0000) (linked 0x7000_0000 at_end))
    × Disassembles
        (read_bytes (linked 0x7000_0000 at_end).memory 0x7000_0000 2)
        (jump8 0x7e ∷ [])
        []
translate_tu_complete_example =
    translate_tu_complete always 0x5555_0000 nothing_set 0x10_0000 entered_machine 1 2 0x7000_0000
      at_end entry_made.2 program-Runs (omega arith)

translate_tu_sound_example :
    (tc_get_addr entered_machine.tlcache 0x10_0000 ≡ returns (some 0x7000_0000))
    × Ran always 0x5555_0000 nothing_set 0x7000_0000 2 at_moveq 0x7000_0000
        (linked 0x7000_0000 at_end)
translate_tu_sound_example =
    translate_tu_sound always 0x5555_0000 nothing_set 0x10_0000 entered_machine 2 0x7000_0000
      (linked 0x7000_0000 at_end) program_translated
