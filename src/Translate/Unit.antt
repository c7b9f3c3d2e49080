-- ===== src/Translate/Unit.antt =====
-- translate.c: `translate_tu`, which translates a unit up to its terminal instruction.
use vadm.Base.{ℕ, zero, suc, ◌+◌, Bool, true, Option, none, some, if◌then◌else◌, ℤ, is_minus_one}
use vadm.Base.Bytes.{Out, write_byte}
use vadm.Base.Outcome.{Outcome, returns, fault}
use vadm.Codegen.Opcode
use vadm.TlCache.{tc_get_addr}
use vadm.Translate.State.{
  OpcodeHandler, rts, tst_32, jsr, subq_32, movea, moveq, bcc, move, OpcodeInfo, Machine, State,
}
use vadm.Translate.Operand.{Operand, read_word}
use vadm.Translate.Table.{init_opc_info_lookup_tbl}
use vadm.Translate.Handlers.{
  m68k_rts, m68k_moveq, m68k_subq_32, m68k_tst_32, m68k_jsr, m68k_movea, m68k_move, m68k_bcc,
}

abbrev pub start_of_translated_code : ℕ
start_of_translated_code = 128

-- What the local operands of the handler that runs at an input position hold at its beginning.
pub record Uninitialized : Type 0 where
  pub first : ℕ → Operand
  pub second : ℕ → Operand

-- The jump over the stub, at the beginning of the block.
unfoldable pub write_jump : ℕ → Machine → Machine
write_jump p_x86_code m =
    let q : Out = record { mem = m.memory; pos = p_x86_code } in
    let o : Out = write_byte 0x7e (write_byte Opcode.jmp_rel8 q) in record m { memory = o.mem }

-- The table is built in the first call.
unfoldable pub with_table : Machine → Machine
with_table m = if m.initialized then m else record m {
  opc_info_lookup_tbl = init_opc_info_lookup_tbl m.opc_info_lookup_tbl;
  initialized = true;
}

module _ (malloc : ℕ → Bool) (translate_tu_addr : ℕ) (u : Uninitialized) where
  -- The call through `opc_handler`.
  unfoldable pub call_handler : OpcodeHandler → ℕ → State → Outcome (ℤ × State)
  call_handler rts opcode s = returns (m68k_rts opcode s)
  call_handler tst_32 opcode s = returns (m68k_tst_32 (u.first s.inpos) opcode s)
  call_handler jsr opcode s = returns (m68k_jsr (u.first s.inpos) opcode s)
  call_handler subq_32 opcode s = returns (m68k_subq_32 (u.first s.inpos) opcode s)
  call_handler movea opcode s = returns (m68k_movea (u.first s.inpos) opcode s)
  call_handler moveq opcode s = returns (m68k_moveq opcode s)
  call_handler bcc opcode s = m68k_bcc malloc translate_tu_addr opcode s
  call_handler move opcode s = returns (m68k_move (u.first s.inpos) (u.second s.inpos) opcode s)

  -- What follows a handler's call; `next` is the rest of the loop.
  abbrev pub after_handler :
      ℕ
      → Bool
      → (State → Option (Outcome (Option ℕ × Machine)))
      → Outcome (ℤ × State)
      → Option (Outcome (Option ℕ × Machine))
  after_handler p_x86_code terminal next fault = some fault
  after_handler p_x86_code terminal next (returns (nbytes_used, s)) =
      if is_minus_one nbytes_used
      then some (returns (none, s.machine))
      else if terminal
      then some (returns (some p_x86_code, write_jump p_x86_code s.machine))
      else next s

  abbrev pub at_opcode :
      ℕ
      → (State → Option (Outcome (Option ℕ × Machine)))
      → ℕ
      → State
      → Option OpcodeInfo
      → Option (Outcome (Option ℕ × Machine))
  at_opcode p_x86_code next opcode s none = some (returns (none, s.machine))
  at_opcode p_x86_code next opcode s (some info) =
      after_handler p_x86_code info.opc_terminal next (call_handler info.opc_handler opcode s)

  -- The loop over the instructions; `none` means that the fuel, one for each instruction, ran out.
  unfoldable pub translate_loop : ℕ → ℕ → State → Option (Outcome (Option ℕ × Machine))
  translate_loop zero p_x86_code s = none
  translate_loop (suc fuel) p_x86_code s =
      let opcode : ℕ = read_word s.memory s.inpos in
      let s' : State = record { machine = s.machine; inpos = s.inpos + 2; outpos = s.outpos } in
      at_opcode p_x86_code (translate_loop fuel p_x86_code) opcode s' (s.opc_info_lookup_tbl opcode)

  abbrev pub after_lookup :
      ℕ → ℕ → Machine → Outcome (Option ℕ) → Option (Outcome (Option ℕ × Machine))
  after_lookup fuel p_m68k_code m fault = some fault
  after_lookup fuel p_m68k_code m (returns none) = some (returns (none, m))
  after_lookup fuel p_m68k_code m (returns (some p_x86_code)) =
      translate_loop fuel p_x86_code (record {
        machine = m;
        inpos = p_m68k_code;
        outpos = p_x86_code + start_of_translated_code;
      })

  -- The address of the translated code, or NULL.
  unfoldable pub translate_tu : ℕ → ℕ → Machine → Option (Outcome (Option ℕ × Machine))
  translate_tu fuel p_m68k_code m =
      let m' : Machine = with_table m in
      after_lookup fuel p_m68k_code m' (tc_get_addr m'.tlcache p_m68k_code)
