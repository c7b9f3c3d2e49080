-- ===== src/Translate/Register.antt =====
-- The handlers of the instructions on registers: MOVEQ, SUBQ, TST, RTS and the calls of libraries.
use vadm.Base.{
  ℕ, ◌+◌, ◌%◌, ◌^◌, ◌<◌, ◌≡◌, ◌≢◌, ◌⊎◌, ◌≤◌, refl, inl, inr, arith, ◌==◌, true, false, Bool-cases,
  List, [], ◌∷◌, ℤ, pos, minus_one, sign_extend, u32, bit_and,
}
use vadm.Base.Bytes.{Out, write_byte}
use vadm.X86.{
  Instruction, bits32, sub_imm, add_imm, mov_imm, alu_imm8, alu_imm32, test_reg, ret, push, pop,
  call_reg,
}
use vadm.X86.Listing.{Generates}
use vadm.Translate.State.{State, emit, at_input}
use vadm.Translate.Operand.{Operand, op_areg_offset, read_word}
use vadm.Translate.Encode.{x86_encode_move_imm_to_dreg}
use vadm.Translate.Handlers.{
  m68k_moveq, m68k_subq_32, m68k_tst_32, m68k_rts, m68k_jsr, write_sub, write_test,
  write_library_call,
}
use vadm.Translate.Listing.{dreg, imm_dreg, sub_dreg, test_dreg, library_call, return_code}
use vadm.Translate.Fields.{
  is_supported, ea_field, reg_field, size_field, low_byte, reg_bits, size_bits, extracted,
  extracted_dreg, described_refused,
}

-- The handler returns `n`, leaves the input position `p`, and writes code of `size` bytes that
-- decodes to the listing.
pub record Emits (s : State) (p n : ℕ) (listing : List Instruction) (size : ℕ) (result : ℤ × State)
    : Type 0 where
  pub run : Out → Out
  pub generates : Generates run listing size
  pub same : result ≡ (pos n, emit run (at_input p s))

-- MOVEQ #v, Dn becomes MOV of the value, sign-extended from 8 to 32 bits, to the register of Dn.
pub m68k_moveq-Emits :
    (opcode : ℕ) (s : State)
    → Emits s s.inpos 0
        (mov_imm bits32 (dreg (reg_field opcode)) (sign_extend 8 32 (opcode % 2 ^ 8)) ∷ [])
        6
        (m68k_moveq opcode s)
unfolding m68k_moveq
m68k_moveq-Emits opcode s = record {
  run = x86_encode_move_imm_to_dreg value (reg_field opcode);
  generates = rw fits at (imm_dreg value (reg_field opcode) (omega arith));
  same = rw (low_byte, reg_bits) refl;
}
  where
    value : ℕ
    value = sign_extend 8 32 (opcode % 2 ^ 8)

    fits : u32 value ≡ value
    fits = ground arith

-- RTS becomes RET.
pub m68k_rts-Emits : (opcode : ℕ) (s : State) → Emits s s.inpos 0 (ret ∷ []) 1 (m68k_rts opcode s)
unfolding m68k_rts
m68k_rts-Emits opcode s = record { run = write_byte 0xc3; generates = return_code; same = refl }

module _ (op : Operand) (opcode : ℕ) (s : State) where
  long_size : size_field opcode ≡ 2 → (bit_and opcode 0x00c0 == 0x0080) ≡ true
  long_size long = ground (arith, size_bits opcode)

  -- TST.L Dn becomes TEST of the register of Dn with itself.
  pub m68k_tst_32-Emits :
      size_field opcode ≡ 2
      → ea_field opcode < 8
      → Emits s s.inpos 0
          (test_reg bits32 (dreg (ea_field opcode)) (dreg (ea_field opcode)) ∷ [])
          3
          (m68k_tst_32 op opcode s)
  unfolding m68k_tst_32
  m68k_tst_32-Emits long is_dreg = record {
    run = write_test (ea_field opcode);
    generates = test_dreg (ea_field opcode) is_dreg;
    same = rw (long_size long, extracted_dreg s.memory s.inpos op opcode is_dreg) refl;
  }

  -- For an opcode of another size or with another operand it returns -1, whatever the operand holds
  -- that `extract_operand` does not set.
  pub m68k_tst_32_fails :
      (size_field opcode ≢ 2) ⊎ (8 ≤ ea_field opcode) → (m68k_tst_32 op opcode s).0 ≡ minus_one
  unfolding m68k_tst_32
  m68k_tst_32_fails h = elim (Bool-cases (bit_and opcode 0x00c0 == 0x0080)) [
    | inl e ↦ rw (e, extracted s.memory s.inpos op opcode) (ground (arith, size_bits opcode))
    | inr e ↦ rw e
  ]

  -- SUBQ.L #v, Dn becomes SUB of the three bits of the field from the register of Dn.
  pub m68k_subq_32-Emits :
      size_field opcode ≡ 2
      → ea_field opcode < 8
      → Emits s s.inpos 0
          (alu_imm8 sub_imm bits32 (dreg (ea_field opcode)) (reg_field opcode) ∷ [])
          4
          (m68k_subq_32 op opcode s)
  unfolding m68k_subq_32
  m68k_subq_32-Emits long is_dreg = record {
    run = write_sub (ea_field opcode) (reg_field opcode);
    generates = sub_dreg (reg_field opcode) (ea_field opcode) is_dreg (omega arith);
    same = rw (long_size long, extracted_dreg s.memory s.inpos op opcode is_dreg, reg_bits) refl;
  }

  -- For an opcode of another size or with another operand SUBQ returns -1, whatever the operand holds
  -- that `extract_operand` does not set.
  pub m68k_subq_32_fails :
      (size_field opcode ≢ 2) ⊎ (8 ≤ ea_field opcode) → (m68k_subq_32 op opcode s).0 ≡ minus_one
  unfolding m68k_subq_32
  m68k_subq_32_fails h = elim (Bool-cases (bit_and opcode 0x00c0 == 0x0080)) [
    | inl e ↦ rw (e, extracted s.memory s.inpos op opcode) (ground (arith, size_bits opcode))
    | inr e ↦ rw e
  ]

  library_call_lem :
      read_word s.memory s.inpos < 2 ^ 16
      → Generates
          (write_library_call (sign_extend 16 32 (read_word s.memory s.inpos)))
          (push 6
            ∷ alu_imm32 add_imm bits32 6 (sign_extend 16 32 (read_word s.memory s.inpos))
            ∷ call_reg 6
            ∷ pop 6
            ∷ [])
          10
  library_call_lem word = rw fits at (library_call offset)
    where
      offset : ℕ
      offset = sign_extend 16 32 (read_word s.memory s.inpos)

      fits : u32 offset ≡ offset
      fits = ground arith

  -- JSR d(A6) becomes PUSH RSI, ADD of the displacement, sign-extended from 16 to 32 bits, to ESI,
  -- CALL RSI, POP RSI; the two bytes of the displacement are consumed.
  pub m68k_jsr-Emits :
      ea_field opcode ≡ 0x2e
      → read_word s.memory s.inpos < 2 ^ 16
      → Emits s
          (s.inpos + 2)
          2
          (push 6
            ∷ alu_imm32 add_imm bits32 6 (sign_extend 16 32 (read_word s.memory s.inpos))
            ∷ call_reg 6
            ∷ pop 6
            ∷ [])
          10
          (m68k_jsr op opcode s)
  unfolding m68k_jsr
  m68k_jsr-Emits is_a6 word = record {
    run = write_library_call (sign_extend 16 32 (read_word s.memory s.inpos));
    generates = library_call_lem word;
    same = rw (extracted s.memory s.inpos op opcode, is_a6) refl;
  }

  -- For an operand that `extract_operand` refuses, where the memory of the local operand, which the
  -- handler does not initialise, holds A6 with displacement by chance: the handler translates a library
  -- call, as for JSR d(A6). It consumes a word as the displacement, and what it writes is PUSH RSI, ADD of
  -- the word, sign-extended, to ESI, CALL RSI, POP RSI.
  pub m68k_jsr_unsupported :
      is_supported (ea_field opcode) ≡ false
      → op.op_type ≡ op_areg_offset
      → op.op_value ≡ 6
      → read_word s.memory s.inpos < 2 ^ 16
      → Emits s
          (s.inpos + 2)
          2
          (push 6
            ∷ alu_imm32 add_imm bits32 6 (sign_extend 16 32 (read_word s.memory s.inpos))
            ∷ call_reg 6
            ∷ pop 6
            ∷ [])
          10
          (m68k_jsr op opcode s)
  unfolding m68k_jsr
  m68k_jsr_unsupported refused offset_type is_six word = record {
    run = write_library_call (sign_extend 16 32 (read_word s.memory s.inpos));
    generates = library_call_lem word;
    same =
        rw
          (
            extracted s.memory s.inpos op opcode,
            described_refused s.memory s.inpos op (ea_field opcode) refused,
            offset_type,
            is_six,
          )
          refl;
  }
