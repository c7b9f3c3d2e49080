-- ===== src/Translate/Move.antt =====
-- The handlers of MOVE and MOVEA.
use vadm.Base.{
  ℕ, ◌+◌, ◌*◌, ◌<◌, ◌≡◌, refl, ap, ap₂, ◌∙◌, arith, ◌==◌, true, [], ◌∷◌, if◌then◌else◌, ℤ, pos,
  ◌+ℤ◌, u8, u32, bit_and,
}
use vadm.X86.{bits32, mov_imm, mov_reg, load, save}
use vadm.Translate.State.{State, at_input}
use vadm.Translate.Operand.{Operand, read_word, read_dword}
use vadm.Translate.Encode.{
  x86_encode_move_mem_to_areg, x86_encode_move_mem_to_dreg, x86_encode_move_imm_to_areg,
  x86_encode_move_imm_to_dreg, x86_encode_move_dreg_to_mem, x86_encode_move_dreg_to_dreg,
}
use vadm.Translate.Handlers.{m68k_move, m68k_movea, abs_exec_base, move_operands}
use vadm.Translate.Listing.{
  dreg, areg, imm_dreg, imm_areg, load_dreg, load_areg, save_dreg, move_dreg,
}
use vadm.Translate.Fields.{
  ea_field, reg_field, move_size_field, mode_of_destination, reg_bits, move_size_bits,
  destination_bits, extract_operand_lem, described, described-dreg, dreg_operand, extracted,
}
use vadm.Translate.Register.{Emits}

byte_of : (n : ℕ) → n < 8 → u8 n ≡ n
byte_of n h = omega arith

module _ (opcode : ℕ) (s : State) (long : move_size_field opcode ≡ 2) (src dst : Operand) where
  long_move : (bit_and opcode 0x3000 == 0x2000) ≡ true
  long_move = ground (arith, move_size_bits opcode)

  -- The two extractions, and the routine for their combination.
  move_lem :
      {srcop dstop : Operand} {nbytes_src nbytes_dst : ℤ} {p p' : ℕ}
      → described s.memory s.inpos src (ea_field opcode) ≡ (nbytes_src, srcop, p)
      → described s.memory p dst (mode_of_destination opcode * 8 + reg_field opcode)
        ≡ (nbytes_dst, dstop, p')
      → m68k_move src dst opcode s
        ≡ move_operands srcop dstop (pos 0 +ℤ nbytes_src +ℤ nbytes_dst) (at_input p' s)
  unfolding m68k_move
  move_lem {p} first second =
      rw
        (
          long_move,
          extracted s.memory s.inpos src opcode,
          first,
          destination_bits opcode,
          extract_operand_lem s.memory p dst (mode_of_destination opcode * 8 + reg_field opcode)
              (omega arith),
          second,
        )
        refl

  to_dreg :
      (p : ℕ)
      → mode_of_destination opcode ≡ 0
      → described s.memory p dst (mode_of_destination opcode * 8 + reg_field opcode)
        ≡ (pos 0, dreg_operand (reg_field opcode), p)
  to_dreg p m = rw (d) (described-dreg s.memory p dst (reg_field opcode) (omega arith))
    where
      d : mode_of_destination opcode * 8 + reg_field opcode ≡ reg_field opcode
      d = omega arith

  reg_byte : u8 (reg_field opcode) ≡ reg_field opcode
  reg_byte = omega arith

  -- MOVE.L Dm, Dn becomes MOV between the registers of Dm and Dn.
  pub m68k_move-dreg-dreg :
      ea_field opcode < 8
      → mode_of_destination opcode ≡ 0
      → Emits s s.inpos 0
          (mov_reg bits32 (dreg (ea_field opcode)) (dreg (reg_field opcode)) ∷ [])
          3
          (m68k_move src dst opcode s)
  m68k_move-dreg-dreg is_dreg is_to = record {
    run = x86_encode_move_dreg_to_dreg (ea_field opcode) (reg_field opcode);
    generates = move_dreg (ea_field opcode) (reg_field opcode) is_dreg (omega arith);
    same =
        move_lem (described-dreg s.memory s.inpos src (ea_field opcode) is_dreg)
          (to_dreg s.inpos is_to)
        ∙ rw (reg_byte, byte_of (ea_field opcode) is_dreg) refl;
  }

  -- MOVE.L #v, Dn becomes MOV of the value to the register of Dn; four bytes are consumed.
  pub m68k_move-imm-dreg :
      ea_field opcode ≡ 0x3c
      → mode_of_destination opcode ≡ 0
      → Emits s
          (s.inpos + 4)
          4
          (mov_imm bits32 (dreg (reg_field opcode)) (u32 (read_dword s.memory s.inpos)) ∷ [])
          6
          (m68k_move src dst opcode s)
  m68k_move-imm-dreg is_imm is_to = record {
    run = x86_encode_move_imm_to_dreg (read_dword s.memory s.inpos) (reg_field opcode);
    generates = imm_dreg (read_dword s.memory s.inpos) (reg_field opcode) (omega arith);
    same =
        move_lem (ap (described s.memory s.inpos src) is_imm) (to_dreg (s.inpos + 4) is_to)
        ∙ rw reg_byte refl;
  }

  -- MOVE.L a, Dn with a 32-bit address becomes MOV from the address to the register of Dn.
  pub m68k_move-mem-dreg :
      ea_field opcode ≡ 0x39
      → mode_of_destination opcode ≡ 0
      → Emits s
          (s.inpos + 4)
          4
          (load (dreg (reg_field opcode)) (u32 (read_dword s.memory s.inpos)) ∷ [])
          8
          (m68k_move src dst opcode s)
  m68k_move-mem-dreg is_mem is_to = record {
    run = x86_encode_move_mem_to_dreg (read_dword s.memory s.inpos) (reg_field opcode);
    generates = load_dreg (read_dword s.memory s.inpos) (reg_field opcode) (omega arith);
    same =
        move_lem (ap (described s.memory s.inpos src) is_mem) (to_dreg (s.inpos + 4) is_to)
        ∙ rw reg_byte refl;
  }

  -- MOVE.L Dn, a with a 32-bit address becomes MOV from the register of Dn to the address.
  pub m68k_move-dreg-mem :
      ea_field opcode < 8
      → mode_of_destination opcode ≡ 7
      → reg_field opcode ≡ 1
      → Emits s
          (s.inpos + 4)
          4
          (save (dreg (ea_field opcode)) (u32 (read_dword s.memory s.inpos)) ∷ [])
          8
          (m68k_move src dst opcode s)
  m68k_move-dreg-mem is_dreg is_absolute is_long = record {
    run = x86_encode_move_dreg_to_mem (ea_field opcode) (read_dword s.memory s.inpos);
    generates = save_dreg (read_dword s.memory s.inpos) (ea_field opcode) is_dreg;
    same =
        move_lem (described-dreg s.memory s.inpos src (ea_field opcode) is_dreg)
          (ap₂ (λ (m r : ℕ). described s.memory s.inpos dst (m * 8 + r)) is_absolute is_long)
        ∙ rw (byte_of (ea_field opcode) is_dreg) refl;
  }

  -- MOVE.L a, Dn with a 16-bit address becomes MOV from the address, which is not sign-extended.
  pub m68k_move-word-dreg :
      ea_field opcode ≡ 0x38
      → mode_of_destination opcode ≡ 0
      → Emits s
          (s.inpos + 2)
          2
          (load (dreg (reg_field opcode)) (u32 (read_word s.memory s.inpos)) ∷ [])
          8
          (m68k_move src dst opcode s)
  m68k_move-word-dreg is_mem is_to = record {
    run = x86_encode_move_mem_to_dreg (read_word s.memory s.inpos) (reg_field opcode);
    generates = load_dreg (read_word s.memory s.inpos) (reg_field opcode) (omega arith);
    same =
        move_lem (ap (described s.memory s.inpos src) is_mem) (to_dreg (s.inpos + 2) is_to)
        ∙ rw reg_byte refl;
  }

  -- MOVE.L Dn, a with a 16-bit address, likewise.
  pub m68k_move-dreg-word :
      ea_field opcode < 8
      → mode_of_destination opcode ≡ 7
      → reg_field opcode ≡ 0
      → Emits s
          (s.inpos + 2)
          2
          (save (dreg (ea_field opcode)) (u32 (read_word s.memory s.inpos)) ∷ [])
          8
          (m68k_move src dst opcode s)
  m68k_move-dreg-word is_dreg is_absolute is_short = record {
    run = x86_encode_move_dreg_to_mem (ea_field opcode) (read_word s.memory s.inpos);
    generates = save_dreg (read_word s.memory s.inpos) (ea_field opcode) is_dreg;
    same =
        move_lem (described-dreg s.memory s.inpos src (ea_field opcode) is_dreg)
          (ap₂ (λ (m r : ℕ). described s.memory s.inpos dst (m * 8 + r)) is_absolute is_short)
        ∙ rw (byte_of (ea_field opcode) is_dreg) refl;
  }

-- The base of the Exec library is at another address than in the AmigaOS.
abbrev pub relocated : ℕ → ℕ
relocated addr = if addr == 4 then abs_exec_base else addr

module _ (opcode : ℕ) (s : State) (op : Operand) (long : move_size_field opcode ≡ 2) where
  -- MOVEA.L a, An becomes MOV from the address to the register of An; address 4 is replaced.
  pub m68k_movea-mem :
      ea_field opcode ≡ 0x39
      → Emits s
          (s.inpos + 4)
          4
          (load (areg (reg_field opcode)) (u32 (relocated (read_dword s.memory s.inpos))) ∷ [])
          7
          (m68k_movea op opcode s)
  unfolding m68k_movea
  m68k_movea-mem is_mem = record {
    run = x86_encode_move_mem_to_areg (relocated (read_dword s.memory s.inpos)) (reg_field opcode);
    generates =
        load_areg (relocated (read_dword s.memory s.inpos)) (reg_field opcode) (omega arith);
    same =
        rw (long_move opcode s long op op, extracted s.memory s.inpos op opcode, is_mem, reg_bits)
          refl;
  }

  -- MOVEA.L a, An with a 16-bit address, likewise; two bytes are consumed.
  pub m68k_movea-word :
      ea_field opcode ≡ 0x38
      → Emits s
          (s.inpos + 2)
          2
          (load (areg (reg_field opcode)) (u32 (relocated (read_word s.memory s.inpos))) ∷ [])
          7
          (m68k_movea op opcode s)
  unfolding m68k_movea
  m68k_movea-word is_mem = record {
    run = x86_encode_move_mem_to_areg (relocated (read_word s.memory s.inpos)) (reg_field opcode);
    generates = load_areg (relocated (read_word s.memory s.inpos)) (reg_field opcode) (omega arith);
    same =
        rw (long_move opcode s long op op, extracted s.memory s.inpos op opcode, is_mem, reg_bits)
          refl;
  }

  -- MOVEA.L #v, An becomes MOV of the value to the register of An.
  pub m68k_movea-imm :
      ea_field opcode ≡ 0x3c
      → Emits s
          (s.inpos + 4)
          4
          (mov_imm bits32 (areg (reg_field opcode)) (u32 (read_dword s.memory s.inpos)) ∷ [])
          5
          (m68k_movea op opcode s)
  unfolding m68k_movea
  m68k_movea-imm is_imm = record {
    run = x86_encode_move_imm_to_areg (read_dword s.memory s.inpos) (reg_field opcode);
    generates = imm_areg (read_dword s.memory s.inpos) (reg_field opcode) (omega arith);
    same =
        rw (long_move opcode s long op op, extracted s.memory s.inpos op opcode, is_imm, reg_bits)
          refl;
  }
