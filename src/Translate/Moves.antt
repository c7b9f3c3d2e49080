-- ===== src/Translate/Moves.antt =====
-- The moves that the handlers of MOVE and MOVEA translate, by the classes of their operands.
use vadm.Base.{ℕ, ◌+◌, ◌<◌, ◌≡◌, [], ◌∷◌, u32}
use vadm.X86.{Instruction, bits32, mov_imm, mov_reg, load, save}
use vadm.Translate.State.{State}
use vadm.Translate.Operand.{Operand, read_word, read_dword}
use vadm.Translate.Handlers.{m68k_move, m68k_movea}
use vadm.Translate.Listing.{dreg, areg}
use vadm.Translate.Fields.{ea_field, reg_field, move_size_field, mode_of_destination}
use vadm.Translate.Register.{Emits}
use vadm.Translate.Move.{
  m68k_move-dreg-dreg, m68k_move-imm-dreg, m68k_move-mem-dreg, m68k_move-dreg-mem,
  m68k_move-word-dreg, m68k_move-dreg-word, m68k_movea-mem, m68k_movea-word, m68k_movea-imm,
  relocated,
}

module _ (s : State) (opcode : ℕ) where
  -- The position behind the operands, their bytes, the instruction that stands for MOVE.L, and its size.
  pub data MovesAs : ℕ → ℕ → Instruction → ℕ → Type 0 where
    dreg_to_dreg :
        ea_field opcode < 8
        → mode_of_destination opcode ≡ 0
        → MovesAs s.inpos 0 (mov_reg bits32 (dreg (ea_field opcode)) (dreg (reg_field opcode))) 3
    imm_to_dreg :
        ea_field opcode ≡ 0x3c
        → mode_of_destination opcode ≡ 0
        → MovesAs
            (s.inpos + 4)
            4
            (mov_imm bits32 (dreg (reg_field opcode)) (u32 (read_dword s.memory s.inpos)))
            6
    mem_to_dreg :
        ea_field opcode ≡ 0x39
        → mode_of_destination opcode ≡ 0
        → MovesAs
            (s.inpos + 4)
            4
            (load (dreg (reg_field opcode)) (u32 (read_dword s.memory s.inpos)))
            8
    dreg_to_mem :
        ea_field opcode < 8
        → mode_of_destination opcode ≡ 7
        → reg_field opcode ≡ 1
        → MovesAs
            (s.inpos + 4)
            4
            (save (dreg (ea_field opcode)) (u32 (read_dword s.memory s.inpos)))
            8
    word_to_dreg :
        ea_field opcode ≡ 0x38
        → mode_of_destination opcode ≡ 0
        → MovesAs
            (s.inpos + 2)
            2
            (load (dreg (reg_field opcode)) (u32 (read_word s.memory s.inpos)))
            8
    dreg_to_word :
        ea_field opcode < 8
        → mode_of_destination opcode ≡ 7
        → reg_field opcode ≡ 0
        → MovesAs
            (s.inpos + 2)
            2
            (save (dreg (ea_field opcode)) (u32 (read_word s.memory s.inpos)))
            8

  -- Each combination of operands of MOVE.L that the handler has becomes the MOV between what stands for
  -- the two operands: register to register, immediate value to register, and 32-bit or 16-bit
  -- address to register or back.
  -- The bytes of the operands are consumed, and nothing else is written.
  pub m68k_move-Emits :
      (src dst : Operand) (p nbytes size : ℕ) (instruction : Instruction)
      → move_size_field opcode ≡ 2
      → MovesAs p nbytes instruction size
      → Emits s p nbytes (instruction ∷ []) size (m68k_move src dst opcode s)
  m68k_move-Emits src dst _ _ _ _ long (dreg_to_dreg is_dreg is_to) =
      m68k_move-dreg-dreg opcode s long src dst is_dreg is_to
  m68k_move-Emits src dst _ _ _ _ long (imm_to_dreg is_imm is_to) =
      m68k_move-imm-dreg opcode s long src dst is_imm is_to
  m68k_move-Emits src dst _ _ _ _ long (mem_to_dreg is_mem is_to) =
      m68k_move-mem-dreg opcode s long src dst is_mem is_to
  m68k_move-Emits src dst _ _ _ _ long (dreg_to_mem is_dreg is_absolute is_long) =
      m68k_move-dreg-mem opcode s long src dst is_dreg is_absolute is_long
  m68k_move-Emits src dst _ _ _ _ long (word_to_dreg is_mem is_to) =
      m68k_move-word-dreg opcode s long src dst is_mem is_to
  m68k_move-Emits src dst _ _ _ _ long (dreg_to_word is_dreg is_absolute is_short) =
      m68k_move-dreg-word opcode s long src dst is_dreg is_absolute is_short

  -- The same for MOVEA.L, whose destination is an address register.
  pub data MovesAddressAs : ℕ → ℕ → Instruction → ℕ → Type 0 where
    mem_to_areg :
        ea_field opcode ≡ 0x39
        → MovesAddressAs
            (s.inpos + 4)
            4
            (load (areg (reg_field opcode)) (u32 (relocated (read_dword s.memory s.inpos))))
            7
    word_to_areg :
        ea_field opcode ≡ 0x38
        → MovesAddressAs
            (s.inpos + 2)
            2
            (load (areg (reg_field opcode)) (u32 (relocated (read_word s.memory s.inpos))))
            7
    imm_to_areg :
        ea_field opcode ≡ 0x3c
        → MovesAddressAs
            (s.inpos + 4)
            4
            (mov_imm bits32 (areg (reg_field opcode)) (u32 (read_dword s.memory s.inpos)))
            5

  -- Each kind of operand of MOVEA.L that the handler has, that is a 32-bit address, a 16-bit address
  -- or an immediate value, becomes the MOV to what stands for the address register; the address 4 is
  -- replaced by `ABS_EXEC_BASE`.
  pub m68k_movea-Emits :
      (op : Operand) (p nbytes size : ℕ) (instruction : Instruction)
      → move_size_field opcode ≡ 2
      → MovesAddressAs p nbytes instruction size
      → Emits s p nbytes (instruction ∷ []) size (m68k_movea op opcode s)
  m68k_movea-Emits op _ _ _ _ long (mem_to_areg is_mem) = m68k_movea-mem opcode s op long is_mem
  m68k_movea-Emits op _ _ _ _ long (word_to_areg is_mem) = m68k_movea-word opcode s op long is_mem
  m68k_movea-Emits op _ _ _ _ long (imm_to_areg is_imm) = m68k_movea-imm opcode s op long is_imm
