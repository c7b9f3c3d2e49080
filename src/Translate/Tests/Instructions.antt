-- ===== src/Translate/Tests/Instructions.antt =====
-- The handlers and the opcode table at the instructions of the unit test in translate.h.
use vadm.Base.{ℕ, ◌≡◌, refl, arith, inr, none, List, [], ◌∷◌, minus_one, sign_extend}
use vadm.Translate.Operand.{read_word}
use vadm.Translate.Handlers.{m68k_subq_32, m68k_jsr}
use vadm.Translate.Table.{opcode_info_tbl, search_table, init_opc_info_lookup_tbl}
use vadm.Translate.Register.{m68k_subq_32_fails, m68k_jsr_unsupported}
use vadm.Translate.Opcodes.{classify, handler_of, init_opc_info_lookup_tbl_lem}
use vadm.Translate.Opcodes.Lines.{search_table-classify}
use vadm.Translate.Registers.{x86_encode-x86_reg_for_m68k_reg}
use vadm.X86.{bits32, mov_imm, load, save, push, pop, alu_imm32, add_imm, call_reg}
use vadm.X86.Listing.{Generates}
use vadm.Translate.Register.{Emits}
use vadm.Translate.Encode.{
  x86_encode_move_mem_to_areg, x86_encode_move_mem_to_dreg, x86_encode_move_imm_to_areg,
  x86_encode_move_imm_to_dreg, x86_encode_move_dreg_to_mem,
}
use vadm.Translate.Tests.Programs.{state_of, unset, library_base}

-- moveq.l #0x80, d0
abbrev moveq_code : List ℕ
moveq_code = 0x70 ∷ 0x80 ∷ []

-- subq.l #1, a2
m68k_subq_32_fails_example : (m68k_subq_32 unset 0x538a (state_of [])).0 ≡ minus_one
m68k_subq_32_fails_example = m68k_subq_32_fails unset 0x538a (state_of []) (inr (omega arith))

-- jsr -948(a6)
abbrev jsr_code : List ℕ
jsr_code = 0x4e ∷ 0xae ∷ 0xfc ∷ 0x4c ∷ []

-- The long word 0x5555aaaa behind the opcode.
abbrev long_code : List ℕ
long_code = 0x22 ∷ 0x3c ∷ 0x55 ∷ 0x55 ∷ 0xaa ∷ 0xaa ∷ []

-- movea.l 0x0004, a6
abbrev exec_base_code : List ℕ
exec_base_code = 0x2c ∷ 0x78 ∷ 0x00 ∷ 0x04 ∷ []

search_table-classify_example : handler_of 0x4eae ≡ classify 0x4eae
search_table-classify_example = search_table-classify 0x4eae (omega arith)

init_opc_info_lookup_tbl_lem_example :
    init_opc_info_lookup_tbl (λ opcode. none) 0x4e75 ≡ search_table 0x4e75 opcode_info_tbl
init_opc_info_lookup_tbl_lem_example =
    init_opc_info_lookup_tbl_lem (λ opcode. none) 0x4e75 (omega arith)

-- jsr 4(pc), with an operand that reads as the displacement of A6, and a word behind the opcode.
word_behind : read_word (state_of jsr_code).memory 0x10_0002 ≡ 0xfc4c
unfolding read_word
word_behind = refl

m68k_jsr_unsupported_example :
    Emits
      (state_of jsr_code)
      0x10_0004
      2
      (push 6
        ∷ alu_imm32 add_imm bits32 6
            (sign_extend 16 32 (read_word (state_of jsr_code).memory 0x10_0002))
        ∷ call_reg 6
        ∷ pop 6
        ∷ [])
      10
      (m68k_jsr library_base 0x4eba (state_of jsr_code))
m68k_jsr_unsupported_example =
    m68k_jsr_unsupported library_base 0x4eba (state_of jsr_code) refl refl refl
      (omega (arith, word_behind))

-- A4 is held in RDI, and D4 in R12.
x86_encode-x86_reg_for_m68k_reg_example :
    Generates (x86_encode_move_mem_to_dreg 0x1234 4) (load 12 0x1234 ∷ []) 8
    × Generates (x86_encode_move_dreg_to_mem 4 0x1234) (save 12 0x1234 ∷ []) 8
    × Generates (x86_encode_move_imm_to_dreg 0x1234 4) (mov_imm bits32 12 0x1234 ∷ []) 6
    × Generates (x86_encode_move_mem_to_areg 0x1234 4) (load 7 0x1234 ∷ []) 7
    × Generates (x86_encode_move_imm_to_areg 0x1234 4) (mov_imm bits32 7 0x1234 ∷ []) 5
x86_encode-x86_reg_for_m68k_reg_example = x86_encode-x86_reg_for_m68k_reg 0x1234 4 (omega arith)
