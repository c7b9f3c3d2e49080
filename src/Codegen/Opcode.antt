-- ===== src/Codegen/Opcode.antt =====
-- codegen.h: the constants for encoding the instructions, OPCODE_* and PREFIX_*.
use vadm.Base.{ℕ}

abbrev pub int_3 : ℕ
int_3 = 0xcc

abbrev pub jmp_rel8 : ℕ
jmp_rel8 = 0xeb

abbrev pub jmp_rel32 : ℕ
jmp_rel32 = 0xe9

abbrev pub call_abs64 : ℕ
call_abs64 = 0xff

abbrev pub mov_reg_reg : ℕ
mov_reg_reg = 0x89

abbrev pub mov_imm_reg : ℕ
mov_imm_reg = 0xb8

abbrev pub ret : ℕ
ret = 0xc3

abbrev pub and_imm8 : ℕ
and_imm8 = 0x83

abbrev pub push_reg : ℕ
push_reg = 0x50

abbrev pub pop_reg : ℕ
pop_reg = 0x58

abbrev pub pushfq : ℕ
pushfq = 0x9c

abbrev pub popfq : ℕ
popfq = 0x9d

abbrev pub nop : ℕ
nop = 0x90

abbrev pub rexb : ℕ
rexb = 0x41

abbrev pub rexr : ℕ
rexr = 0x44

abbrev pub rexw : ℕ
rexw = 0x48
