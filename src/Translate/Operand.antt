-- ===== src/Translate/Operand.antt =====
-- translate.c and translate.h: the operand of a 680x0 instruction and its extraction.
use vadm.Base.{ℕ, ◌+◌, ◌*◌, ◌^◌, ◌==◌, bit_and, if◌then◌else◌, ℤ, pos, minus_one}
use vadm.Base.Bytes.{Memory}

-- `op_type` is a `uint8_t`, which takes the values of the constants OP_* below.
pub record Operand : Type 0 where
  pub op_type : ℕ
  pub op_length : ℕ
  pub op_value : ℕ

abbrev pub op_areg : ℕ
op_areg = 0

abbrev pub op_dreg : ℕ
op_dreg = 1

abbrev pub op_mem : ℕ
op_mem = 2

abbrev pub op_imm : ℕ
op_imm = 3

abbrev pub op_areg_offset : ℕ
op_areg_offset = 4

-- The big-endian word at a position: `ntohs(*(uint16_t *) pos)`.
unfoldable pub read_word : Memory → ℕ → ℕ
read_word m p = m p * 2 ^ 8 + m (p + 1)

-- `ntohl(*(uint32_t *) pos)`.
unfoldable pub read_dword : Memory → ℕ → ℕ
read_dword m p = m p * 2 ^ 24 + m (p + 1) * 2 ^ 16 + m (p + 2) * 2 ^ 8 + m (p + 3)

-- The result, the operand and the position that the call leaves. `op` is what the operand holds
-- before; in the last case it stays as it is.
unfoldable pub extract_operand : ℕ → Memory → ℕ → Operand → ℤ × Operand × ℕ
extract_operand mode_reg m p op =
    if bit_and mode_reg 0xf8 == 0
    then (pos 0, record { op_type = op_dreg; op_length = 4; op_value = bit_and mode_reg 0x07 }, p)
    else if bit_and mode_reg 0xf8 == 8
    then (pos 0, record { op_type = op_areg; op_length = 4; op_value = bit_and mode_reg 0x07 }, p)
    else if bit_and mode_reg 0xf8 == 0x28
    then (
      pos 0,
      record { op_type = op_areg_offset; op_length = 4; op_value = bit_and mode_reg 0x07 },
      p,
    )
    else if mode_reg == 0x38
    then (pos 2, record { op_type = op_mem; op_length = 2; op_value = read_word m p }, p + 2)
    else if mode_reg == 0x39
    then (pos 4, record { op_type = op_mem; op_length = 4; op_value = read_dword m p }, p + 4)
    else if mode_reg == 0x3c
    then (pos 4, record { op_type = op_imm; op_length = 4; op_value = read_dword m p }, p + 4)
    else (minus_one, op, p)
