-- ===== src/Translate/Fields.antt =====
-- The fields of a 680x0 opcode, and the operands that the source extracts for them.
use vadm.Base.{
  ℕ, ◌+◌, ◌*◌, ◌/◌, ◌%◌, ◌^◌, ◌<◌, ◌≡◌, refl, ap, ◌∙◌, arith, ◌==◌, eq→==, Bool, true, false,
  bit_and, bit_and-mask, bit_field, if◌then◌else◌, ℤ, pos, minus_one,
}
use vadm.Base.Bytes.{Memory}
use vadm.Base.Tables.{tabulate, tabulate_ext, tabulate_ext₂}
use vadm.Translate.Operand.{
  Operand, op_areg, op_dreg, op_mem, op_imm, op_areg_offset, read_word, read_dword, extract_operand,
}
use vadm.Translate.Handlers.{swap_parts}

-- Bits 0 to 5, the effective address; bits 9 to 11, a register or a small number; bits 6 and 7,
-- the size of an operation.
abbrev pub ea_field : ℕ → ℕ
ea_field opcode = opcode % 2 ^ 6

abbrev pub reg_field : ℕ → ℕ
reg_field opcode = opcode / 2 ^ 9 % 2 ^ 3

abbrev pub size_field : ℕ → ℕ
size_field opcode = opcode / 2 ^ 6 % 2 ^ 2

-- Bits 12 and 13, the size of a move, and bits 6 to 11, its destination.
abbrev pub move_size_field : ℕ → ℕ
move_size_field opcode = opcode / 2 ^ 12 % 2 ^ 2

abbrev pub mode_of_destination : ℕ → ℕ
mode_of_destination opcode = opcode / 2 ^ 6 % 2 ^ 3

pub ea_bits : (opcode : ℕ) → bit_and opcode 0x003f ≡ ea_field opcode
ea_bits opcode = bit_and-mask 6 opcode

pub low_byte : (opcode : ℕ) → bit_and opcode 0x00ff ≡ opcode % 2 ^ 8
low_byte opcode = bit_and-mask 8 opcode

pub reg_bits : (opcode : ℕ) → bit_and opcode 0x0e00 / 2 ^ 9 ≡ reg_field opcode
reg_bits opcode = omega (arith, bit_field 3 9 opcode)

pub size_bits : (opcode : ℕ) → bit_and opcode 0x00c0 ≡ size_field opcode * 2 ^ 6
size_bits opcode = bit_field 2 6 opcode

pub move_size_bits : (opcode : ℕ) → bit_and opcode 0x3000 ≡ move_size_field opcode * 2 ^ 12
move_size_bits opcode = bit_field 2 12 opcode

-- A destination has its register in the three bits above its mode; `m68k_move` swaps them.
swap_table : (mode reg : ℕ) → mode < 8 → reg < 8 → swap_parts (reg * 8 + mode) ≡ mode * 8 + reg
swap_table mode reg hm hr =
    unfold tabulate in
    tabulate_ext₂ 8 8 (λ m r. swap_parts (r * 8 + m)) (λ m r. m * 8 + r) mode reg refl hm hr

pub destination_bits :
    (opcode : ℕ)
    → swap_parts (bit_and opcode 0x0fc0 / 2 ^ 6) ≡ mode_of_destination opcode * 8 + reg_field opcode
destination_bits opcode =
    ap swap_parts fields
    ∙ swap_table (mode_of_destination opcode) (reg_field opcode) (omega arith) (omega arith)
  where
    fields : bit_and opcode 0x0fc0 / 2 ^ 6 ≡ reg_field opcode * 8 + mode_of_destination opcode
    fields = omega (arith, bit_field 6 6 opcode)

abbrev pub dreg_operand : ℕ → Operand
dreg_operand n = record { op_type = op_dreg; op_length = 4; op_value = n }

abbrev pub displacement_operand : ℕ → Operand
displacement_operand n = record { op_type = op_areg_offset; op_length = 4; op_value = n }

abbrev pub memory_operand : ℕ → ℕ → Operand
memory_operand length addr = record { op_type = op_mem; op_length = length; op_value = addr }

abbrev pub immediate_operand : ℕ → Operand
immediate_operand v = record { op_type = op_imm; op_length = 4; op_value = v }

-- The effective addresses that `extract_operand` knows.
abbrev pub is_supported : ℕ → Bool
is_supported e =
    if e / 8 == 0
    then true
    else if e / 8 == 1
    then true
    else if e / 8 == 5
    then true
    else if e == 0x38
    then true
    else if e == 0x39
    then true
    else e == 0x3c

module _ (m : Memory) (p : ℕ) (op : Operand) where
  -- What the source extracts: data register, address register, address register with displacement, whose
  -- displacement is left to the handler, the two absolute addresses and the long immediate value.
  -- For any other mode the result is -1, and the operand and the position stay.
  abbrev pub described : ℕ → ℤ × Operand × ℕ
  described e =
      if e / 8 == 0
      then (pos 0, dreg_operand (e % 8), p)
      else if e / 8 == 1
      then (pos 0, record { op_type = op_areg; op_length = 4; op_value = e % 8 }, p)
      else if e / 8 == 5
      then (pos 0, displacement_operand (e % 8), p)
      else if e == 0x38
      then (pos 2, memory_operand 2 (read_word m p), p + 2)
      else if e == 0x39
      then (pos 4, memory_operand 4 (read_dword m p), p + 4)
      else if e == 0x3c
      then (pos 4, immediate_operand (read_dword m p), p + 4)
      else (minus_one, op, p)

  -- `extract_operand` by the number in the field of the effective address.
  pub extract_operand_lem : (e : ℕ) → e < 64 → extract_operand e m p op ≡ described e
  extract_operand_lem e h =
      unfold extract_operand tabulate in
      tabulate_ext 64 (λ e. extract_operand e m p op) described e refl h

  pub described_refused : (e : ℕ) → is_supported e ≡ false → described e ≡ (minus_one, op, p)
  described_refused e h = ground arith

  pub described-dreg : (e : ℕ) → e < 8 → described e ≡ (pos 0, dreg_operand e, p)
  described-dreg e h =
      rw (eq→== (e / 8) 0 (omega arith)) (ap (λ (n : ℕ). (pos 0, dreg_operand n, p)) (omega arith))

  -- What a handler extracts for each kind of operand.
  module _ (opcode : ℕ) where
    pub extracted : extract_operand (bit_and opcode 0x003f) m p op ≡ described (ea_field opcode)
    extracted = rw ea_bits (extract_operand_lem (ea_field opcode) (omega arith))

    pub extracted_dreg :
        ea_field opcode < 8
        → extract_operand (bit_and opcode 0x003f) m p op
          ≡ (pos 0, dreg_operand (ea_field opcode), p)
    extracted_dreg h = extracted ∙ described-dreg (ea_field opcode) h
