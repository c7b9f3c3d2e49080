-- ===== src/X86.antt =====
-- The part of the x86-64 instruction encoding that the program generates, as the manuals that
-- translate.c names describe it: the specification that the generated bytes are read by. It models
-- no code of the repository. Registers carry their hardware numbers, RAX = 0 to R15 = 15.
pub mod Listing
pub mod Machine
use vadm.Base.{
  ℕ, ◌+◌, ◌*◌, ◌/◌, ◌%◌, ◌^◌, Bool, true, false, ◌&&◌, Option, none, some, List, [], ◌∷◌, ◌==◌, ◌≡◌,
  if◌then◌else◌, arith, u8, u32, u64,
}

-- The operand size of an instruction on registers.
pub data Width : Type 0 where
  bits32 bits64 : Width

-- The operations of the group with an 8-bit immediate value.
pub data Alu : Type 0 where
  add_imm and_imm sub_imm : Alu

pub data Condition : Type 0 where
  equal not_equal : Condition

pub data Instruction : Type 0 where
  -- Source register, then destination register.
  mov_reg : Width → ℕ → ℕ → Instruction
  mov_imm : Width → ℕ → ℕ → Instruction
  -- Between a 32-bit register and a 32-bit absolute address.
  load : ℕ → ℕ → Instruction
  save : ℕ → ℕ → Instruction
  push pop : ℕ → Instruction
  pushfq popfq nop ret int_3 : Instruction
  alu_imm8 : Alu → Width → ℕ → ℕ → Instruction
  alu_imm32 : Alu → Width → ℕ → ℕ → Instruction
  test_reg : Width → ℕ → ℕ → Instruction
  call_reg : ℕ → Instruction
  jump_if : Condition → ℕ → Instruction
  jump8 jump32 : ℕ → Instruction

-- The four flags of a REX prefix: operand size, and the high digits of REG, INDEX and R/M.
pub record Rex : Type 0 where
  pub w : ℕ
  pub r : ℕ
  pub b : ℕ

abbrev rex_of : ℕ → Rex
rex_of p = record { w = p / 8 % 2; r = p / 4 % 2; b = p % 2 }

abbrev no_rex : Rex
no_rex = record { w = 0; r = 0; b = 0 }

abbrev width_of : Rex → Width
width_of x = if x.w == 1 then bits64 else bits32

abbrev pub from_le32 : ℕ → ℕ → ℕ → ℕ → ℕ
from_le32 a b c d = a + b * 2 ^ 8 + c * 2 ^ 16 + d * 2 ^ 24

-- A 32-bit number, least significant byte first.
abbrev take32 : (ℕ → Instruction) → List ℕ → Option (Instruction × List ℕ)
take32 k (a ∷ b ∷ c ∷ d ∷ rest) = some (k (from_le32 a b c d), rest)
take32 k _ = none

abbrev take64 : (ℕ → Instruction) → List ℕ → Option (Instruction × List ℕ)
take64 k (a ∷ b ∷ c ∷ d ∷ e ∷ f ∷ g ∷ h ∷ rest) =
    some (k (from_le32 a b c d + from_le32 e f g h * 2 ^ 32), rest)
take64 k _ = none

abbrev take8 : (ℕ → Instruction) → List ℕ → Option (Instruction × List ℕ)
take8 k (a ∷ rest) = some (k a, rest)
take8 k _ = none

abbrev alu_of : ℕ → Option Alu
alu_of ext =
    if ext == 0
    then some add_imm
    else if ext == 4
    then some and_imm
    else if ext == 5
    then some sub_imm
    else none

abbrev with_alu : Option Alu → (Alu → Option (Instruction × List ℕ)) → Option (Instruction × List ℕ)
with_alu none k = none
with_alu (some a) k = k a

-- A MOD-REG-R/M byte with an absolute 32-bit address: MOD = 00, R/M = 100 and the SIB byte 25.
abbrev absolute : (ℕ → Instruction) → ℕ → List ℕ → Option (Instruction × List ℕ)
absolute k modrm (sib ∷ rest) =
    if (modrm / 64 == 0) && (modrm % 8 == 4) && (sib == 0x25) then take32 k rest else none
absolute k modrm [] = none

-- The instructions whose opcode is followed by a MOD-REG-R/M byte.
decode_modrm : Rex → ℕ → ℕ → List ℕ → Option (Instruction × List ℕ)
decode_modrm x op modrm rest =
    let reg = modrm / 8 % 8 + x.r * 8 in
    let rm = modrm % 8 + x.b * 8 in
    let is_reg = modrm / 64 == 3 in
    if op == 0x89
    then (if is_reg
        then some (mov_reg (width_of x) reg rm, rest)
        else absolute (save reg) modrm rest)
    else if op == 0x8b
    then absolute (load reg) modrm rest
    else if op == 0x85
    then (if is_reg then some (test_reg (width_of x) reg rm, rest) else none)
    else if op == 0xff
    then (if is_reg && (modrm / 8 % 8 == 2) then some (call_reg rm, rest) else none)
    else if op == 0x83
    then (if is_reg
        then with_alu (alu_of (modrm / 8 % 8)) (λ a. take8 (alu_imm8 a (width_of x) rm) rest)
        else none)
    else if op == 0x81
    then (if is_reg
        then with_alu (alu_of (modrm / 8 % 8)) (λ a. take32 (alu_imm32 a (width_of x) rm) rest)
        else none)
    else none

decode_opcode : Rex → List ℕ → Option (Instruction × List ℕ)
unfolding decode_modrm
decode_opcode x [] = none
decode_opcode x (op ∷ rest) =
    if op / 8 == 10
    then some (push (op % 8 + x.b * 8), rest)
    else if op / 8 == 11
    then some (pop (op % 8 + x.b * 8), rest)
    else if op / 8 == 23
    then (if x.w == 1
        then take64 (mov_imm bits64 (op % 8 + x.b * 8)) rest
        else take32 (mov_imm bits32 (op % 8 + x.b * 8)) rest)
    else if op == 0x90
    then some (nop, rest)
    else if op == 0x9c
    then some (pushfq, rest)
    else if op == 0x9d
    then some (popfq, rest)
    else if op == 0xc3
    then some (ret, rest)
    else if op == 0xcc
    then some (int_3, rest)
    else if op == 0xeb
    then take8 jump8 rest
    else if op == 0xe9
    then take32 jump32 rest
    else elim rest [
      | [] ↦ none
      | b ∷ more ↦
          if op == 0x0f
          then (if b == 0x84
              then take32 (jump_if equal) more
              else if b == 0x85
              then take32 (jump_if not_equal) more
              else none)
          else decode_modrm x op b more
    ]

-- One instruction at the head of a list of bytes, and the bytes behind it.
unfoldable pub decode : List ℕ → Option (Instruction × List ℕ)
unfolding decode_opcode
decode [] = none
decode (p ∷ rest) =
    if p / 16 == 4 then decode_opcode (rex_of p) rest else decode_opcode no_rex (p ∷ rest)

-- The number that the bytes of `v` stand for.
abbrev pub read_back32 : ℕ → ℕ
read_back32 v = from_le32 (u8 v) (u8 (v / 2 ^ 8)) (u8 (v / 2 ^ 16)) (u8 (v / 2 ^ 24))

abbrev pub read_back64 : ℕ → ℕ
read_back64 v = read_back32 v + read_back32 (v / 2 ^ 32) * 2 ^ 32

pub read_back32_lem : (v : ℕ) → read_back32 v ≡ u32 v
read_back32_lem v = omega arith

pub read_back64_lem : (v : ℕ) → read_back64 v ≡ u64 v
read_back64_lem v = omega arith
