-- ===== src/Translate/Listing.antt =====
-- What the routines x86_encode_* and the handlers write, as instructions.
use vadm.Base.{
  ℕ, ◌+◌, ◌*◌, ◌<◌, refl, ap, some, [], ◌∷◌, ◌++◌, arith, ◌==◌, if◌then◌else◌, u8, u32, bit_or,
}
use vadm.Base.Bytes.{write_byte, write_dword, write_bytes, le32}
use vadm.Base.Tables.{tabulate, tabulate_ext}
use vadm.X86.{
  bits32, sub_imm, add_imm, decode, push, pop, mov_reg, mov_imm, load, save, alu_imm8, alu_imm32,
  test_reg, call_reg, ret, read_back32, read_back32_lem,
}
use vadm.X86.Listing.{Generates, by_table}
use vadm.Translate.Encode.{
  x86_encode_move_mem_to_areg, x86_encode_move_mem_to_dreg, x86_encode_move_imm_to_areg,
  x86_encode_move_imm_to_dreg, x86_encode_move_dreg_to_mem, x86_encode_move_dreg_to_dreg,
}
use vadm.Translate.Handlers.{write_sub, write_test, write_library_call}

-- The hardware number of the register that holds a data register: R8 to R15 for D0 to D7.
abbrev pub dreg : ℕ → ℕ
dreg n = n + 8

-- The hardware number of the register that holds an address register, A4 and A7 swapped.
abbrev pub areg : ℕ → ℕ
areg n = if n == 4 then 7 else if n == 7 then 4 else n

module _ (v reg : ℕ) (in_range : reg < 8) where
  pub load_areg : Generates (x86_encode_move_mem_to_areg v reg) (load (areg reg) (u32 v) ∷ []) 7
  unfolding x86_encode_move_mem_to_areg write_byte write_dword write_bytes decode tabulate
  load_areg =
      by_table 8 reg (λ r. 0x8b ∷ u8 (bit_or 0x04 (areg r * 8)) ∷ 0x25 ∷ le32 v)
        (λ r. load (areg r) (read_back32 v)) in_range (ap (load (areg reg)) (read_back32_lem v))
        refl (λ o. refl) (λ rest. refl)

  pub load_dreg : Generates (x86_encode_move_mem_to_dreg v reg) (load (dreg reg) (u32 v) ∷ []) 8
  unfolding x86_encode_move_mem_to_dreg write_byte write_dword write_bytes decode tabulate
  load_dreg =
      by_table 8 reg (λ r. 0x44 ∷ 0x8b ∷ u8 (bit_or 0x04 (r * 8)) ∷ 0x25 ∷ le32 v)
        (λ r. load (dreg r) (read_back32 v)) in_range (ap (load (dreg reg)) (read_back32_lem v))
        refl (λ o. refl) (λ rest. refl)

  pub save_dreg : Generates (x86_encode_move_dreg_to_mem reg v) (save (dreg reg) (u32 v) ∷ []) 8
  unfolding x86_encode_move_dreg_to_mem write_byte write_dword write_bytes decode tabulate
  save_dreg =
      by_table 8 reg (λ r. 0x44 ∷ 0x89 ∷ u8 (bit_or 0x04 (r * 8)) ∷ 0x25 ∷ le32 v)
        (λ r. save (dreg r) (read_back32 v)) in_range (ap (save (dreg reg)) (read_back32_lem v))
        refl (λ o. refl) (λ rest. refl)

  pub imm_areg :
      Generates (x86_encode_move_imm_to_areg v reg) (mov_imm bits32 (areg reg) (u32 v) ∷ []) 5
  unfolding x86_encode_move_imm_to_areg write_byte write_dword write_bytes decode tabulate
  imm_areg =
      by_table 8 reg (λ r. u8 (0xb8 + areg r) ∷ le32 v)
        (λ r. mov_imm bits32 (areg r) (read_back32 v)) in_range
        (ap (mov_imm bits32 (areg reg)) (read_back32_lem v)) refl (λ o. refl) (λ rest. refl)

  pub imm_dreg :
      Generates (x86_encode_move_imm_to_dreg v reg) (mov_imm bits32 (dreg reg) (u32 v) ∷ []) 6
  unfolding x86_encode_move_imm_to_dreg write_byte write_dword write_bytes decode tabulate
  imm_dreg =
      by_table 8 reg (λ r. 0x41 ∷ u8 (0xb8 + r) ∷ le32 v)
        (λ r. mov_imm bits32 (dreg r) (read_back32 v)) in_range
        (ap (mov_imm bits32 (dreg reg)) (read_back32_lem v)) refl (λ o. refl) (λ rest. refl)

  pub sub_dreg : v < 8 → Generates (write_sub reg v) (alu_imm8 sub_imm bits32 (dreg reg) v ∷ []) 4
  unfolding write_byte write_bytes decode tabulate
  sub_dreg small =
      by_table 8 reg (λ r. 0x41 ∷ 0x83 ∷ u8 (0xe8 + r) ∷ u8 v ∷ [])
        (λ r. alu_imm8 sub_imm bits32 (dreg r) (u8 v)) in_range
        (ap (alu_imm8 sub_imm bits32 (dreg reg)) (omega arith)) refl (λ o. refl) (λ rest. refl)

pub test_dreg :
    (reg : ℕ) → reg < 8 → Generates (write_test reg) (test_reg bits32 (dreg reg) (dreg reg) ∷ []) 3
unfolding write_byte write_bytes decode tabulate
test_dreg reg in_range =
    by_table 8 reg (λ r. 0x45 ∷ 0x85 ∷ u8 (bit_or (bit_or 0xc0 (r * 8)) r) ∷ [])
      (λ r. test_reg bits32 (dreg r) (dreg r)) in_range refl refl (λ o. refl) (λ rest. refl)

pub move_dreg :
    (src dst : ℕ)
    → src < 8
    → dst < 8
    → Generates (x86_encode_move_dreg_to_dreg src dst) (mov_reg bits32 (dreg src) (dreg dst) ∷ []) 3
unfolding x86_encode_move_dreg_to_dreg write_byte write_bytes decode tabulate
move_dreg src dst hs hd =
    by_table 8 src (λ s. 0x45 ∷ 0x89 ∷ u8 (bit_or (bit_or 0xc0 (s * 8)) dst) ∷ [])
      (λ s. mov_reg bits32 (dreg s) (dreg dst)) hs refl refl (λ o. refl)
      (λ rest.
        tabulate_ext 8
          (λ d. tabulate 8 (λ s. decode (0x45 ∷ 0x89 ∷ u8 (bit_or (bit_or 0xc0 (s * 8)) d) ∷ rest)))
          (λ d. tabulate 8 (λ s. some (mov_reg bits32 (dreg s) (dreg d), rest))) dst refl hd)

pub library_call :
    (offset : ℕ)
    → Generates
        (write_library_call offset)
        (push 6 ∷ alu_imm32 add_imm bits32 6 (u32 offset) ∷ call_reg 6 ∷ pop 6 ∷ [])
        10
unfolding write_byte write_dword write_bytes decode
library_call offset = record {
  code = 0x56 ∷ 0x81 ∷ 0xc6 ∷ le32 offset ++ 0xff ∷ 0xd6 ∷ 0x5e ∷ [];
  writes = λ o. refl;
  reads = λ rest. rw (← read_back32_lem offset) (_, refl, (_, refl, (_, refl, (_, refl, refl))));
  sized = refl;
}

pub return_code : Generates (write_byte 0xc3) (ret ∷ []) 1
unfolding write_byte write_bytes decode
return_code = record {
  code = 0xc3 ∷ [];
  writes = λ o. refl;
  reads = λ rest. (rest, refl, refl);
  sized = refl;
}
