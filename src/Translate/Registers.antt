-- ===== src/Translate/Registers.antt =====
-- The registers that the handlers use, and the table of registers of codegen.c.
use mathlib.Core.Path.{subst}
use vadm.Base.{ℕ, ◌+◌, ◌<◌, ◌≡◌, refl, get_or, [], ◌∷◌, u32}
use vadm.X86.{bits32, mov_imm, load, save}
use vadm.X86.Listing.{Generates}
use vadm.Translate.Encode.{
  x86_encode_move_mem_to_areg, x86_encode_move_mem_to_dreg, x86_encode_move_imm_to_areg,
  x86_encode_move_imm_to_dreg, x86_encode_move_dreg_to_mem,
}
use vadm.Base.Tables.{tabulate, tabulate_ext}
use vadm.Codegen.Register.{x86_reg_for_m68k_reg}
use vadm.Codegen.Encoding.{hardware}
use vadm.Translate.Listing.{dreg, areg, load_dreg, save_dreg, imm_dreg, load_areg, imm_areg}

-- The table names the register that stands for a data register, and that for an address register.
dreg_table : (n : ℕ) → n < 8 → dreg n ≡ hardware (get_or x86_reg_for_m68k_reg n 0)
unfolding tabulate
dreg_table n small =
    tabulate_ext 8 dreg (λ n. hardware (get_or x86_reg_for_m68k_reg n 0)) n refl small

areg_table : (n : ℕ) → n < 8 → areg n ≡ hardware (get_or x86_reg_for_m68k_reg (n + 8) 0)
unfolding tabulate
areg_table n small =
    tabulate_ext 8 areg (λ n. hardware (get_or x86_reg_for_m68k_reg (n + 8) 0)) n refl small

-- The register that the table of codegen.c has for the number of a 680x0 register.
abbrev pub x86_reg : ℕ → ℕ
x86_reg reg = hardware (get_or x86_reg_for_m68k_reg reg 0)

-- The moves that translate.c encodes between the memory or an immediate value and the register of Dn or
-- An, n below 8, use the x86 register that the table of codegen.c, by which the thunks save registers
-- and pass arguments, has for Dn or An. Each encoding decodes to the one move, of 32 bits.
pub x86_encode-x86_reg_for_m68k_reg :
    (v n : ℕ)
    → n < 8
    → Generates (x86_encode_move_mem_to_dreg v n) (load (x86_reg n) (u32 v) ∷ []) 8
      × Generates (x86_encode_move_dreg_to_mem n v) (save (x86_reg n) (u32 v) ∷ []) 8
      × Generates (x86_encode_move_imm_to_dreg v n) (mov_imm bits32 (x86_reg n) (u32 v) ∷ []) 6
      × Generates (x86_encode_move_mem_to_areg v n) (load (x86_reg (n + 8)) (u32 v) ∷ []) 7
      × Generates
          (x86_encode_move_imm_to_areg v n)
          (mov_imm bits32 (x86_reg (n + 8)) (u32 v) ∷ [])
          5
x86_encode-x86_reg_for_m68k_reg v n small = (
  subst (λ r. Generates (x86_encode_move_mem_to_dreg v n) (load r (u32 v) ∷ []) 8)
      (dreg_table n small) (load_dreg v n small),
  subst (λ r. Generates (x86_encode_move_dreg_to_mem n v) (save r (u32 v) ∷ []) 8)
      (dreg_table n small) (save_dreg v n small),
  subst (λ r. Generates (x86_encode_move_imm_to_dreg v n) (mov_imm bits32 r (u32 v) ∷ []) 6)
      (dreg_table n small) (imm_dreg v n small),
  subst (λ r. Generates (x86_encode_move_mem_to_areg v n) (load r (u32 v) ∷ []) 7)
      (areg_table n small) (load_areg v n small),
  subst (λ r. Generates (x86_encode_move_imm_to_areg v n) (mov_imm bits32 r (u32 v) ∷ []) 5)
      (areg_table n small) (imm_areg v n small),
)
