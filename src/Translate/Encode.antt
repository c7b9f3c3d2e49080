-- ===== src/Translate/Encode.antt =====
-- translate.c: the routines x86_encode_*, which write one x86 instruction. The arguments follow
-- the source; the last is the position written at.
use vadm.Base.{ℕ, ◌+◌, ◌*◌, ◌==◌, bit_or, if◌then◌else◌}
use vadm.Base.Bytes.{Out, write_byte, write_dword}

-- `switch (reg)`: A4 and A7 are swapped, so that A7 is ESP.
abbrev swap_areg : ℕ → ℕ
swap_areg reg = if reg == 4 then 7 else if reg == 7 then 4 else reg

unfoldable pub x86_encode_move_mem_to_areg : ℕ → ℕ → Out → Out
x86_encode_move_mem_to_areg addr reg o =
    let o₁ : Out = write_byte 0x8b o in
    let o₂ : Out = write_byte (bit_or 0x04 (swap_areg reg * 8)) o₁ in
    let o₃ : Out = write_byte 0x25 o₂ in write_dword addr o₃

unfoldable pub x86_encode_move_mem_to_dreg : ℕ → ℕ → Out → Out
x86_encode_move_mem_to_dreg addr reg o =
    let o₁ : Out = write_byte 0x44 o in
    let o₂ : Out = write_byte 0x8b o₁ in
    let o₃ : Out = write_byte (bit_or 0x04 (reg * 8)) o₂ in
    let o₄ : Out = write_byte 0x25 o₃ in write_dword addr o₄

unfoldable pub x86_encode_move_imm_to_areg : ℕ → ℕ → Out → Out
x86_encode_move_imm_to_areg value reg o =
    let o₁ : Out = write_byte (0xb8 + swap_areg reg) o in write_dword value o₁

unfoldable pub x86_encode_move_imm_to_dreg : ℕ → ℕ → Out → Out
x86_encode_move_imm_to_dreg value reg o =
    let o₁ : Out = write_byte 0x41 o in
    let o₂ : Out = write_byte (0xb8 + reg) o₁ in write_dword value o₂

unfoldable pub x86_encode_move_dreg_to_mem : ℕ → ℕ → Out → Out
x86_encode_move_dreg_to_mem reg addr o =
    let o₁ : Out = write_byte 0x44 o in
    let o₂ : Out = write_byte 0x89 o₁ in
    let o₃ : Out = write_byte (bit_or 0x04 (reg * 8)) o₂ in
    let o₄ : Out = write_byte 0x25 o₃ in write_dword addr o₄

unfoldable pub x86_encode_move_dreg_to_dreg : ℕ → ℕ → Out → Out
x86_encode_move_dreg_to_dreg src dst o =
    let o₁ : Out = write_byte 0x45 o in
    let o₂ : Out = write_byte 0x89 o₁ in write_byte (bit_or (bit_or 0xc0 (src * 8)) dst) o₂
