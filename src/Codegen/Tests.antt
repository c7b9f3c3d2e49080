-- ===== src/Codegen/Tests.antt =====
-- The routines of codegen.c at concrete arguments: the theorems applied, and some bytes.
use vadm.Base.{◌≡◌, refl, arith, [], ◌∷◌}
use vadm.Base.Bytes.{Out, write_byte, read_bytes}
use vadm.X86.{bits32, mov_imm}
use vadm.X86.Listing.{Generates}
use vadm.Codegen.{emit_push_reg, emit_move_imm_to_reg, emit_save_amigaos_registers}
use vadm.Codegen.Encoding.{emit_move_imm_to_reg-Generates}

abbrev start : Out
start = record { mem = λ q. 0; pos = 0x7000_0000 }

emit_move_imm_to_reg-Generates_example :
    Generates (λ o. emit_move_imm_to_reg o 0x1234 1 0) (mov_imm bits32 1 0x1234 ∷ []) 6
emit_move_imm_to_reg-Generates_example =
    emit_move_imm_to_reg-Generates 0 0x1234 1 (omega arith) (omega arith)

save_amigaos_registers_bytes :
    read_bytes (emit_save_amigaos_registers start).mem 0x7000_0000 7
    ≡ 0x41 ∷ 0x52 ∷ 0x41 ∷ 0x53 ∷ 0x52 ∷ 0x57 ∷ 0x56 ∷ []
unfolding emit_save_amigaos_registers emit_push_reg write_byte read_bytes
save_amigaos_registers_bytes = refl
