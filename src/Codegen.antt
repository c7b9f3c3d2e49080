-- ===== src/Codegen.antt =====
-- codegen.c and codegen.h: the routines that generate x86-64 code at a position in memory. Each
-- takes the position, with the memory that it points into, and returns the position behind the
-- code. `uint8_t` and pointer arguments are numbers; a register has the number of the enumerations
-- of codegen.h, R8D..R15D = 0..7 and EAX..EDI = 8..15.
pub mod Opcode
pub mod Register
pub mod Encoding
pub mod Stub
pub mod Preserved
pub mod Calls
pub mod Transparent
pub mod Sample
mod Tests
use vadm.Base.{
  ℕ, zero, suc, ◌+◌, ◌-◌, ◌*◌, ◌%◌, Bool, true, false, List, [], ◌∷◌, bit_or, ltb, ◌==◌,
  if◌then◌else◌, get_or, length, u32,
}
use vadm.Base.Bytes.{Out, write_byte, write_dword, write_qword}
use Register.{amigaos_regs_to_preserve, x86_reg_for_m68k_reg}

-- The values of the parameter `mode`.
abbrev pub mode_32 : ℕ
mode_32 = 0

abbrev pub mode_64 : ℕ
mode_64 = 1

-- `if (prefix != 0) WRITE_BYTE(p_pos, prefix)`.
abbrev write_prefix : ℕ → Out → Out
write_prefix prefix p_pos = if prefix == 0 then p_pos else write_byte prefix p_pos

pub emit_move_reg_to_reg : Out → ℕ → ℕ → ℕ → Out
emit_move_reg_to_reg p_pos src dst mode =
    let prefix₀ : ℕ = if mode == mode_64 then bit_or 0 Opcode.rexw else 0 in
    let prefix₁ : ℕ = if ltb src 8 then bit_or prefix₀ Opcode.rexr else prefix₀ in
    let src' : ℕ = if ltb src 8 then src else src - 8 in
    let prefix₂ : ℕ = if ltb dst 8 then bit_or prefix₁ Opcode.rexb else prefix₁ in
    let dst' : ℕ = if ltb dst 8 then dst else dst - 8 in
    let p_pos₁ : Out = write_byte Opcode.mov_reg_reg (write_prefix prefix₂ p_pos) in
    write_byte (bit_or (bit_or 0xc0 (src' * 8)) dst') p_pos₁

pub emit_move_imm_to_reg : Out → ℕ → ℕ → ℕ → Out
emit_move_imm_to_reg p_pos value reg mode =
    let prefix₀ : ℕ = if mode == mode_64 then bit_or 0 Opcode.rexw else 0 in
    let prefix₁ : ℕ = if ltb reg 8 then bit_or prefix₀ Opcode.rexr else prefix₀ in
    let reg' : ℕ = if ltb reg 8 then reg else reg - 8 in
    let p_pos₁ : Out = write_byte (Opcode.mov_imm_reg + reg') (write_prefix prefix₁ p_pos) in
    if mode == mode_64 then write_qword value p_pos₁ else write_dword (u32 value) p_pos₁

pub emit_push_reg : Out → ℕ → Out
emit_push_reg p_pos reg =
    let prefix : ℕ = if ltb reg 8 then Opcode.rexb else 0 in
    let reg' : ℕ = if ltb reg 8 then reg else reg - 8 in
    write_byte (Opcode.push_reg + reg') (write_prefix prefix p_pos)

pub emit_pop_reg : Out → ℕ → Out
emit_pop_reg p_pos reg =
    let prefix : ℕ = if ltb reg 8 then Opcode.rexb else 0 in
    let reg' : ℕ = if ltb reg 8 then reg else reg - 8 in
    write_byte (Opcode.pop_reg + reg') (write_prefix prefix p_pos)

-- `p_func` is the address of the function that is called.
pub emit_abs_call_to_func : Out → ℕ → Out
emit_abs_call_to_func p_pos p_func =
    let p₁ : Out = emit_push_reg p_pos Register.rbp in
    let p₂ : Out = emit_move_reg_to_reg p₁ Register.rsp Register.rbp mode_64 in
    let p₃ : Out =
      write_byte 0xf0 (write_byte 0xe4 (write_byte Opcode.and_imm8 (write_byte Opcode.rexw p₂))) in
    let p₄ : Out = emit_move_imm_to_reg p₃ p_func Register.rax mode_64 in
    let p₅ : Out = write_byte 0xd0 (write_byte Opcode.call_abs64 p₄) in
    let p₆ : Out = emit_move_reg_to_reg p₅ Register.rbp Register.rsp mode_64 in
    emit_pop_reg p₆ Register.rbp

-- `for (i = 0; i <= n - 1; i++)`, with the rounds that are left.
save_loop : ℕ → ℕ → Out → Out
save_loop zero i p_pos = p_pos
save_loop (suc left) i p_pos =
    save_loop left (i + 1)
      (emit_push_reg p_pos (get_or x86_reg_for_m68k_reg (get_or amigaos_regs_to_preserve i 0) 0))

pub emit_save_amigaos_registers : Out → Out
unfolding save_loop
emit_save_amigaos_registers p_pos = save_loop (length amigaos_regs_to_preserve) 0 p_pos

-- `for (i = n - 1; i >= 0; i--)`, where `i + 1` rounds are left.
restore_loop : ℕ → Out → Out
restore_loop zero p_pos = p_pos
restore_loop (suc i) p_pos =
    restore_loop i
      (emit_pop_reg p_pos (get_or x86_reg_for_m68k_reg (get_or amigaos_regs_to_preserve i 0) 0))

pub emit_restore_amigaos_registers : Out → Out
unfolding restore_loop
emit_restore_amigaos_registers p_pos = restore_loop (length amigaos_regs_to_preserve) p_pos

pub emit_save_program_state : Out → Out
emit_save_program_state p_pos =
    let p₁ : Out = emit_save_amigaos_registers p_pos in
    let p₂ : Out = emit_push_reg p₁ (get_or x86_reg_for_m68k_reg Register.d0 0) in
    let p₃ : Out = emit_push_reg p₂ (get_or x86_reg_for_m68k_reg Register.d1 0) in
    let p₄ : Out = emit_push_reg p₃ (get_or x86_reg_for_m68k_reg Register.a0 0) in
    let p₅ : Out = emit_push_reg p₄ (get_or x86_reg_for_m68k_reg Register.a1 0) in
    write_byte Opcode.pushfq p₅

pub emit_restore_program_state : Out → Out
emit_restore_program_state p_pos =
    let p₁ : Out = write_byte Opcode.popfq p_pos in
    let p₂ : Out = emit_pop_reg p₁ (get_or x86_reg_for_m68k_reg Register.a1 0) in
    let p₃ : Out = emit_pop_reg p₂ (get_or x86_reg_for_m68k_reg Register.a0 0) in
    let p₄ : Out = emit_pop_reg p₃ (get_or x86_reg_for_m68k_reg Register.d1 0) in
    let p₅ : Out = emit_pop_reg p₄ (get_or x86_reg_for_m68k_reg Register.d0 0) in
    emit_restore_amigaos_registers p₅
