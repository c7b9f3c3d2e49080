-- ===== src/Codegen/Stub.antt =====
-- The longer pieces of codegen.c: the call of a C function, and the saving and restoring of registers.
use mathlib.Core.List.{reverse}
use vadm.Base.{ℕ, map, refl, List, [], ◌∷◌, ◌++◌, arith, u64}
use vadm.Base.Bytes.{write_byte, write_bytes}
use vadm.X86.{
  Instruction, bits64, and_imm, decode, push, pop, pushfq, popfq, mov_reg, mov_imm, alu_imm8,
  call_reg,
}
use vadm.X86.Listing.{Generates, ◌▷◌}
use vadm.Codegen.{
  emit_abs_call_to_func, emit_save_amigaos_registers, emit_restore_amigaos_registers,
  emit_save_program_state, emit_restore_program_state,
}
use vadm.Codegen.Encoding.{
  emit_push_reg-Generates, emit_pop_reg-Generates, emit_move_reg_to_reg-Generates,
  emit_move_imm_to_reg-Generates,
}

-- Hardware numbers.
abbrev pub call_listing : ℕ → List Instruction
call_listing p_func =
    push 5
    ∷ mov_reg bits64 4 5
    ∷ alu_imm8 and_imm bits64 4 0xf0
    ∷ mov_imm bits64 0 (u64 p_func)
    ∷ call_reg 0
    ∷ mov_reg bits64 5 4
    ∷ pop 5
    ∷ []

and_rsp-Generates :
    Generates
      (λ o. write_byte 0xf0 (write_byte 0xe4 (write_byte 0x83 (write_byte 0x48 o))))
      (alu_imm8 and_imm bits64 4 0xf0 ∷ [])
      4
unfolding write_byte write_bytes decode
and_rsp-Generates = record {
  code = 0x48 ∷ 0x83 ∷ 0xe4 ∷ 0xf0 ∷ [];
  writes = λ o. refl;
  reads = λ rest. (rest, refl, refl);
  sized = refl;
}

call_rax-Generates : Generates (λ o. write_byte 0xd0 (write_byte 0xff o)) (call_reg 0 ∷ []) 2
unfolding write_byte write_bytes decode
call_rax-Generates = record {
  code = 0xff ∷ 0xd0 ∷ [];
  writes = λ o. refl;
  reads = λ rest. (rest, refl, refl);
  sized = refl;
}

-- `emit_abs_call_to_func` writes 24 bytes: RBP is pushed and then holds RSP, RSP is aligned, the
-- function's 64-bit address is called through RAX, and RSP and RBP are put back.
pub emit_abs_call_to_func-Generates :
    (p_func : ℕ) → Generates (λ o. emit_abs_call_to_func o p_func) (call_listing p_func) 24
unfolding emit_abs_call_to_func
emit_abs_call_to_func-Generates p_func =
    emit_push_reg-Generates 13 (omega arith)
    ▷ emit_move_reg_to_reg-Generates 1 12 13 (omega arith) (omega arith) (omega arith)
    ▷ and_rsp-Generates
    ▷ emit_move_imm_to_reg-Generates 1 p_func 8 (omega arith) (omega arith)
    ▷ call_rax-Generates
    ▷ emit_move_reg_to_reg-Generates 1 13 12 (omega arith) (omega arith) (omega arith)
    ▷ emit_pop_reg-Generates 13 (omega arith)

-- R10, R11, RDX, RDI and RSI hold D2, D3, A2, A4 and A6.
abbrev pub saved_registers : List ℕ
saved_registers = 10 ∷ 11 ∷ 2 ∷ 7 ∷ 6 ∷ []

-- The same, and R8, R9, RAX and RCX, which hold D0, D1, A0 and A1.
abbrev pub state_registers : List ℕ
state_registers = saved_registers ++ 8 ∷ 9 ∷ 0 ∷ 1 ∷ []

pub emit_save_amigaos_registers-Generates :
    Generates emit_save_amigaos_registers (map push saved_registers) 7
unfolding emit_save_amigaos_registers
emit_save_amigaos_registers-Generates =
    emit_push_reg-Generates 2 (omega arith)
    ▷ emit_push_reg-Generates 3 (omega arith)
    ▷ emit_push_reg-Generates 10 (omega arith)
    ▷ emit_push_reg-Generates 15 (omega arith)
    ▷ emit_push_reg-Generates 14 (omega arith)

pub emit_restore_amigaos_registers-Generates :
    Generates emit_restore_amigaos_registers (map pop (reverse saved_registers)) 7
unfolding emit_restore_amigaos_registers
emit_restore_amigaos_registers-Generates =
    emit_pop_reg-Generates 14 (omega arith)
    ▷ emit_pop_reg-Generates 15 (omega arith)
    ▷ emit_pop_reg-Generates 10 (omega arith)
    ▷ emit_pop_reg-Generates 3 (omega arith)
    ▷ emit_pop_reg-Generates 2 (omega arith)

pushfq-Generates : Generates (write_byte 0x9c) (pushfq ∷ []) 1
unfolding write_byte write_bytes decode
pushfq-Generates = record {
  code = 0x9c ∷ [];
  writes = λ o. refl;
  reads = λ rest. (rest, refl, refl);
  sized = refl;
}

popfq-Generates : Generates (write_byte 0x9d) (popfq ∷ []) 1
unfolding write_byte write_bytes decode
popfq-Generates = record {
  code = 0x9d ∷ [];
  writes = λ o. refl;
  reads = λ rest. (rest, refl, refl);
  sized = refl;
}

-- `emit_save_program_state` writes 14 bytes: PUSH of the registers that hold D2, D3, A2, A4, A6, D0, D1,
-- A0 and A1, in this order, and PUSHFQ.
pub emit_save_program_state-Generates :
    Generates emit_save_program_state (map push state_registers ++ pushfq ∷ []) 14
unfolding emit_save_program_state
emit_save_program_state-Generates =
    emit_save_amigaos_registers-Generates
    ▷ emit_push_reg-Generates 0 (omega arith)
    ▷ emit_push_reg-Generates 1 (omega arith)
    ▷ emit_push_reg-Generates 8 (omega arith)
    ▷ emit_push_reg-Generates 9 (omega arith)
    ▷ pushfq-Generates

-- `emit_restore_program_state` writes 14 bytes: POPFQ, and POP of the same registers in the reverse order
-- of the saving.
pub emit_restore_program_state-Generates :
    Generates emit_restore_program_state (popfq ∷ map pop (reverse state_registers)) 14
unfolding emit_restore_program_state
emit_restore_program_state-Generates =
    popfq-Generates
    ▷ emit_pop_reg-Generates 9 (omega arith)
    ▷ emit_pop_reg-Generates 8 (omega arith)
    ▷ emit_pop_reg-Generates 1 (omega arith)
    ▷ emit_pop_reg-Generates 0 (omega arith)
    ▷ emit_restore_amigaos_registers-Generates
