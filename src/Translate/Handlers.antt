-- ===== src/Translate/Handlers.antt =====
-- translate.c: the opcode handlers m68k_*. A handler returns the number of bytes it consumed or -1,
-- and the state. Its local operands are not initialised: `op` and `op'` are what their memory holds.
use vadm.Base.{
  ℕ, ◌+◌, ◌-◌, ◌*◌, ◌/◌, ◌^◌, ◌&&◌, Bool, not, Option, none, some, ◌==◌, bit_and, bit_or,
  if◌then◌else◌, ℤ, pos, minus_one, ◌+ℤ◌, u8, u32, u64, sign_extend,
}
use vadm.Base.Bytes.{Out, write_byte, write_dword}
use vadm.Base.Outcome.{Outcome, returns, ◌>>=◌}
use vadm.Translate.State.{Machine, State, emit, at_input}
use vadm.Translate.Operand.{
  Operand, op_dreg, op_mem, op_imm, op_areg_offset, read_word, read_dword, extract_operand,
}
use vadm.Translate.Encode.{
  x86_encode_move_mem_to_areg, x86_encode_move_mem_to_dreg, x86_encode_move_imm_to_areg,
  x86_encode_move_imm_to_dreg, x86_encode_move_dreg_to_mem, x86_encode_move_dreg_to_dreg,
}
use vadm.Translate.Setup.{setup_tu}

-- vadm.h
abbrev pub abs_exec_base : ℕ
abs_exec_base = 0x00300000

unfoldable pub m68k_rts : ℕ → State → ℤ × State
m68k_rts opcode s = (pos 0, emit (write_byte 0xc3) s)

unfoldable pub m68k_moveq : ℕ → State → ℤ × State
m68k_moveq opcode s =
    let value : ℕ = sign_extend 8 32 (bit_and opcode 0x00ff) in
    let reg : ℕ = bit_and opcode 0x0e00 / 2 ^ 9 in
    (pos 0, emit (x86_encode_move_imm_to_dreg value reg) s)

-- sub <register>, <value>
abbrev pub write_sub : ℕ → ℕ → Out → Out
write_sub reg value o =
    let o₁ : Out = write_byte 0x83 (write_byte 0x41 o) in
    write_byte value (write_byte (0xe8 + reg) o₁)

unfoldable pub m68k_subq_32 : Operand → ℕ → State → ℤ × State
m68k_subq_32 op opcode s =
    let mode_reg : ℕ = bit_and opcode 0x003f in
    let value : ℕ = bit_and opcode 0x0e00 / 2 ^ 9 in
    if not (bit_and opcode 0x00c0 == 0x0080)
    then (minus_one, s)
    else (let (nbytes_used, op', p) = extract_operand mode_reg s.memory s.inpos op in
        if not (op'.op_type == op_dreg)
        then (minus_one, at_input p s)
        else (nbytes_used, emit (write_sub op'.op_value value) (at_input p s)))

-- test <register>, <register>
abbrev pub write_test : ℕ → Out → Out
write_test reg o =
    let o₁ : Out = write_byte 0x85 (write_byte 0x45 o) in
    write_byte (bit_or (bit_or 0xc0 (reg * 8)) reg) o₁

unfoldable pub m68k_tst_32 : Operand → ℕ → State → ℤ × State
m68k_tst_32 op opcode s =
    let mode_reg : ℕ = bit_and opcode 0x003f in
    if not (bit_and opcode 0x00c0 == 0x0080)
    then (minus_one, s)
    else (let (nbytes_used, op', p) = extract_operand mode_reg s.memory s.inpos op in
        if not (op'.op_type == op_dreg)
        then (minus_one, at_input p s)
        else (nbytes_used, emit (write_test op'.op_value) (at_input p s)))

-- push rsi; add esi, <offset>; call rsi; pop rsi
abbrev pub write_library_call : ℕ → Out → Out
write_library_call offset o =
    let o₁ : Out = write_byte 0x56 o in
    let o₂ : Out = write_byte 0xc6 (write_byte 0x81 o₁) in
    let o₃ : Out = write_dword offset o₂ in
    let o₄ : Out = write_byte 0xd6 (write_byte 0xff o₃) in write_byte 0x5e o₄

unfoldable pub m68k_jsr : Operand → ℕ → State → ℤ × State
m68k_jsr op opcode s =
    let mode_reg : ℕ = bit_and opcode 0x003f in
    let (_, op', p) = extract_operand mode_reg s.memory s.inpos op in
    if not (op'.op_type == op_areg_offset)
    then (minus_one, at_input p s)
    else (let offset : ℕ = sign_extend 16 32 (read_word s.memory p) in
        let s' : State = at_input (p + 2) s in
        if op'.op_value == 6 then (pos 2, emit (write_library_call offset) s') else (minus_one, s'))

unfoldable pub m68k_movea : Operand → ℕ → State → ℤ × State
m68k_movea op opcode s =
    let mode_reg : ℕ = bit_and opcode 0x003f in
    let reg : ℕ = bit_and opcode 0x0e00 / 2 ^ 9 in
    if not (bit_and opcode 0x3000 == 0x2000)
    then (minus_one, s)
    else (let (nbytes_used, op', p) = extract_operand mode_reg s.memory s.inpos op in
        if op'.op_type == op_mem
        then (let addr : ℕ = if op'.op_value == 4 then abs_exec_base else op'.op_value in
            (nbytes_used, emit (x86_encode_move_mem_to_areg addr reg) (at_input p s)))
        else if op'.op_type == op_imm
        then (nbytes_used, emit (x86_encode_move_imm_to_areg op'.op_value reg) (at_input p s))
        else (minus_one, at_input p s))

-- The register numbers are cut off to `uint8_t` by the calls.
abbrev pub move_operands : Operand → Operand → ℤ → State → ℤ × State
move_operands srcop dstop nbytes_used s =
    if (srcop.op_type == op_mem) && (dstop.op_type == op_dreg)
    then (nbytes_used, emit (x86_encode_move_mem_to_dreg srcop.op_value (u8 dstop.op_value)) s)
    else if (srcop.op_type == op_imm) && (dstop.op_type == op_dreg)
    then (nbytes_used, emit (x86_encode_move_imm_to_dreg srcop.op_value (u8 dstop.op_value)) s)
    else if (srcop.op_type == op_dreg) && (dstop.op_type == op_mem)
    then (nbytes_used, emit (x86_encode_move_dreg_to_mem (u8 srcop.op_value) dstop.op_value) s)
    else if (srcop.op_type == op_dreg) && (dstop.op_type == op_dreg)
    then (
      nbytes_used,
      emit (x86_encode_move_dreg_to_dreg (u8 srcop.op_value) (u8 dstop.op_value)) s,
    )
    else (minus_one, s)

-- The mode and register parts of the destination, in the order of the source operand.
abbrev pub swap_parts : ℕ → ℕ
swap_parts dst = bit_or (bit_and dst 0x07 * 8) (bit_and dst 0x38 / 2 ^ 3)

unfoldable pub m68k_move : Operand → Operand → ℕ → State → ℤ × State
m68k_move src dst opcode s =
    let src_mode_reg : ℕ = bit_and opcode 0x003f in
    let dst_mode_reg : ℕ = swap_parts (bit_and opcode 0x0fc0 / 2 ^ 6) in
    if not (bit_and opcode 0x3000 == 0x2000)
    then (minus_one, s)
    else (let (nbytes_src, srcop, p) = extract_operand src_mode_reg s.memory s.inpos src in
        let (nbytes_dst, dstop, p') = extract_operand dst_mode_reg s.memory p dst in
        move_operands srcop dstop (pos 0 +ℤ nbytes_src +ℤ nbytes_dst) (at_input p' s))

-- The offset of a branch, as an `int32_t`, and the number of bytes that it takes.
unfoldable pub branch_offset : ℕ → State → ℕ × ℕ
branch_offset opcode s =
    if bit_and opcode 0x00ff == 0x0000
    then (sign_extend 16 32 (read_word s.memory s.inpos), 2)
    else if bit_and opcode 0x00ff == 0x00ff
    then (read_dword s.memory s.inpos, 4)
    else (sign_extend 8 32 (bit_and opcode 0x00ff), 0)

-- The second byte of JNE or JE.
unfoldable pub branch_opcode : ℕ → Option ℕ
branch_opcode opcode =
    if bit_and opcode 0x0f00 == 0x0600
    then some 0x85
    else if bit_and opcode 0x0f00 == 0x0700
    then some 0x84
    else none

-- `to - (pos + skip)`, a difference of pointers, as an `int32_t`.
abbrev pub relative : ℕ → ℕ → ℕ → ℕ
relative to p skip = u32 (u64 (to + 2 ^ 64 - u64 (p + skip)))

abbrev pub write_jumps : ℕ → ℕ → Out → Out
write_jumps taken not_taken o =
    let o₁ : Out = write_dword (relative taken o.pos 4) o in
    let o₂ : Out = write_byte 0xe9 o₁ in write_dword (relative not_taken o₁.pos 5) o₂

abbrev pub with_machine : Machine → State → State
with_machine m s = record { machine = m; inpos = s.inpos; outpos = s.outpos }

-- Both units are there, or the second is not.
abbrev pub both_set_up : ℕ → ℕ → State → Option ℕ × Machine → ℤ × State
both_set_up nbytes_used taken s (none, m) = (minus_one, with_machine m s)
both_set_up nbytes_used taken s (some not_taken, m) =
    (pos nbytes_used, emit (write_jumps taken not_taken) (with_machine m s))

module _ (malloc : ℕ → Bool) (translate_tu_addr : ℕ) where
  abbrev pub taken_set_up : ℕ → State → Option ℕ × Machine → Outcome (ℤ × State)
  taken_set_up nbytes_used s (none, m) = returns (minus_one, with_machine m s)
  taken_set_up nbytes_used s (some taken, m) = do
    second ← setup_tu malloc translate_tu_addr s.inpos m
    returns (both_set_up nbytes_used taken s second)

  abbrev pub branch : ℕ → ℕ → Option ℕ → State → Outcome (ℤ × State)
  branch offset nbytes_used none s = returns (minus_one, emit (write_byte 0x0f) s)
  branch offset nbytes_used (some condition) s =
      let s' : State = emit (λ o. write_byte condition (write_byte 0x0f o)) s in
      do
        first ←
            setup_tu malloc translate_tu_addr
              (u64 (s.inpos + sign_extend 32 64 offset + 2 ^ 64 - nbytes_used)) s'.machine
        taken_set_up nbytes_used s' first

  unfoldable pub m68k_bcc : ℕ → State → Outcome (ℤ × State)
  m68k_bcc opcode s =
      let (offset, nbytes_used) = branch_offset opcode s in
      branch offset nbytes_used (branch_opcode opcode) (at_input (s.inpos + nbytes_used) s)
