-- ===== src/Translate/Tests/Execution.antt =====
-- The execution of translated code at concrete instructions: the theorems applied.
use vadm.Base.{
  ℕ, ◌≤◌, ◌⊎◌, ◌+◌, ◌-◌, ◌%◌, ◌^◌, ◌<◌, ◌≡◌, refl, ap, arith, true, none, some, List, [], ◌∷◌, u32,
  sign_extend,
}
use vadm.Base.Bytes.{write_byte, write_dword}
use vadm.Base.Outcome.{returns}
use vadm.Codegen.Sample.{cpu, stack_top, seven, flags_set, seven-KeepsConvention, cpu_words}
use vadm.TlCache.{TranslationCache, tc_get_addr, tc_put_addr, get_walk, has_bit}
use vadm.TlCache.Success.{tc_put_addr-tc_get_addr}
use vadm.Translate.State.{Machine, State, emit}
use vadm.Translate.Operand.{read_word, extract_operand}
use vadm.Translate.Encode.{x86_encode_move_imm_to_dreg}
use vadm.Translate.Handlers.{m68k_moveq, m68k_subq_32, m68k_tst_32, m68k_jsr}
use vadm.Translate.Fields.{ea_field, reg_field}
use vadm.Translate.Opcodes.{classify}
use vadm.Translate.Unit.{Uninitialized, translate_tu, with_table}
use vadm.Translate.Runs.{opcode_at, returned}
use vadm.Translate.Result.{at_start}
use vadm.Translate.Setup.{setup_tu}
use vadm.Translate.Stub.{IsStub}
use vadm.Translate.Success.{setup_tu_succeeds}
use vadm.Translate.Meaning.{M68k, set_data, flag_kept, tells_zero}
use vadm.Translate.Simulation.{
  difference, Simulates, m68k_moveq-Simulates, m68k_subq_32-Simulates, m68k_tst_32-Simulates,
}
use vadm.X86.{Instruction}
use vadm.Translate.Register.{Emits}
use vadm.Translate.LibraryCall.{Returns, CallsLibrary, m68k_jsr-CallsLibrary}
use vadm.Translate.Program.{
  IsInstruction, is_moveq, is_subq, translated, IsProgram, empty, instruction,
}
use vadm.Translate.Within.{translate_tu_within}
use vadm.Translate.Entering.{Enters, setup_tu-Enters}
use vadm.Translate.Tests.Programs.{
  empty_cache, machine_of, state_of, unset, always, machine_IsReady,
}

-- moveq.l #0x80, d0; subq.l #1, d0; rts
abbrev code : List ℕ
code = 0x70 ∷ 0x80 ∷ 0x53 ∷ 0x80 ∷ 0x4e ∷ 0x75 ∷ []

abbrev entry_made :
    (after : TranslationCache) × (tc_put_addr always empty_cache 0x10_0000 0x7000_0000
      ≡ returns (true, after))
    × (tc_get_addr after 0x10_0000 ≡ returns (some 0x7000_0000))
entry_made =
    tc_put_addr-tc_get_addr always (λ n. refl) empty_cache 0x10_0000 0x7000_0000
      (record { tree = (tt, tt); root = refl }) (omega arith) (omega arith)

abbrev with_entry : Machine
with_entry = record (machine_of code) { tlcache = entry_made.0 }

abbrev nothing_set : Uninitialized
nothing_set = record { first = λ p. unset; second = λ p. unset }

abbrev at_moveq : State
at_moveq = at_start 0x10_0000 0x7000_0000 with_entry

first_word : opcode_at at_moveq ≡ 0x7080
unfolding read_word with_table
first_word = refl

moveq_word : opcode_at at_moveq < 2 ^ 16
moveq_word = omega (arith, first_word)

first_instruction :
    IsInstruction at_moveq
      (set_data (reg_field (opcode_at at_moveq)) (sign_extend 8 32 (opcode_at at_moveq % 2 ^ 8)))
      flag_kept
unfolding classify
first_instruction = is_moveq (ap classify first_word)

abbrev at_subq : State
at_subq =
    (translated seven flags_set always 0x5555_0000 nothing_set at_moveq _ _ moveq_word
      first_instruction).result.1

second_word : opcode_at at_subq ≡ 0x5380
unfolding read_word with_table translated first_instruction m68k_moveq emit
    x86_encode_move_imm_to_dreg write_byte write_dword
second_word = refl

subq_word : opcode_at at_subq < 2 ^ 16
subq_word = omega (arith, second_word)

second_instruction :
    IsInstruction at_subq
      (λ r. set_data (ea_field (opcode_at at_subq)) (difference (opcode_at at_subq) r) r)
      (tells_zero (difference (opcode_at at_subq)))
unfolding classify
second_instruction =
    is_subq (ap classify second_word) (omega (arith, second_word)) (omega (arith, second_word))
      (ground (arith, second_word))

abbrev at_rts : State
at_rts =
    (translated seven flags_set always 0x5555_0000 nothing_set at_subq _ _ subq_word
      second_instruction).result.1

last_word : opcode_at at_rts ≡ 0x4e75
unfolding read_word with_table translated first_instruction second_instruction m68k_moveq
    m68k_subq_32 extract_operand emit x86_encode_move_imm_to_dreg write_byte write_dword
last_word = refl

-- D0 is set to 0xffff_ff80 and then lowered by 1.
abbrev meaning : M68k → M68k
meaning r =
    let r₁ : M68k =
      set_data (reg_field (opcode_at at_moveq)) (sign_extend 8 32 (opcode_at at_moveq % 2 ^ 8)) r in
    set_data (ea_field (opcode_at at_subq)) (difference (opcode_at at_subq) r₁) r₁

abbrev zero_afterwards : M68k → ℕ → ℕ
zero_afterwards r b =
    tells_zero (difference (opcode_at at_subq))
      (set_data (reg_field (opcode_at at_moveq)) (sign_extend 8 32 (opcode_at at_moveq % 2 ^ 8)) r)
      b

program :
    IsProgram seven flags_set always 0x5555_0000 nothing_set at_rts 2 at_moveq meaning
      zero_afterwards
program = instruction moveq_word first_instruction (instruction subq_word second_instruction empty)

translate_tu_within_example :
    (after : Machine) × (translate_tu always 0x5555_0000 nothing_set 3 0x10_0000 with_entry
      ≡ returned (some 0x7000_0000) after)
    × ((q : ℕ) → (q < 0x7000_0000) ⊎ (0x7000_0400 ≤ q) → after.memory q ≡ with_entry.memory q)
translate_tu_within_example =
    translate_tu_within seven flags_set always 0x5555_0000 nothing_set 0x10_0000 with_entry 2 3
      0x7000_0000 at_rts meaning zero_afterwards entry_made.2 (λ e. cc) program last_word
      (omega arith) (omega arith)

nothing_found : tc_get_addr empty_cache 0x10_0000 ≡ returns none
unfolding tc_get_addr get_walk has_bit
nothing_found = refl

abbrev set_up :
    (after : Machine) × (setup_tu always 0x5555_0000 0x10_0000 (machine_of code)
      ≡ returns (some 0x7000_0000, after))
    × (tc_get_addr after.tlcache 0x10_0000 ≡ returns (some 0x7000_0000))
    × IsStub 0x5555_0000 0x10_0000 0x7000_0000 after.memory
set_up =
    setup_tu_succeeds always 0x5555_0000 0x10_0000 (machine_of code) (λ n. refl)
      (machine_IsReady code) (omega arith) (omega arith) nothing_found

setup_tu-Enters_example :
    Enters seven flags_set 0x5555_0000 0x10_0000 stack_top cpu set_up.0.memory 0x7000_0000
setup_tu-Enters_example =
    setup_tu-Enters seven flags_set 0x5555_0000 0x10_0000 stack_top cpu
      (seven-KeepsConvention 0x5555_0000) cpu_words (omega arith) (omega arith) (omega arith) always
      (machine_of code) set_up.0 0x7000_0000 (machine_IsReady code) (omega arith) nothing_found
      set_up.1

-- moveq.l #0x80, d0
m68k_moveq-Simulates_example :
    Simulates seven flags_set
      (state_of code)
      0x10_0002
      0
      (set_data 0 0xffff_ff80)
      flag_kept
      (m68k_moveq 0x7080 (state_of code))
m68k_moveq-Simulates_example = m68k_moveq-Simulates seven flags_set 0x7080 (state_of code)

-- subq.l #1, d2
m68k_subq_32-Simulates_example :
    Simulates seven flags_set
      (state_of [])
      0x10_0002
      0
      (λ r. set_data 2 (u32 (r.d 2 + 2 ^ 32 - 1)) r)
      (tells_zero (λ r. u32 (r.d 2 + 2 ^ 32 - 1)))
      (m68k_subq_32 unset 0x5382 (state_of []))
m68k_subq_32-Simulates_example =
    m68k_subq_32-Simulates seven flags_set unset 0x5382 (state_of []) refl (omega arith)
      (omega arith)

-- tst.l d0
m68k_tst_32-Simulates_example :
    Simulates seven flags_set
      (state_of [])
      0x10_0002
      0
      (λ r. r)
      (tells_zero (λ r. r.d 0))
      (m68k_tst_32 unset 0x4a80 (state_of []))
m68k_tst_32-Simulates_example =
    m68k_tst_32-Simulates seven flags_set unset 0x4a80 (state_of []) refl (omega arith)

-- move.l #0x5555aaaa, d1
abbrev long_code : List ℕ
long_code = 0x22 ∷ 0x3c ∷ 0x55 ∷ 0x55 ∷ 0xaa ∷ 0xaa ∷ []

-- movea.l 0x0004, a6
abbrev exec_base_code : List ℕ
exec_base_code = 0x2c ∷ 0x78 ∷ 0x00 ∷ 0x04 ∷ []

-- jsr -948(a6)
abbrev jsr_code : List ℕ
jsr_code = 0x4e ∷ 0xae ∷ 0xfc ∷ 0x4c ∷ []

displacement : read_word (state_of jsr_code).memory 0x10_0002 ≡ 0xfc4c
unfolding read_word
displacement = refl

seven-Returns : (address : ℕ) → Returns seven address
seven-Returns address = record {
  stack_pointer = λ m. ground arith;
  top_kept = λ m q above below. refl;
}

m68k_jsr-CallsLibrary_example :
    (listing : List Instruction) × Emits
      (state_of jsr_code)
      0x10_0004
      2
      listing
      10
      (m68k_jsr unset 0x4eae (state_of jsr_code))
    × CallsLibrary seven flags_set
        (sign_extend 16 32 (read_word (state_of jsr_code).memory 0x10_0002))
        cpu
        listing
m68k_jsr-CallsLibrary_example =
    m68k_jsr-CallsLibrary seven flags_set unset 0x4eae (state_of jsr_code) cpu refl
      (omega (arith, displacement)) (seven-Returns _) (omega arith) (omega arith) (omega arith)
