-- ===== src/Translate/Stub.antt =====
-- `setup_tu`: the stub of a translation unit, and its entry in the cache.
use mathlib.Core.List.{reverse}
use vadm.Base.{
  ℕ, ◌+◌, ◌<◌, ◌≤◌, ◌≡◌, sym, ap, ap₂, ◌∙◌, ◌⊎◌, arith, List, [], ◌∷◌, ◌++◌, map, replicate, u64,
}
use vadm.Base.Bytes.{
  Memory, Out, write_bytes, write_bytes_outside, read_bytes, read_bytes-write_bytes, read_bytes-add,
  read_bytes-constant,
}
use vadm.X86.{Instruction, bits64, mov_imm, pop, popfq, push, pushfq, nop}
use vadm.X86.Listing.{Generates, ◌▷◌, Disassembles, Disassembles-append, Disassembles-nops}
use vadm.Codegen.Encoding.{emit_move_imm_to_reg-Generates}
use vadm.Codegen.Stub.{
  state_registers, call_listing, emit_save_program_state-Generates,
  emit_restore_program_state-Generates, emit_abs_call_to_func-Generates,
}
use vadm.Translate.Setup.{emit_stub, write_stub, memset}

-- The program's state is saved, `translate_tu` is called with the address of the unit in RDI, and
-- the state is restored.
abbrev pub stub_listing : ℕ → ℕ → List Instruction
stub_listing translate_tu_addr p_m68k_code =
    (map push state_registers ++ pushfq ∷ [])
    ++ mov_imm bits64 7 (u64 (u64 p_m68k_code)) ∷ call_listing translate_tu_addr
    ++ popfq ∷ map pop (reverse state_registers)

-- At `p_x86_code` stands the stub of a unit: the 128 bytes up to the place of the translated code
-- decode to the stub and 66 NOPs, so that its execution runs into the translated code.
pub record IsStub (translate_tu_addr p_m68k_code p_x86_code : ℕ) (m : Memory) : Type 0 where
  pub reads :
      Disassembles
        (read_bytes m p_x86_code 128)
        (stub_listing translate_tu_addr p_m68k_code ++ replicate 66 nop)
        []

-- The stub takes 62 bytes, less than the 128 that are kept for it.
pub emit_stub-Generates :
    (translate_tu_addr p_m68k_code : ℕ)
    → Generates
        (emit_stub translate_tu_addr p_m68k_code)
        (stub_listing translate_tu_addr p_m68k_code)
        62
unfolding emit_stub
emit_stub-Generates f p =
    emit_save_program_state-Generates
    ▷ emit_move_imm_to_reg-Generates 1 (u64 p) 15 (omega arith) (omega arith)
    ▷ emit_abs_call_to_func-Generates f
    ▷ emit_restore_program_state-Generates

module _ (translate_tu_addr p_m68k_code p_x86_code : ℕ) (m : Memory) where
  abbrev filled : Out
  filled = record { mem = memset p_x86_code 0x90 1024 m; pos = p_x86_code }

  stub :
      Generates
        (emit_stub translate_tu_addr p_m68k_code)
        (stub_listing translate_tu_addr p_m68k_code)
        62
  stub = emit_stub-Generates translate_tu_addr p_m68k_code

  stub_memory :
      write_stub translate_tu_addr p_m68k_code p_x86_code m ≡ (write_bytes stub.code filled).mem
  stub_memory = unfold write_stub in ap (λ (o : Out). o.mem) (stub.writes filled)

  -- No byte outside the block is written.
  pub write_stub_outside :
      (q : ℕ)
      → (q < p_x86_code) ⊎ (p_x86_code + 1024 ≤ q)
      → write_stub translate_tu_addr p_m68k_code p_x86_code m q ≡ m q
  write_stub_outside q h =
      ap (λ (f : Memory). f q) stub_memory
      ∙ ground (arith, write_bytes_outside stub.code filled q, stub.sized)

  sled : read_bytes (write_bytes stub.code filled).mem (p_x86_code + 62) 66 ≡ replicate 66 0x90
  sled =
      read_bytes-constant 66 0x90 (p_x86_code + 62) (write_bytes stub.code filled).mem
        λ q a b. ground (arith, write_bytes_outside stub.code filled q, stub.sized)

  code_back : read_bytes (write_bytes stub.code filled).mem p_x86_code 62 ≡ stub.code
  code_back =
      ap (λ (n : ℕ). read_bytes (write_bytes stub.code filled).mem p_x86_code n) (sym stub.sized)
      ∙ read_bytes-write_bytes stub.code filled

  pub write_stub-IsStub :
      IsStub translate_tu_addr p_m68k_code p_x86_code
        (write_stub translate_tu_addr p_m68k_code p_x86_code m)
  write_stub-IsStub = record {
    reads =
        rw (stub_memory, split)
          (Disassembles-append (stub.code ++ replicate 66 0x90) (replicate 66 0x90) []
            (stub_listing translate_tu_addr p_m68k_code) (replicate 66 nop)
            (stub.reads (replicate 66 0x90)) (Disassembles-nops 66));
  }
    where
      split :
          read_bytes (write_bytes stub.code filled).mem p_x86_code 128
          ≡ stub.code ++ replicate 66 0x90
      split =
          read_bytes-add 62 66 p_x86_code (write_bytes stub.code filled).mem
          ∙ ap₂ ◌++◌ code_back sled
