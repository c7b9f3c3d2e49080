-- ===== src/Translate/LibraryCall.antt =====
-- The execution of the code that JSR d(A6) is translated to.
use vadm.Base.{
  ℕ, ◌+◌, ◌-◌, ◌^◌, ◌<◌, ◌≤◌, ◌≡◌, ◌≢◌, refl, ap, ◌∙◌, arith, List, [], ◌∷◌, u32, sign_extend,
}
use vadm.X86.{Instruction, bits32, add_imm, push, pop, alu_imm32, call_reg}
use vadm.X86.Machine.{
  Processor, through, rsp_of, set_reg, fetch64, save64, flagged, push_value, popped, step, execute,
  fetch64-save64, fetch64_ext,
}
use vadm.Translate.State.{State}
use vadm.Translate.Operand.{Operand, read_word}
use vadm.Translate.Handlers.{m68k_jsr}
use vadm.Translate.Fields.{ea_field}
use vadm.Translate.Register.{Emits, m68k_jsr-Emits}

abbrev pub call_code : ℕ → List Instruction
call_code offset = push 6 ∷ alu_imm32 add_imm bits32 6 offset ∷ call_reg 6 ∷ pop 6 ∷ []

-- The code at the address returns with RSP and the eight bytes on top of the stack as they were.
pub record Returns (call : ℕ → Processor → Processor) (address : ℕ) : Type 0 where
  pub stack_pointer : (m : Processor) → rsp_of (call address m) ≡ rsp_of m
  pub top_kept :
      (m : Processor) (q : ℕ) → rsp_of m ≤ q → q < rsp_of m + 8 → (call address m).mem q ≡ m.mem q

module _ (call : ℕ → Processor → Processor) (flags_of : ℕ → Processor → ℕ) (offset : ℕ)
    (cpu : Processor) where
  -- The sum of A6 and the offset, in 32 bits.
  abbrev pub target : ℕ
  target = u32 (cpu.regs 6 + offset)

  -- The state that the code at the target is called in.
  abbrev pub inside_call : Processor
  inside_call =
      let m : Processor = push_value (cpu.regs 6) cpu in
      set_reg 6 target (flagged call flags_of target m)

  -- The code at the target is called once. Then RSI, which holds A6, and RSP are as
  -- before, and the other registers and the memory are as the call leaves them.
  pub record CallsLibrary (listing : List Instruction) : Type 0 where
    pub after : Processor
    pub runs : execute call flags_of listing cpu ≡ through after
    pub unchanged : (q : ℕ) → q ≢ 4 → q ≢ 6 → inside_call.regs q ≡ cpu.regs q
    pub base_kept : after.regs 6 ≡ cpu.regs 6
    pub stack_kept : rsp_of after ≡ rsp_of cpu
    pub results : (q : ℕ) → q ≢ 4 → q ≢ 6 → after.regs q ≡ (call target inside_call).regs q
    pub memory : after.mem ≡ (call target inside_call).mem

  module _ (returns : Returns call target) (word : rsp_of cpu < 2 ^ 64) (room : 8 ≤ rsp_of cpu)
      (base_word : cpu.regs 6 < 2 ^ 64) where
    abbrev back : Processor
    back = call target inside_call

    abbrev finished : Processor
    finished = set_reg 6 (fetch64 back.mem (rsp_of back)) (popped back)

    call_code-runs : execute call flags_of (call_code offset) cpu ≡ through finished
    unfolding execute step
    call_code-runs = refl

    sp : rsp_of back ≡ rsp_of cpu - 8
    sp = returns.stack_pointer inside_call ∙ ground arith

    inside_sp : rsp_of inside_call ≡ rsp_of cpu - 8
    inside_sp = ground arith

    base_back : fetch64 back.mem (rsp_of back) ≡ cpu.regs 6
    base_back =
        ap (fetch64 back.mem) sp
        ∙ fetch64_ext (rsp_of cpu - 8) back.mem inside_call.mem (λ q a b.
          returns.top_kept inside_call q (omega (arith, inside_sp)) (omega (arith, inside_sp)))
        ∙ ap (λ (a : ℕ). fetch64 (save64 a (cpu.regs 6) cpu.mem) (rsp_of cpu - 8)) inside_sp
        ∙ fetch64-save64 (rsp_of cpu - 8) (cpu.regs 6) cpu.mem
        ∙ omega arith

    call_code-CallsLibrary : CallsLibrary (call_code offset)
    call_code-CallsLibrary = record {
      after = finished;
      runs = call_code-runs;
      unchanged = λ q h4 h6. ground (arith, h4, h6);
      base_kept = base_back;
      stack_kept = ground (arith, sp);
      results = λ q h4 h6. ground (arith, h4, h6);
      memory = refl;
    }

-- For JSR d(A6), `m68k_jsr` consumes the two bytes of the displacement and writes ten bytes that, executed,
-- call the code at the sum of A6 and the displacement, sign-extended from 16 to 32 bits, modulo 2^32.
-- That code sees all registers but RSP and RSI as they were; behind it A6 and RSP are as before, and the
-- other registers and the memory are as it leaves them. It returns with RSP and the top of the
-- stack as they were at its call; the values of RSP and RSI fit in 64 bits.
pub m68k_jsr-CallsLibrary :
    (call : ℕ → Processor → Processor) (flags_of : ℕ → Processor → ℕ) (op : Operand) (opcode : ℕ)
    (s : State) (cpu : Processor)
    → ea_field opcode ≡ 0x2e
    → read_word s.memory s.inpos < 2 ^ 16
    → Returns call (u32 (cpu.regs 6 + sign_extend 16 32 (read_word s.memory s.inpos)))
    → rsp_of cpu < 2 ^ 64
    → 8 ≤ rsp_of cpu
    → cpu.regs 6 < 2 ^ 64
    → (listing : List Instruction) × Emits s (s.inpos + 2) 2 listing 10 (m68k_jsr op opcode s)
      × CallsLibrary call flags_of (sign_extend 16 32 (read_word s.memory s.inpos)) cpu listing
m68k_jsr-CallsLibrary call flags_of op opcode s cpu is_a6 word returns sp_word room base_word =
    let offset : ℕ = sign_extend 16 32 (read_word s.memory s.inpos) in
    (
      call_code offset,
      m68k_jsr-Emits op opcode s is_a6 word,
      call_code-CallsLibrary call flags_of offset cpu returns sp_word room base_word,
    )
