-- ===== src/Codegen/Transparent.antt =====
-- A call of a C function between `emit_save_program_state` and `emit_restore_program_state`, as the
-- stub of a unit and the start of a thunk have it.
use mathlib.Core.List.{reverse}
use vadm.Base.{
  ℕ, ◌-◌, ◌%◌, ◌^◌, ◌<◌, ◌≤◌, ◌≡◌, ◌≢◌, refl, ap, ◌∙◌, ◌⊎◌, inl, inr, arith, ◌==◌, false,
  Bool-cases, List, [], ◌∷◌, ◌++◌, map, replicate, u64,
}
use vadm.Base.Bytes.{Memory}
use vadm.Base.Tables.{tabulate, tabulate_ext}
use vadm.X86.{Instruction, bits64, push, pop, nop, pushfq, popfq, mov_imm}
use vadm.X86.Machine.{
  Processor, through, rsp_of, set_reg, fetch64, save64, push_value, popped, step, execute,
  runs_append, runs_cons, runs_nops, fetch64-save64, fetch64_ext, save64_outside, Saved, Saved-ext,
  contains, Pushes, pushes, Pops, pops,
}
use vadm.Codegen.Preserved.{may_change}
use vadm.Codegen.Stub.{state_registers, call_listing}
use vadm.Codegen.Calls.{KeepsConvention, CallsFunction, calls_function}

-- The program's state is saved, the function is called with the argument in RDI, and the state is
-- restored.
abbrev pub transparent_call : ℕ → ℕ → List Instruction
transparent_call p_func argument =
    (map push state_registers ++ pushfq ∷ [])
    ++ mov_imm bits64 7 argument ∷ call_listing p_func
    ++ popfq ∷ map pop (reverse state_registers)

-- A register is saved or preserved by the called function, except for RSP.
covered : (q : ℕ) → q < 16 → contains state_registers q ≡ may_change q
unfolding contains tabulate
covered q h = tabulate_ext 16 (contains state_registers) may_change q refl h

module _ (call : ℕ → Processor → Processor) (flags_of : ℕ → Processor → ℕ)
    (p_func argument stack_top : ℕ) (m : Processor) where
  -- The listing runs through. The call happens once, in the state `inside`, and all registers and flags are as before; of the
  -- memory, the stack is as before, and below it all is as the function leaves it.
  pub record IsTransparent (listing : List Instruction) : Type 0 where
    pub after : Processor
    pub inside : Processor
    pub runs : execute call flags_of listing m ≡ through after
    pub registers : (q : ℕ) → q < 16 → after.regs q ≡ m.regs q
    pub flags : after.flags ≡ m.flags
    pub stack : (q : ℕ) → rsp_of m ≤ q → q < stack_top → after.mem q ≡ m.mem q
    pub called_with : inside.regs 7 ≡ argument
    pub aligned : rsp_of inside % 16 ≡ 0
    pub seen : (q : ℕ) → (q < rsp_of m - 88) ⊎ (rsp_of m ≤ q) → inside.mem q ≡ m.mem q
    pub memory : after.mem ≡ (call (u64 p_func) inside).mem

  -- NOPs behind it change nothing.
  pub IsTransparent-nops :
      (listing : List Instruction) (n : ℕ)
      → IsTransparent listing
      → IsTransparent (listing ++ replicate n nop)
  IsTransparent-nops listing n t = record {
    after = t.after;
    inside = t.inside;
    runs =
        runs_append call flags_of listing (replicate n nop) m t.after t.runs
          (runs_nops call flags_of n t.after);
    registers = t.registers;
    flags = t.flags;
    stack = t.stack;
    called_with = t.called_with;
    aligned = t.aligned;
    seen = t.seen;
    memory = t.memory;
  }

  module _ (keeps : KeepsConvention call (u64 p_func) stack_top) (small : argument < 2 ^ 64)
      (words : (q : ℕ) → m.regs q < 2 ^ 64) (flags_word : m.flags < 2 ^ 64) (room : 104 ≤ rsp_of m)
      (top : rsp_of m ≤ stack_top) where
    saving : Pushes call flags_of m.regs words state_registers m
    saving =
        pushes call flags_of m.regs words state_registers m (omega arith) (λ q small h. refl)
          (omega arith) (words 4)

    abbrev saved_flags : Processor
    saved_flags = push_value saving.after.flags saving.after

    abbrev ready : Processor
    ready = set_reg 7 (u64 argument) saved_flags

    lowered : rsp_of saving.after ≡ rsp_of m - 72
    lowered = omega (arith, saving.lowered)

    sp : rsp_of ready ≡ rsp_of m - 80
    sp = ground (arith, lowered, words 4)

    calling : CallsFunction call flags_of p_func stack_top ready
    calling =
        calls_function call flags_of p_func stack_top ready keeps (omega (arith, sp, words 4))
          (omega (arith, saving.regs 5 (omega arith), words 5)) (omega (arith, sp))
          (omega (arith, sp))

    abbrev back : Processor
    back = record (popped calling.after) {
      flags = fetch64 calling.after.mem (rsp_of calling.after);
    }

    stack_kept :
        (q : ℕ) → rsp_of m - 80 ≤ q → q < stack_top → calling.after.mem q ≡ saved_flags.mem q
    stack_kept q a b =
        ap (λ (mem : Memory). mem q) calling.memory
        ∙ keeps.frames calling.inside q calling.aligned (omega (arith, calling.below, sp)) b
        ∙ calling.inside_memory q (inr (omega (arith, sp)))

    under :
        (q : ℕ) → (q < rsp_of m - 80) ⊎ (rsp_of m - 72 ≤ q) → saved_flags.mem q ≡ saving.after.mem q
    under q h =
        ap (λ (a : ℕ). save64 a saving.after.flags saving.after.mem q) sp
        ∙ save64_outside (rsp_of m - 80) saving.after.flags q saving.after.mem (ground (arith, h))

    flags_back : back.flags ≡ m.flags
    flags_back =
        ap (fetch64 calling.after.mem) (calling.stack ∙ sp)
        ∙ fetch64_ext (rsp_of m - 80) calling.after.mem saved_flags.mem
            (λ q a b. stack_kept q a (omega arith))
        ∙ ap (λ (a : ℕ). fetch64 (save64 a saving.after.flags saving.after.mem) (rsp_of m - 80)) sp
        ∙ fetch64-save64 (rsp_of m - 80) saving.after.flags saving.after.mem
        ∙ omega (arith, saving.flags)

    values_back : Saved state_registers m.regs (rsp_of m) back.mem
    values_back =
        Saved-ext state_registers m.regs (rsp_of m) saving.after.mem back.mem (omega arith)
          (λ q a b. stack_kept q (omega arith) (omega arith) ∙ under q (inr (omega arith)))
          saving.saved

    raised : rsp_of back ≡ rsp_of m - 72
    raised = ground (arith, calling.stack, sp, words 4)

    restoring : Pops call flags_of m.regs words state_registers back
    restoring =
        pops call flags_of m.regs words state_registers back (rsp_of m) (omega arith)
          (omega (arith, raised)) (words 4) values_back

    first_part :
        execute call flags_of (map push state_registers ++ pushfq ∷ []) m ≡ through saved_flags
    first_part =
        runs_append call flags_of (map push state_registers) (pushfq ∷ []) m saving.after
          saving.runs (unfold execute step in refl)

    second_part :
        execute call flags_of (mov_imm bits64 7 argument ∷ call_listing p_func) saved_flags
        ≡ through calling.after
    second_part =
        runs_cons call flags_of (mov_imm bits64 7 argument) (call_listing p_func) saved_flags ready
          (let e : step call flags_of (mov_imm bits64 7 argument) saved_flags ≡ through ready =
              unfold step in refl in
            e)
          calling.runs

    last_part :
        execute call flags_of (popfq ∷ map pop (reverse state_registers)) calling.after
        ≡ through restoring.after
    last_part =
        runs_cons call flags_of popfq (map pop (reverse state_registers)) calling.after back
          (let e : step call flags_of popfq calling.after ≡ through back = unfold step in refl in e)
          restoring.runs

    runs_through :
        execute call flags_of (transparent_call p_func argument) m ≡ through restoring.after
    runs_through =
        runs_append call flags_of
          ((map push state_registers ++ pushfq ∷ [])
            ++ mov_imm bits64 7 argument ∷ call_listing p_func)
          (popfq ∷ map pop (reverse state_registers)) m calling.after
          (runs_append call flags_of (map push state_registers ++ pushfq ∷ [])
            (mov_imm bits64 7 argument ∷ call_listing p_func) m saved_flags first_part second_part)
          last_part

    -- A register that is not saved: the function preserves it.
    preserved : (q : ℕ) → q < 16 → q ≢ 4 → may_change q ≡ false → back.regs q ≡ m.regs q
    preserved q h other no_change = elim (Bool-cases (q == 5)) [
      | inl e ↦
          let is_5 : q ≡ 5 = ground (arith, e) in
          rw is_5 (calling.base ∙ saving.regs 5 (omega arith))
      | inr e ↦
          let not_5 : q ≢ 5 = ground (arith, e) in
          let not_0 : q ≢ 0 = ground (arith, no_change) in
          let unpushed : ready.regs q ≡ saving.after.regs q = ground (arith, other, no_change) in
          ground (arith, other)
          ∙ calling.results q other not_5
          ∙ keeps.registers calling.inside q calling.aligned h no_change
          ∙ calling.arguments q not_0 other not_5
          ∙ unpushed
          ∙ saving.regs q other
    ]

    all_registers : (q : ℕ) → q < 16 → restoring.after.regs q ≡ m.regs q
    all_registers q h = elim (Bool-cases (q == 4)) [
      | inl e ↦
          let is_4 : q ≡ 4 = ground (arith, e) in rw is_4 (restoring.raised ∙ omega (arith, raised))
      | inr e ↦
          let other : q ≢ 4 = ground (arith, e) in
          restoring.regs q other ∙ ground (arith, covered q h, preserved q h other)
    ]

    pub transparent_call-IsTransparent : IsTransparent (transparent_call p_func argument)
    transparent_call-IsTransparent = record {
      after = restoring.after;
      inside = calling.inside;
      runs = runs_through;
      registers = all_registers;
      flags = restoring.flags ∙ flags_back;
      stack = λ q a b.
          ap (λ (mem : Memory). mem q) restoring.memory
          ∙ stack_kept q (omega arith) b
          ∙ under q (inr (omega arith))
          ∙ saving.outside q (inr a);
      called_with = calling.arguments 7 (omega arith) (omega arith) (omega arith) ∙ omega arith;
      aligned = calling.aligned;
      seen = λ q h.
          calling.inside_memory q (ground (arith, sp, h))
          ∙ under q (ground (arith, h))
          ∙ saving.outside q (ground (arith, lowered, h));
      memory = restoring.memory ∙ calling.memory;
    }
