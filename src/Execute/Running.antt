-- ===== src/Execute/Running.antt =====
-- The execution of the thunk of a library function.
use mathlib.Core.List.{reverse}
use mathlib.Core.Path.{subst}
use vadm.Base.{
  ℕ, ◌+◌, ◌-◌, ◌%◌, ◌^◌, ◌<◌, ◌≤◌, ◌≡◌, ◌≢◌, refl, sym, ap, ◌∙◌, inl, inr, arith, ◌==◌, true, false,
  ◌||◌, Bool-cases, List, [], ◌∷◌, ◌++◌, All, length, map, u32, u64,
}
use vadm.Base.Bytes.{Memory}
use vadm.Base.Tables.{tabulate, tabulate_ext}
use vadm.X86.{Instruction, bits32, push, pop, mov_reg, ret}
use vadm.X86.Machine.{
  Processor, through, returned, rsp_of, set_reg, fetch64, popped, step, execute, runs_append,
  runs_cons, fetch64_ext, Saved, Saved-ext, contains, Pushes, pushes, Pops, pops,
}
use vadm.Codegen.Encoding.{hardware}
use vadm.Codegen.Preserved.{may_change}
use vadm.Codegen.Stub.{saved_registers, call_listing}
use vadm.Codegen.Calls.{KeepsConvention, CallsFunction, calls_function}
use vadm.Codegen.Transparent.{IsTransparent, transparent_call, transparent_call-IsTransparent}
use vadm.Execute.Arguments.{
  neither, moved, is_unclobbered, Delivered, Delivered-same, moved-Delivered, moved_preserved,
  execute-move_arguments,
}
use vadm.Execute.Moves.{move_arguments}
use vadm.Execute.Thunk.{thunk_listing}

-- D0, D1, A0 and A1, which a function of AmigaOS may change.
abbrev pub scratch_registers : List ℕ
scratch_registers = 8 ∷ 9 ∷ 0 ∷ 1 ∷ []

contains_parts :
    (r : ℕ) (rs : List ℕ) (q : ℕ)
    → contains (r ∷ rs) q ≡ false
    → ((r == q) ≡ false) × (contains rs q ≡ false)
unfolding contains
contains_parts r rs q h = neither (r == q) (contains rs q) h

-- What is neither saved nor scratch is preserved by the called function.
covered :
    (q : ℕ) → q < 16 → (contains saved_registers q || contains scratch_registers q) ≡ may_change q
unfolding contains tabulate
covered q h =
    tabulate_ext 16 (λ q. contains saved_registers q || contains scratch_registers q) may_change q
      refl h

module _ (call : ℕ → Processor → Processor) (flags_of : ℕ → Processor → ℕ)
    (log_func_name_addr name_addr p_func stack_top : ℕ) (args : List ℕ) (result : ℕ)
    (m : Processor) where
  -- The listing returns to its caller. The C function is called in the state `inside`.
  pub record RunsAsFunction (listing : List Instruction) : Type 0 where
    pub after : Processor
    pub inside : Processor
    pub runs : execute call flags_of listing m ≡ returned (fetch64 m.mem (rsp_of m)) after
    pub aligned : rsp_of inside % 16 ≡ 0
    pub arguments : Delivered args m.regs inside.regs
    pub result_value : after.regs (hardware result) ≡ u32 ((call (u64 p_func) inside).regs 0)
    pub preserved :
        (q : ℕ)
        → q < 16
        → q ≢ 4
        → q ≢ hardware result
        → contains scratch_registers q ≡ false
        → after.regs q ≡ m.regs q
    pub raised : rsp_of after ≡ rsp_of m + 8
    pub stack : (q : ℕ) → rsp_of m ≤ q → q < stack_top → after.mem q ≡ m.mem q

  module _ (log_keeps : KeepsConvention call (u64 log_func_name_addr) stack_top)
      (keeps : KeepsConvention call (u64 p_func) stack_top) (words : (q : ℕ) → m.regs q < 2 ^ 64)
      (flags_word : m.flags < 2 ^ 64) (room : 104 ≤ rsp_of m) (top : rsp_of m + 8 ≤ stack_top)
      (word : rsp_of m + 8 < 2 ^ 64) (few : length args ≤ 6) (not_a7 : All (λ d. d < 15) args)
      (unclobbered : is_unclobbered args ≡ true)
      (returnable : contains (4 ∷ saved_registers) (hardware result) ≡ false) where
    logging :
        IsTransparent call flags_of log_func_name_addr
          (u64 (u64 name_addr))
          stack_top
          m
          (transparent_call log_func_name_addr (u64 (u64 name_addr)))
    logging =
        transparent_call-IsTransparent call flags_of log_func_name_addr (u64 (u64 name_addr))
          stack_top m log_keeps (omega arith) words flags_word room (omega arith)

    logged : rsp_of logging.after ≡ rsp_of m
    logged = logging.registers 4 (omega arith)

    saving : Pushes call flags_of m.regs words saved_registers logging.after
    saving =
        pushes call flags_of m.regs words saved_registers logging.after (omega arith)
          (λ q small h. logging.registers q small) (omega (arith, logged)) (omega (arith, logged))

    abbrev filled : Processor
    filled = record (saving.after) { regs = moved args saving.after.regs }

    moved_sp : rsp_of filled ≡ rsp_of m - 40
    moved_sp =
        moved_preserved args saving.after.regs 4 few refl ∙ omega (arith, saving.lowered, logged)

    moved_rbp : filled.regs 5 ≡ m.regs 5
    moved_rbp =
        moved_preserved args saving.after.regs 5 few refl
        ∙ saving.regs 5 (omega arith)
        ∙ logging.registers 5 (omega arith)

    calling : CallsFunction call flags_of p_func stack_top filled
    calling =
        calls_function call flags_of p_func stack_top filled keeps
          (omega (arith, moved_sp, words 4)) (omega (arith, moved_rbp, words 5))
          (omega (arith, moved_sp)) (omega (arith, moved_sp))

    abbrev back : Processor
    back = set_reg (hardware result) (u32 (calling.after.regs 0)) calling.after

    stack_kept : (q : ℕ) → rsp_of m - 40 ≤ q → q < stack_top → back.mem q ≡ saving.after.mem q
    stack_kept q a b =
        ap (λ (mem : Memory). mem q) calling.memory
        ∙ keeps.frames calling.inside q calling.aligned (omega (arith, calling.below, moved_sp)) b
        ∙ calling.inside_memory q (inr (omega (arith, moved_sp)))

    result_parts :
        ((4 == hardware result) ≡ false) × (contains saved_registers (hardware result) ≡ false)
    result_parts = contains_parts 4 saved_registers (hardware result) returnable

    result_not_sp : hardware result ≢ 4
    result_not_sp = ground (arith, result_parts.0)

    sp_back : rsp_of back ≡ rsp_of m - 40
    sp_back = ground (arith, result_not_sp) ∙ calling.stack ∙ moved_sp

    restoring : Pops call flags_of m.regs words saved_registers back
    restoring =
        pops call flags_of m.regs words saved_registers back (rsp_of m) (omega arith)
          (omega (arith, sp_back)) (words 4)
          (Saved-ext saved_registers m.regs (rsp_of m) saving.after.mem back.mem (omega arith)
            (λ q a b. stack_kept q (omega arith) (omega arith))
            (subst (λ (a : ℕ). Saved saved_registers m.regs a saving.after.mem) logged
              saving.saved))

    stack_same : (q : ℕ) → rsp_of m ≤ q → q < stack_top → restoring.after.mem q ≡ m.mem q
    stack_same q a b =
        ap (λ (mem : Memory). mem q) restoring.memory
        ∙ stack_kept q (omega arith) b
        ∙ saving.outside q (inr (omega (arith, logged)))
        ∙ logging.stack q a b

    raised : rsp_of restoring.after ≡ rsp_of m
    raised = restoring.raised ∙ omega (arith, sp_back)

    result_there :
        restoring.after.regs (hardware result) ≡ u32 ((call (u64 p_func) calling.inside).regs 0)
    result_there =
        restoring.regs (hardware result) result_not_sp
        ∙ rw result_parts.1 (ground arith ∙ ap u32 (calling.results 0 (omega arith) (omega arith)))

    -- A register that the thunk does not save: the function preserves it.
    untouched : (q : ℕ) → q < 16 → q ≢ 4 → may_change q ≡ false → calling.after.regs q ≡ m.regs q
    untouched q h other no_change = elim (Bool-cases (q == 5)) [
      | inl e ↦ let is_5 : q ≡ 5 = ground (arith, e) in rw is_5 (calling.base ∙ moved_rbp)
      | inr e ↦
          let not_5 : q ≢ 5 = ground (arith, e) in
          let not_0 : q ≢ 0 = ground (arith, no_change) in
          calling.results q other not_5
          ∙ keeps.registers calling.inside q calling.aligned h no_change
          ∙ calling.arguments q not_0 other not_5
          ∙ moved_preserved args saving.after.regs q few no_change
          ∙ saving.regs q other
          ∙ logging.registers q h
    ]

    kept :
        (q : ℕ)
        → q < 16
        → q ≢ 4
        → q ≢ hardware result
        → contains scratch_registers q ≡ false
        → restoring.after.regs q ≡ m.regs q
    kept q h other not_result not_scratch = elim (Bool-cases (contains saved_registers q)) [
      | inl e ↦ restoring.regs q other ∙ rw e refl
      | inr e ↦
          let no_change : may_change q ≡ false = sym (covered q h) ∙ rw (e, not_scratch) refl in
          let unset : back.regs q ≡ calling.after.regs q = ground (arith, not_result) in
          restoring.regs q other ∙ rw e (unset ∙ untouched q h other no_change)
    ]

    up_to_call :
        execute call flags_of
          ((transparent_call log_func_name_addr (u64 (u64 name_addr)) ++ map push saved_registers)
            ++ move_arguments args)
          m
        ≡ through filled
    up_to_call =
        runs_append call flags_of
          (transparent_call log_func_name_addr (u64 (u64 name_addr)) ++ map push saved_registers)
          (move_arguments args) m saving.after
          (runs_append call flags_of (transparent_call log_func_name_addr (u64 (u64 name_addr)))
            (map push saved_registers) m logging.after logging.runs saving.runs)
          (execute-move_arguments call flags_of args saving.after)

    abbrev ending : List Instruction
    ending = mov_reg bits32 0 (hardware result) ∷ map pop (reverse saved_registers)

    from_call :
        execute call flags_of (call_listing p_func ++ ending) filled ≡ through restoring.after
    from_call =
        runs_append call flags_of (call_listing p_func) ending filled calling.after calling.runs (
          runs_cons call flags_of (mov_reg bits32 0 (hardware result))
            (map pop (reverse saved_registers)) calling.after back (unfold step in refl)
            restoring.runs)

    return_address : fetch64 restoring.after.mem (rsp_of restoring.after) ≡ fetch64 m.mem (rsp_of m)
    return_address =
        ap (fetch64 restoring.after.mem) raised
        ∙ fetch64_ext (rsp_of m) restoring.after.mem m.mem (λ q a b. stack_same q a (omega arith))

    at_return :
        execute call flags_of (ret ∷ []) restoring.after
        ≡ returned (fetch64 restoring.after.mem (rsp_of restoring.after)) (popped restoring.after)
    unfolding execute step
    at_return = refl

    runs_through :
        execute call flags_of (thunk_listing log_func_name_addr name_addr p_func args result) m
        ≡ returned (fetch64 m.mem (rsp_of m)) (popped restoring.after)
    runs_through =
        runs_append call flags_of
          ((transparent_call log_func_name_addr (u64 (u64 name_addr)) ++ map push saved_registers)
            ++ move_arguments args)
          ((call_listing p_func ++ ending) ++ ret ∷ []) m filled up_to_call
          (runs_append call flags_of (call_listing p_func ++ ending) (ret ∷ []) filled
            restoring.after from_call at_return)
        ∙ ap (λ (a : ℕ). returned a (popped restoring.after)) return_address

    pub thunk-RunsAsFunction :
        RunsAsFunction (thunk_listing log_func_name_addr name_addr p_func args result)
    thunk-RunsAsFunction = record {
      after = popped restoring.after;
      inside = calling.inside;
      runs = runs_through;
      aligned = calling.aligned;
      arguments =
          Delivered-same args saving.after.regs m.regs filled.regs calling.inside.regs few not_a7
            (λ q small other. sym (saving.regs q other ∙ logging.registers q small))
            (λ q h0 h4 h5. calling.arguments q h0 h4 h5)
            (moved-Delivered args saving.after.regs few unclobbered);
      result_value = popped_other (hardware result) result_not_sp ∙ result_there;
      preserved = λ q h other not_result not_scratch.
          popped_other q other ∙ kept q h other not_result not_scratch;
      raised = omega (arith, raised);
      stack = stack_same;
    }
      where
        popped_other : (q : ℕ) → q ≢ 4 → (popped restoring.after).regs q ≡ restoring.after.regs q
        popped_other q h = ground (arith, h)
