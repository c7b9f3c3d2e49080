-- ===== src/Codegen/Calls.antt =====
-- What the code of `emit_abs_call_to_func` does when it is executed.
use vadm.Base.{
  ℕ, ◌-◌, ◌*◌, ◌/◌, ◌%◌, ◌^◌, ◌<◌, ◌≤◌, ◌≡◌, ◌≢◌, refl, ap, ◌∙◌, ◌⊎◌, arith, ◌==◌, false, u64,
  bit_field, sign_extend,
}
use vadm.Base.Bytes.{store}
use vadm.X86.Machine.{
  Processor, through, rsp_of, set_reg, fetch64, save64, push_value, popped, step, execute,
  with_zero_flag, fetch64-save64, fetch64_ext, save64_outside, alu_result,
}
use vadm.X86.{bits64, and_imm}
use vadm.Codegen.Preserved.{may_change}
use vadm.Codegen.Stub.{call_listing}

-- The C function at the address keeps to the calling convention: called with RSP on a 16-byte
-- boundary, it preserves the registers that it has to, and does not write to the stack between RSP
-- and its top.
pub record KeepsConvention (call : ℕ → Processor → Processor) (f stack_top : ℕ) : Type 0 where
  pub registers :
      (m : Processor) (r : ℕ)
      → rsp_of m % 16 ≡ 0
      → r < 16
      → may_change r ≡ false
      → (call f m).regs r ≡ m.regs r
  pub frames :
      (m : Processor) (q : ℕ)
      → rsp_of m % 16 ≡ 0
      → rsp_of m ≤ q
      → q < stack_top
      → (call f m).mem q ≡ m.mem q

-- The immediate value of AND is -16.
aligned_down : (x : ℕ) → alu_result and_imm bits64 x (sign_extend 8 64 0xf0) ≡ u64 x / 16 * 16
aligned_down x = bit_field 60 4 (u64 x) ∙ omega arith

module _ (call : ℕ → Processor → Processor) (flags_of : ℕ → Processor → ℕ) (p_func stack_top : ℕ)
    (m : Processor) where
  -- The function is called once, in the state `inside`, and its result and its memory are left.
  pub record CallsFunction : Type 0 where
    pub after : Processor
    pub inside : Processor
    pub runs : execute call flags_of (call_listing p_func) m ≡ through after
    pub aligned : rsp_of inside % 16 ≡ 0
    pub below : rsp_of inside ≤ rsp_of m - 8
    pub arguments : (q : ℕ) → q ≢ 0 → q ≢ 4 → q ≢ 5 → inside.regs q ≡ m.regs q
    pub inside_memory : (q : ℕ) → (q < rsp_of m - 8) ⊎ (rsp_of m ≤ q) → inside.mem q ≡ m.mem q
    pub memory : after.mem ≡ (call (u64 p_func) inside).mem
    pub results : (q : ℕ) → q ≢ 4 → q ≢ 5 → after.regs q ≡ (call (u64 p_func) inside).regs q
    pub stack : rsp_of after ≡ rsp_of m
    pub base : after.regs 5 ≡ m.regs 5

  module _ (keeps : KeepsConvention call (u64 p_func) stack_top) (word : rsp_of m < 2 ^ 64)
      (rbp_word : m.regs 5 < 2 ^ 64) (room : 24 ≤ rsp_of m) (top : rsp_of m ≤ stack_top) where
    abbrev pushed : Processor
    pushed = push_value (m.regs 5) m

    abbrev lowered : ℕ
    lowered = alu_result and_imm bits64 (rsp_of pushed) (sign_extend 8 64 0xf0)

    abbrev inside_call : Processor
    inside_call = record {
      regs =
          store 0 (u64 (u64 p_func)) (store 4 lowered (store 5 (u64 (rsp_of pushed)) pushed.regs));
      flags =
          with_zero_flag (flags_of lowered (set_reg 5 (u64 (rsp_of pushed)) pushed)) (lowered == 0);
      mem = pushed.mem;
    }

    abbrev returned_from : Processor
    returned_from = call (u64 p_func) inside_call

    abbrev finish : Processor → Processor
    finish r =
        let m' : Processor = set_reg 4 (u64 (r.regs 5)) r in
        set_reg 5 (fetch64 m'.mem (rsp_of m')) (popped m')

    abbrev finished : Processor
    finished = finish returned_from

    sp : rsp_of pushed ≡ rsp_of m - 8
    sp = ground arith

    stack_inside : rsp_of inside_call ≡ (rsp_of m - 8) / 16 * 16
    stack_inside = aligned_down (rsp_of pushed) ∙ omega (arith, sp)

    rbp_back : returned_from.regs 5 ≡ rsp_of m - 8
    rbp_back =
        keeps.registers inside_call 5 (omega (arith, stack_inside)) (omega arith) refl
        ∙ omega (arith, sp)

    runs_through : execute call flags_of (call_listing p_func) m ≡ through finished
    unfolding execute step
    runs_through =
        ap (λ (a : ℕ). through (finish (call a inside_call)))
          (let once : u64 (u64 p_func) ≡ u64 p_func = omega arith in once)

    top_value : fetch64 returned_from.mem (rsp_of m - 8) ≡ m.regs 5
    top_value =
        fetch64_ext (rsp_of m - 8) returned_from.mem pushed.mem (λ q a b.
          keeps.frames inside_call q (omega (arith, stack_inside)) (omega (arith, stack_inside))
            (omega arith))
        ∙ ap (λ (a : ℕ). fetch64 (save64 a (m.regs 5) m.mem) (rsp_of m - 8)) sp
        ∙ fetch64-save64 (rsp_of m - 8) (m.regs 5) m.mem
        ∙ omega arith

    pub calls_function : CallsFunction
    calls_function = record {
      after = finished;
      inside = inside_call;
      runs = runs_through;
      aligned = omega (arith, stack_inside);
      below = omega (arith, stack_inside);
      arguments = λ q h0 h4 h5. ground arith;
      inside_memory = λ q h.
          ap (λ (a : ℕ). save64 a (m.regs 5) m.mem q) sp
          ∙ save64_outside (rsp_of m - 8) (m.regs 5) q m.mem (ground (arith, h));
      memory = refl;
      results = λ q h4 h5. ground (arith, h4, h5);
      stack = ground (arith, rbp_back);
      base = ap (fetch64 returned_from.mem) (ground (arith, rbp_back)) ∙ top_value;
    }
