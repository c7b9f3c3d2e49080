-- ===== src/Translate/Setup.antt =====
-- translate.c: `setup_tu`, which puts down a stub for a translation unit. `malloc` is as in the
-- cache, and `translate_tu_addr` is the address of the compiled function `translate_tu`.
use vadm.Base.{ℕ, ◌+◌, ◌&&◌, Bool, true, false, Option, none, some, ltb, leb, if◌then◌else◌, u64}
use vadm.Base.Bytes.{Memory, Out}
use vadm.Base.Outcome.{Outcome, returns, ◌>>=◌}
use vadm.Codegen.Opcode
use vadm.Codegen.Register
use vadm.Codegen.{
  emit_save_program_state, emit_move_imm_to_reg, emit_abs_call_to_func, emit_restore_program_state,
  mode_64,
}
use vadm.TlCache.{
  TranslationCache, tc_get_addr, tc_get_code_block, tc_put_addr, max_code_block_size,
}
use vadm.Translate.State.{Machine}

-- memset(p, v, n)
abbrev pub memset : ℕ → ℕ → ℕ → Memory → Memory
memset p v n m q = if leb p q && ltb q (p + n) then v else m q

module _ (translate_tu_addr : ℕ) where
  -- The code that calls `translate_tu` with the address of the unit.
  unfoldable pub emit_stub : ℕ → Out → Out
  emit_stub p_m68k_code p_pos =
      let p₁ : Out = emit_save_program_state p_pos in
      let p₂ : Out = emit_move_imm_to_reg p₁ (u64 p_m68k_code) Register.rdi mode_64 in
      let p₃ : Out = emit_abs_call_to_func p₂ translate_tu_addr in emit_restore_program_state p₃

  -- A block that is full of NOPs, with the code at its beginning.
  unfoldable pub write_stub : ℕ → ℕ → Memory → Memory
  write_stub p_m68k_code p_x86_code m =
      let filled : Memory = memset p_x86_code Opcode.nop max_code_block_size m in
      let o : Out = emit_stub p_m68k_code (record { mem = filled; pos = p_x86_code }) in o.mem

module _ (malloc : ℕ → Bool) (translate_tu_addr : ℕ) where
  -- `tc_put_addr` has returned `done`.
  abbrev pub after_put : ℕ → ℕ → Machine → Bool × TranslationCache → Option ℕ × Machine
  after_put p_m68k_code p_x86_code s (true, cache) = (
    some p_x86_code,
    record s {
      memory = write_stub translate_tu_addr p_m68k_code p_x86_code s.memory;
      tlcache = cache;
    },
  )
  after_put p_m68k_code p_x86_code s (false, cache) = (none, record s { tlcache = cache })

  -- `tc_get_code_block` has returned a block or NULL.
  abbrev pub after_block : ℕ → Machine → Option ℕ × TranslationCache → Outcome (Option ℕ × Machine)
  after_block p_m68k_code s (none, cache) = returns (none, record s { tlcache = cache })
  after_block p_m68k_code s (some p_x86_code, cache) = do
    put ← tc_put_addr malloc cache p_m68k_code p_x86_code
    returns (after_put p_m68k_code p_x86_code s put)

  -- `tc_get_addr` has found an address or NULL.
  abbrev pub after_get : ℕ → Machine → Option ℕ → Outcome (Option ℕ × Machine)
  after_get p_m68k_code s (some p_x86_code) = returns (some p_x86_code, s)
  after_get p_m68k_code s none = after_block p_m68k_code s (tc_get_code_block s.tlcache)

  -- The address of the code for the unit, or NULL.
  unfoldable pub setup_tu : ℕ → Machine → Outcome (Option ℕ × Machine)
  setup_tu p_m68k_code s = do
    found ← tc_get_addr s.tlcache p_m68k_code
    after_get p_m68k_code s found
