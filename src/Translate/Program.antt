-- ===== src/Translate/Program.antt =====
-- The instructions of a unit as the 680x0 reads them, and the translation of the whole unit.
use vadm.Base.{ℕ, suc, ◌%◌, ◌^◌, ◌<◌, ◌≡◌, ◌≢◌, refl, Bool, true, some, sign_extend}
use vadm.X86.{Instruction}
use vadm.X86.Machine.{Processor}
use vadm.Translate.State.{tst_32, subq_32, movea, moveq, move, Machine, State}
use vadm.Translate.Operand.{read_word}
use vadm.Translate.Handlers.{m68k_moveq, m68k_subq_32, m68k_tst_32, m68k_move, m68k_movea}
use vadm.Translate.Fields.{ea_field, reg_field, size_field, move_size_field}
use vadm.Translate.Opcodes.{classify}
use vadm.Translate.Moves.{MovesAs, MovesAddressAs}
use vadm.Translate.Unit.{Uninitialized, call_handler}
use vadm.Translate.Runs.{opcode_at, behind}
use vadm.Translate.Meaning.{M68k, set_data, flag_kept, tells_zero}
use vadm.Translate.Simulation.{
  difference, m68k_moveq-Simulates, m68k_subq_32-Simulates, m68k_tst_32-Simulates,
}
use vadm.Translate.Simulation.Moves.{
  move_meaning, has_word, movea_meaning, m68k_move-Simulates, m68k_movea-Simulates,
}
use vadm.Translate.Steps.{Translated, Steps, done, then_next}

-- At the input position stands one of the instructions that are translated to code that the program
-- does not leave; with its meaning, and what becomes of the zero flag. Left out are SUBQ of 8 and 16-bit
-- addresses from 2^15 on, which the handlers take for something else than the 680x0 does.
pub data IsInstruction (s : State) : (M68k → M68k) → (M68k → ℕ → ℕ) → Type 0 where
  is_moveq :
      classify (opcode_at s) ≡ some moveq
      → IsInstruction s
          (set_data (reg_field (opcode_at s)) (sign_extend 8 32 (opcode_at s % 2 ^ 8)))
          flag_kept
  is_subq :
      classify (opcode_at s) ≡ some subq_32
      → size_field (opcode_at s) ≡ 2
      → ea_field (opcode_at s) < 8
      → reg_field (opcode_at s) ≢ 0
      → IsInstruction s
          (λ r. set_data (ea_field (opcode_at s)) (difference (opcode_at s) r) r)
          (tells_zero (difference (opcode_at s)))
  is_tst :
      classify (opcode_at s) ≡ some tst_32
      → size_field (opcode_at s) ≡ 2
      → ea_field (opcode_at s) < 8
      → IsInstruction s (λ r. r) (tells_zero (λ r. r.d (ea_field (opcode_at s))))
  is_move :
      {p nbytes size : ℕ} {i : Instruction}
      → classify (opcode_at s) ≡ some move
      → move_size_field (opcode_at s) ≡ 2
      → (moves : MovesAs (behind s) (opcode_at s) p nbytes i size)
      → (has_word (behind s) (opcode_at s) moves ≡ true
          → read_word s.memory (behind s).inpos < 2 ^ 15)
      → IsInstruction s (move_meaning (behind s) (opcode_at s) moves) flag_kept
  is_movea :
      {p nbytes size : ℕ} {i : Instruction}
      → classify (opcode_at s) ≡ some movea
      → move_size_field (opcode_at s) ≡ 2
      → (moves : MovesAddressAs (behind s) (opcode_at s) p nbytes i size)
      → (ea_field (opcode_at s) ≡ 0x38 → read_word s.memory (behind s).inpos < 2 ^ 15)
      → IsInstruction s (movea_meaning (behind s) (opcode_at s) moves) flag_kept

module _ (call : ℕ → Processor → Processor) (flags_of : ℕ → Processor → ℕ) (malloc : ℕ → Bool)
    (translate_tu_addr : ℕ) (u : Uninitialized) where
  unfoldable pub translated :
      (s : State) (f : M68k → M68k) (z : M68k → ℕ → ℕ)
      → opcode_at s < 2 ^ 16
      → IsInstruction s f z
      → Translated call flags_of malloc translate_tu_addr u s f z
  unfolding call_handler
  translated s _ _ word (is_moveq c) = record {
    handler = moveq;
    position = (behind s).inpos;
    nbytes = 0;
    result = m68k_moveq (opcode_at s) (behind s);
    word = word;
    known = c;
    goes_on = refl;
    called = refl;
    simulates = m68k_moveq-Simulates call flags_of (opcode_at s) (behind s);
  }
  translated s _ _ word (is_subq c long is_dreg nonzero) = record {
    handler = subq_32;
    position = (behind s).inpos;
    nbytes = 0;
    result = m68k_subq_32 (u.first (behind s).inpos) (opcode_at s) (behind s);
    word = word;
    known = c;
    goes_on = refl;
    called = refl;
    simulates =
        m68k_subq_32-Simulates call flags_of (u.first (behind s).inpos) (opcode_at s) (behind s)
          long is_dreg nonzero;
  }
  translated s _ _ word (is_tst c long is_dreg) = record {
    handler = tst_32;
    position = (behind s).inpos;
    nbytes = 0;
    result = m68k_tst_32 (u.first (behind s).inpos) (opcode_at s) (behind s);
    word = word;
    known = c;
    goes_on = refl;
    called = refl;
    simulates =
        m68k_tst_32-Simulates call flags_of (u.first (behind s).inpos) (opcode_at s) (behind s) long
          is_dreg;
  }
  translated s _ _ word (is_move {p} {nbytes} {size} {i} c long moves positive) = record {
    handler = move;
    position = p;
    nbytes = nbytes;
    result =
        m68k_move (u.first (behind s).inpos) (u.second (behind s).inpos) (opcode_at s) (behind s);
    word = word;
    known = c;
    goes_on = refl;
    called = refl;
    simulates =
        m68k_move-Simulates call flags_of (behind s) (opcode_at s) (u.first (behind s).inpos)
          (u.second (behind s).inpos) p nbytes size i long moves positive;
  }
  translated s _ _ word (is_movea {p} {nbytes} {size} {i} c long moves positive) = record {
    handler = movea;
    position = p;
    nbytes = nbytes;
    result = m68k_movea (u.first (behind s).inpos) (opcode_at s) (behind s);
    word = word;
    known = c;
    goes_on = refl;
    called = refl;
    simulates =
        m68k_movea-Simulates call flags_of (behind s) (opcode_at s) (u.first (behind s).inpos) p
          nbytes size i long moves positive;
  }

  -- Instructions one behind the other, the state of the translation before the first one, what
  -- they mean together, and what becomes of the zero flag. Each state is the one that the handler of
  -- the instruction before leaves.
  pub data IsProgram (after : State) : ℕ → State → (M68k → M68k) → (M68k → ℕ → ℕ) → Type 0 where
    empty : IsProgram after 0 after (λ r. r) flag_kept
    instruction :
        {n : ℕ} {s : State} {f g : M68k → M68k} {z z' : M68k → ℕ → ℕ} (word : opcode_at s < 2 ^ 16)
        (i : IsInstruction s f z)
        → IsProgram after n (translated s f z word i).result.1 g z'
        → IsProgram after (suc n) s (λ r. g (f r)) (λ r b. z' (f r) (z r b))

  pub IsProgram-Steps :
      (after s : State) (n : ℕ) (f : M68k → M68k) (z : M68k → ℕ → ℕ)
      → IsProgram after n s f z
      → Steps call flags_of malloc translate_tu_addr u after n s f z
  IsProgram-Steps after s n f z empty = done
  IsProgram-Steps after s _ _ _ (instruction {n} {f} {g} {z} {z'} word i rest) =
      then_next (translated s f z word i)
        (IsProgram-Steps after (translated s f z word i).result.1 n g z' rest)
