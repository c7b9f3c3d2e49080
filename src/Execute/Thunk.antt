-- ===== src/Execute/Thunk.antt =====
-- The thunk of a library function: the instructions that `emit_thunk_for_func` writes.
use mathlib.Core.List.{reverse}
use Prim.Native.String.{String}
use vadm.Base.{
  ℕ, ◌+◌, ◌<◌, ◌≡◌, ap, arith, leb, some, List, [], ◌∷◌, ◌++◌, map, length, if◌then◌else◌, u64,
}
use vadm.Base.Bytes.{Out}
use vadm.Base.Outcome.{returns}
use vadm.X86.{Instruction, bits32, bits64, push, pop, pushfq, popfq, mov_reg, mov_imm, ret}
use vadm.X86.Listing.{Generates, ◌▷◌}
use vadm.Codegen.Encoding.{hardware, emit_move_reg_to_reg-Generates, emit_move_imm_to_reg-Generates}
use vadm.Codegen.Stub.{
  saved_registers, state_registers, call_listing, emit_abs_call_to_func-Generates,
  emit_save_amigaos_registers-Generates, emit_restore_amigaos_registers-Generates,
  emit_save_program_state-Generates, emit_restore_program_state-Generates,
}
use vadm.Translate.Listing.{return_code}
use vadm.Execute.Text.{codes, text_at}
use vadm.Execute.{
  last_index, emit_call_to_log_func_name, emit_logging, emit_call_and_return, emit_thunk_for_func,
}
use vadm.Execute.Moves.{
  IsSignature, hex_digit, move_arguments, moves_size, Moves, scan_at_lem, text_at_next,
  arg_loop-Moves, text_at-map, last_index-map,
}

-- The instructions of a thunk: the name of the function is logged with the program's state saved, the
-- registers that AmigaOS preserves are pushed, the arguments are moved, the function is called, its
-- result is moved from EAX, the registers are popped, and the thunk returns.
abbrev pub thunk_listing : ℕ → ℕ → ℕ → List ℕ → ℕ → List Instruction
thunk_listing log_func_name_addr name_addr p_func args result =
    (((map push state_registers ++ pushfq ∷ [])
        ++ mov_imm bits64 7 (u64 (u64 name_addr)) ∷ call_listing log_func_name_addr
        ++ popfq ∷ map pop (reverse state_registers)
        ++ map push saved_registers)
      ++ move_arguments args)
    ++ (call_listing p_func
        ++ mov_reg bits32 0 (hardware result) ∷ map pop (reverse saved_registers)
        ++ ret ∷ [])

abbrev result_move_size : ℕ → ℕ
result_move_size result = if leb 8 result then 2 else 3

abbrev pub thunk_size : List ℕ → ℕ → ℕ
thunk_size args result = 69 + moves_size args + (24 + result_move_size result + 7 + 1)

module _ (log_func_name_addr : ℕ) (string_addr : String → ℕ) (nargs₀ regnum₀ : ℕ) where
  logging :
      (name : String)
      → Generates
          (λ o. emit_logging log_func_name_addr string_addr nargs₀ regnum₀ o name)
          ((map push state_registers ++ pushfq ∷ [])
            ++ mov_imm bits64 7 (u64 (u64 (string_addr name))) ∷ call_listing log_func_name_addr
            ++ popfq ∷ map pop (reverse state_registers)
            ++ map push saved_registers)
          69
  unfolding emit_logging emit_call_to_log_func_name
  logging name =
      emit_save_program_state-Generates
      ▷ emit_move_imm_to_reg-Generates 1 (u64 (string_addr name)) 15 (omega arith) (omega arith)
      ▷ emit_abs_call_to_func-Generates log_func_name_addr
      ▷ emit_restore_program_state-Generates
      ▷ emit_save_amigaos_registers-Generates

  calling :
      (p_func result : ℕ)
      → result < 16
      → Generates
          (λ o. emit_call_and_return log_func_name_addr string_addr nargs₀ regnum₀ o p_func result)
          (call_listing p_func
            ++ mov_reg bits32 0 (hardware result) ∷ map pop (reverse saved_registers)
            ++ ret ∷ [])
          (24 + result_move_size result + 7 + 1)
  unfolding emit_call_and_return
  calling p_func result small =
      emit_abs_call_to_func-Generates p_func
      ▷ emit_move_reg_to_reg-Generates 0 8 result (omega arith) (omega arith) small
      ▷ emit_restore_amigaos_registers-Generates
      ▷ return_code

  -- The call returns, and what it does is to write the listing.
  pub record IsThunk (name : String) (p_func : ℕ) (p_arg_regs : String) (listing : List Instruction)
      (size : ℕ) : Type 0 where
    pub run : Out → Out
    pub result_returns :
        (p : Out)
        → emit_thunk_for_func log_func_name_addr string_addr nargs₀ regnum₀ p name p_func p_arg_regs
          ≡ returns (run p)
    pub generates : Generates run listing size

  module _ (name : String) (p_func : ℕ) (p_arg_regs : String) (args : List ℕ) (result : ℕ)
      (signature : IsSignature (codes p_arg_regs) args result) where
    abbrev text : List ℕ
    text = codes p_arg_regs

    abbrev tail : List ℕ
    tail = hex_digit result ∷ hex_digit (length args) ∷ []

    at_result : text_at text (length args) ≡ some tail
    at_result = rw signature.spelled (text_at-map hex_digit args tail)

    at_number : text_at text (length args + 1) ≡ some (hex_digit (length args) ∷ [])
    at_number =
        text_at_next text (length args) (hex_digit result) (hex_digit (length args) ∷ []) at_result

    last : last_index text ≡ returns (length args + 1)
    last =
        rw signature.spelled
          (last_index-map hex_digit args (hex_digit result) (hex_digit (length args)))

    moves : Moves (length args) 0 (length args) text args regnum₀
    unfolding text_at
    moves =
        arg_loop-Moves args 0 (length args) regnum₀ text tail signature.registers signature.few
          (omega arith) (ap some signature.spelled)

    -- For a name, a function and a signature of at most six arguments, `emit_thunk_for_func` returns,
    -- and writes the thunk.
    pub emit_thunk_for_func-IsThunk :
        IsThunk name p_func p_arg_regs
          (thunk_listing log_func_name_addr (string_addr name) p_func args result)
          (thunk_size args result)
    unfolding emit_thunk_for_func
    emit_thunk_for_func-IsThunk = record {
      run = λ p.
          emit_call_and_return log_func_name_addr string_addr nargs₀ regnum₀
            (moves.run (emit_logging log_func_name_addr string_addr nargs₀ regnum₀ p name)) p_func
            result;
      result_returns = λ p. rw (
        last,
        scan_at_lem text (length args + 1) (length args) nargs₀ [] (omega (arith, signature.few))
            at_number,
        moves.result_returns,
        scan_at_lem text (length args) result moves.scanned (hex_digit (length args) ∷ [])
            signature.result_register at_result,
      );
      generates = logging name ▷ moves.generates ▷ calling p_func result signature.result_register;
    }
