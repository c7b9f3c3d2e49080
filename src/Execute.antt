-- ===== src/Execute.antt =====
-- execute.c and execute.h: the thunks and jump tables through which the guest calls the functions of a
-- library, and the start of the program. Outside the program: `dlopen`, `dlsym`, `mmap`, `fork`, `wait`
-- and the addresses of the strings and of the compiled functions.
pub mod Text
pub mod Moves
pub mod Arguments
pub mod Thunk
pub mod Running
pub mod Calling
pub mod Entries
pub mod JumpTable
pub mod Process
pub mod Library
pub mod Loading
pub mod Ending
pub mod Reaching
pub mod Pages
mod Tests
use Prim.Native.String.{String}
use vadm.Base.{
  ℕ, zero, suc, ◌+◌, ◌-◌, ◌^◌, Bool, true, false, Option, none, some, List, [], ◌∷◌, ◌==◌,
  if◌then◌else◌, get_elem?, length, u32, u64,
}
use vadm.Base.Bytes.{Memory, Out, store, write_byte, write_dword}
use vadm.Base.Outcome.{Outcome, returns, fault, ◌>>=◌}
use vadm.Codegen.Opcode
use vadm.Codegen.Register
use vadm.Codegen.Register.{x86_reg_for_m68k_reg, x86_regs_for_func_args}
use vadm.Codegen.{
  emit_move_imm_to_reg, emit_move_reg_to_reg, emit_abs_call_to_func, emit_save_program_state,
  emit_restore_program_state, emit_save_amigaos_registers, emit_restore_amigaos_registers, mode_32,
  mode_64,
}
use Text.{codes, text_at, scan_digit}

abbrev pub lib_base_start_address : ℕ
lib_base_start_address = 0x00200000

abbrev pub lib_jump_tbl_size : ℕ
lib_jump_tbl_size = 0x10000

-- `p_func` is the address of the function, or NULL.
pub record FuncInfo : Type 0 where
  pub offset : ℕ
  pub p_name : String
  pub p_arg_regs : String
  pub p_func : Option ℕ

-- An element of an array, inside its bounds.
unfoldable pub element : List ℕ → ℕ → Outcome ℕ
element xs i = elim (get_elem? xs i) [ none ↦ fault | some x ↦ returns x ]

-- `sscanf(p + i, "%1hhx", &v)`.
unfoldable pub scan_at : List ℕ → ℕ → ℕ → Outcome ℕ
scan_at text i v = elim (text_at text i) [ none ↦ fault | some rest ↦ returns (scan_digit rest v) ]

-- One round of the loop over the arguments; `regnum` stays as it is where nothing is scanned.
unfoldable pub arg_round : ℕ → ℕ → List ℕ → ℕ → Out → Outcome (ℕ × Out)
arg_round argnum nargs text regnum p_pos = do
  regnum' ← scan_at text argnum regnum
  src ← element x86_reg_for_m68k_reg regnum'
  dst ← element x86_regs_for_func_args (nargs - argnum - 1)
  returns (regnum', emit_move_reg_to_reg p_pos src dst mode_32)

-- The loop, with the rounds that are left.
unfoldable pub arg_loop : ℕ → ℕ → ℕ → List ℕ → ℕ → Out → Outcome (ℕ × Out)
arg_loop zero argnum nargs text regnum p_pos = returns (regnum, p_pos)
arg_loop (suc left) argnum nargs text regnum p_pos =
    arg_round argnum nargs text regnum p_pos >>= λ (regnum', p').
    arg_loop left (argnum + 1) nargs text regnum' p'

-- `p + strlen(p) - 1`, the last character.
abbrev pub last_index : List ℕ → Outcome ℕ
last_index [] = fault
last_index (c ∷ text) = returns (length text)

-- `nargs₀` and `regnum₀` are what the variables hold before anything is scanned.
module _ (log_func_name_addr : ℕ) (string_addr : String → ℕ) (nargs₀ regnum₀ : ℕ) where
  unfoldable pub emit_call_to_log_func_name : Out → String → Out
  emit_call_to_log_func_name p_pos p_func_name =
      let p₁ : Out =
        emit_move_imm_to_reg p_pos (u64 (string_addr p_func_name)) Register.rdi mode_64 in
      emit_abs_call_to_func p₁ log_func_name_addr

  -- The first part of a thunk: the name of the function is logged.
  unfoldable pub emit_logging : Out → String → Out
  emit_logging p_pos p_func_name =
      let p₁ : Out = emit_save_program_state p_pos in
      let p₂ : Out = emit_call_to_log_func_name p₁ p_func_name in
      emit_save_amigaos_registers (emit_restore_program_state p₂)

  -- The last part: the call, the move of the result, and the return.
  unfoldable pub emit_call_and_return : Out → ℕ → ℕ → Out
  emit_call_and_return p_pos p_func regnum =
      let p₁ : Out = emit_abs_call_to_func p_pos p_func in
      let p₂ : Out = emit_move_reg_to_reg p₁ Register.rax regnum mode_32 in
      write_byte Opcode.ret (emit_restore_amigaos_registers p₂)

  unfoldable pub emit_thunk_for_func : Out → String → ℕ → String → Outcome Out
  emit_thunk_for_func p_pos p_func_name p_func p_arg_regs =
      let text : List ℕ = codes p_arg_regs in
      do
        last ← last_index text
        nargs ← scan_at text last nargs₀
        (regnum, p₁) ← arg_loop nargs 0 nargs text regnum₀ (emit_logging p_pos p_func_name)
        regnum' ← scan_at text nargs regnum
        returns (emit_call_and_return p₁ p_func regnum')

  -- The entry in the first table, and for an implemented function the thunk in the second; the
  -- position behind the thunk is returned.
  abbrev pub setup_entry : ℕ → FuncInfo → Option ℕ → Out → Outcome Out
  setup_entry p_entry_in_1st pfi none p =
      returns (record { mem = store p_entry_in_1st Opcode.int_3 p.mem; pos = p.pos })
  setup_entry p_entry_in_1st pfi (some p_func) p =
      let jump : Out =
        write_dword (u32 (u64 (p.pos + 2 ^ 64 - u64 (p_entry_in_1st + 5))))
          (write_byte Opcode.jmp_rel32 (record { mem = p.mem; pos = p_entry_in_1st })) in
      emit_thunk_for_func (record { mem = jump.mem; pos = p.pos }) pfi.p_name p_func pfi.p_arg_regs

  -- The loop over the table, which ends at an entry with offset 0.
  unfoldable pub jump_table_loop : ℕ → List FuncInfo → Out → Outcome Out
  jump_table_loop p_lib_base [] p = fault
  jump_table_loop p_lib_base (pfi ∷ rest) p =
      if pfi.offset == 0
      then returns p
      else (setup_entry (p_lib_base + lib_jump_tbl_size - pfi.offset) pfi pfi.p_func p
          >>= jump_table_loop p_lib_base rest)

  unfoldable pub setup_jump_tables : ℕ → List FuncInfo → Memory → Outcome Memory
  setup_jump_tables p_lib_base p_func_info_tbl m = do
    p ← jump_table_loop p_lib_base p_func_info_tbl (record { mem = m; pos = p_lib_base })
    returns p.mem
