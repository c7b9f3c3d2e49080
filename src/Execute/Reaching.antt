-- ===== src/Execute/Reaching.antt =====
-- A call of a library function by translated code: from JSR by the entry in the jump table to the thunk.
use Prim.Native.String.{String}
use mathlib.Core.List.{Memᴰ}
use mathlib.Core.Path.{subst}
use vadm.Base.{
  ℕ, ◌+◌, ◌-◌, ◌^◌, ◌<◌, ◌≤◌, ◌≡◌, refl, sym, ap₂, ◌∙◌, arith, true, false, some, List, [], ◌∷◌,
  ◌++◌, All, length, map, u32, u64, sign_extend,
}
use vadm.Base.Bytes.{Memory, read_bytes}
use vadm.X86.Listing.{Disassembles}
use vadm.X86.{Instruction, jump32}
use vadm.X86.Machine.{Processor, rsp_of, contains, push_value}
use vadm.Codegen.Encoding.{hardware}
use vadm.Codegen.Stub.{saved_registers}
use vadm.Codegen.Calls.{KeepsConvention}
use vadm.Translate.State.{State}
use vadm.Translate.Operand.{Operand, read_word}
use vadm.Translate.Handlers.{m68k_jsr}
use vadm.Translate.Fields.{ea_field}
use vadm.Translate.Register.{Emits}
use vadm.Translate.LibraryCall.{Returns, CallsLibrary, inside_call, m68k_jsr-CallsLibrary}
use vadm.Execute.Text.{codes}
use vadm.Execute.{FuncInfo, lib_jump_tbl_size}
use vadm.Execute.Moves.{hex_digit, IsSignature}
use vadm.Execute.Arguments.{is_unclobbered}
use vadm.Execute.Thunk.{thunk_listing, thunk_size}
use vadm.Execute.Running.{RunsAsFunction, thunk-RunsAsFunction}
use vadm.Execute.Entries.{before_end, IsEntryFor, JumpsToThunk}
use vadm.Execute.Library.{Library}
use vadm.Execute.Loading.{IsLoaded}

All-Mem : {A : Type 0} (P : A → Type 0) (x : A) (xs : List A) → Memᴰ x xs → All P xs → P x
All-Mem P x _ (Memᴰ.head e) h = subst P (sym e) h.0
All-Mem P x _ (Memᴰ.tail m) h = All-Mem P x _ m h.1

hex_digit_injective : (d e : ℕ) → d < 16 → e < 16 → hex_digit d ≡ hex_digit e → d ≡ e
hex_digit_injective d e small small' h = ground (arith, h)

never_empty : (xs : List ℕ) (y : ℕ) (ys : List ℕ) → [] ≡ xs ++ y ∷ ys → ⊥
never_empty [] y ys e = cc
never_empty (x ∷ xs) y ys e = cc

-- A text is the signature of one list of arguments and one result only.
spelled_once :
    (args args' : List ℕ) (r r' n n' : ℕ)
    → All (λ d. d < 16) args
    → All (λ d. d < 16) args'
    → r < 16
    → r' < 16
    → map hex_digit args ++ hex_digit r ∷ n ∷ [] ≡ map hex_digit args' ++ hex_digit r' ∷ n' ∷ []
    → (args ≡ args') × (r ≡ r')
spelled_once [] [] r r' n n' h h' small small' e = (refl, hex_digit_injective r r' small small' cc)
spelled_once [] (d ∷ []) r r' n n' h h' small small' e = cc
spelled_once [] (d ∷ d' ∷ ds) r r' n n' h h' small small' e =
    let short : [] ≡ map hex_digit ds ++ hex_digit r' ∷ n' ∷ [] = cc in
    absurd (never_empty (map hex_digit ds) (hex_digit r') (n' ∷ []) short)
spelled_once (d ∷ []) [] r r' n n' h h' small small' e = cc
spelled_once (d ∷ d' ∷ ds) [] r r' n n' h h' small small' e =
    let short : [] ≡ map hex_digit ds ++ hex_digit r ∷ n ∷ [] = cc in
    absurd (never_empty (map hex_digit ds) (hex_digit r) (n ∷ []) short)
spelled_once (d ∷ ds) (d' ∷ ds') r r' n n' h h' small small' e =
    let (same, result) = spelled_once ds ds' r r' n n' h.1 h'.1 small small' cc in
    (ap₂ (λ x xs. x ∷ xs) (hex_digit_injective d d' h.0 h'.0 cc) same, result)

-- The state in which the code begins that is called behind a JSR with the given offset, with the address
-- behind the call on the stack.
abbrev pub on_entry :
    (ℕ → Processor → Processor) → (ℕ → Processor → ℕ) → ℕ → Processor → ℕ → Processor
on_entry call flags_of offset cpu ret = push_value ret (inside_call call flags_of offset cpu)

module _ (call : ℕ → Processor → Processor) (flags_of : ℕ → Processor → ℕ) (log_func_name_addr : ℕ)
    (string_addr : String → ℕ) (nargs₀ regnum₀ : ℕ) (lib : Library) (pfi : FuncInfo) (p_func : ℕ)
    (args : List ℕ) (result : ℕ) where
  -- The address of the function's entry in the first table of the library.
  abbrev pub entry_of : ℕ
  entry_of = lib.p_tables + lib_jump_tbl_size - pfi.offset

  abbrev thunk_code : List Instruction
  thunk_code = thunk_listing log_func_name_addr (string_addr pfi.p_name) p_func args result

  -- At the entry stands a jump to a thunk, and the thunk, executed in the given state, calls the function
  -- with the arguments of its signature.
  pub record Reaches (memory : Memory) (stack_top : ℕ) (m : Processor) : Type 0 where
    pub thunk : ℕ
    pub displacement : ℕ
    pub reads_jump : Disassembles (read_bytes memory entry_of 5) (jump32 displacement ∷ []) []
    pub landing : u32 (entry_of + 5 + displacement) ≡ u32 thunk
    pub reads_thunk : Disassembles (read_bytes memory thunk (thunk_size args result)) thunk_code []
    pub runs :
        RunsAsFunction call flags_of log_func_name_addr
          (string_addr pfi.p_name)
          p_func
          stack_top
          args
          result
          m
          thunk_code

  module _ (memory : Memory) (stack_top : ℕ) (m : Processor)
      (runs : RunsAsFunction call flags_of log_func_name_addr
        (string_addr pfi.p_name)
        p_func
        stack_top
        args
        result
        m
        thunk_code)
      (signature : IsSignature (codes pfi.p_arg_regs) args result) where
    entry-Reaches :
        JumpsToThunk log_func_name_addr string_addr nargs₀ regnum₀ lib.p_tables memory pfi p_func
        → Reaches memory stack_top m
    entry-Reaches j =
        let (same_args, same_result) =
          spelled_once j.args args j.result result (hex_digit (length j.args))
            (hex_digit (length args)) j.signature.registers signature.registers
            j.signature.result_register signature.result_register
            (sym j.signature.spelled ∙ signature.spelled) in
        record {
          thunk = j.thunk;
          displacement = j.displacement;
          reads_jump = j.reads_jump;
          landing = j.landing;
          reads_thunk =
              subst
                (λ (r : ℕ).
                  Disassembles (read_bytes memory j.thunk (thunk_size args r))
                    (thunk_listing log_func_name_addr (string_addr pfi.p_name) p_func args r) [])
                same_result
                (subst
                  (λ (a : List ℕ).
                    Disassembles (read_bytes memory j.thunk (thunk_size a j.result))
                      (thunk_listing log_func_name_addr (string_addr pfi.p_name) p_func a j.result)
                      [])
                  same_args j.reads_thunk);
          runs = runs;
        }

  module _ (op : Operand) (opcode : ℕ) (s : State) (cpu : Processor)
      (p_lib_base stack_top ret : ℕ) where
    abbrev displacement_of : ℕ
    displacement_of = sign_extend 16 32 (read_word s.memory s.inpos)

    abbrev entered : Processor
    entered = on_entry call flags_of displacement_of cpu ret

    entry_lem :
        cpu.regs 6 ≡ lib.p_tables + lib_jump_tbl_size
        → lib.p_tables + lib_jump_tbl_size < 2 ^ 32
        → read_word s.memory s.inpos + pfi.offset ≡ 2 ^ 16
        → 0 < pfi.offset
        → pfi.offset ≤ 2 ^ 15
        → u32 (cpu.regs 6 + displacement_of) ≡ entry_of
    entry_lem base low negated positive small = ground (arith, base, low, negated, positive, small)

    -- A library is loaded, A6 holds its base, below 2^32, and the displacement of a JSR d(A6) is minus the
    -- offset, of at most 32768, of an implemented function in the library's table. Then the code that
    -- `m68k_jsr` writes calls the function's entry in the jump tables, where a jump to a thunk stands.
    -- The thunk, executed in the state of that call, calls the C function with the arguments of the
    -- signature as they are in that state, each in the register of the calling convention, and returns
    -- with the result in the register of the signature. No argument of the signature is in A7, none of
    -- the moves overwrites a register that a later one reads, and the result is neither in A7 nor in a
    -- register that the thunk restores. The C function and the logging function keep to the calling
    -- convention, the call at the entry returns with RSP and the top of the stack as they were, the
    -- values of the state fit in 64 bits, and there are 120 bytes of stack.
    pub m68k_jsr-Reaches :
        ea_field opcode ≡ 0x2e
        → cpu.regs 6 ≡ lib.p_tables + lib_jump_tbl_size
        → lib.p_tables + lib_jump_tbl_size < 2 ^ 32
        → read_word s.memory s.inpos + pfi.offset ≡ 2 ^ 16
        → 0 < pfi.offset
        → pfi.offset ≤ 2 ^ 15
        → IsLoaded log_func_name_addr string_addr nargs₀ regnum₀
            (record { memory = cpu.mem; p_lib_base = p_lib_base })
            lib
        → Memᴰ pfi (before_end lib.table)
        → pfi.p_func ≡ some p_func
        → IsSignature (codes pfi.p_arg_regs) args result
        → All (λ d. d < 15) args
        → is_unclobbered args ≡ true
        → contains (4 ∷ saved_registers) (hardware result) ≡ false
        → KeepsConvention call (u64 log_func_name_addr) stack_top
        → KeepsConvention call (u64 p_func) stack_top
        → Returns call entry_of
        → ((q : ℕ) → cpu.regs q < 2 ^ 64)
        → entered.flags < 2 ^ 64
        → 120 ≤ rsp_of cpu
        → rsp_of cpu ≤ stack_top
        → (listing : List Instruction) × Emits s (s.inpos + 2) 2 listing 10 (m68k_jsr op opcode s)
          × CallsLibrary call flags_of displacement_of cpu listing
          × (u32 (cpu.regs 6 + displacement_of) ≡ entry_of)
          × Reaches cpu.mem stack_top entered
    m68k_jsr-Reaches is_a6 base low negated positive small loaded member implemented signature
          not_a7 unclobbered returnable log_keeps keeps comes_back words flags_word room top =
        let at_entry : u32 (cpu.regs 6 + displacement_of) ≡ entry_of =
          entry_lem base low negated positive small in
        let (listing, emits, calls) =
          m68k_jsr-CallsLibrary call flags_of op opcode s cpu is_a6
            (omega (arith, negated, positive)) (subst (Returns call) (sym at_entry) comes_back)
            (words 4) (omega (arith, room)) (words 6) in
        let sp : rsp_of entered ≡ rsp_of cpu - 16 = ground (arith, room, words 4) in
        let entry_words : (q : ℕ) → entered.regs q < 2 ^ 64 = λ q. ground (arith, words q) in
        let is_entry : IsEntryFor log_func_name_addr string_addr nargs₀ regnum₀ lib.p_tables cpu.mem
            pfi (some p_func) =
          subst (IsEntryFor log_func_name_addr string_addr nargs₀ regnum₀ lib.p_tables cpu.mem pfi)
            implemented (All-Mem _ pfi (before_end lib.table) member loaded.entries) in
        (
          listing,
          emits,
          calls,
          at_entry,
          entry-Reaches cpu.mem stack_top entered
              (thunk-RunsAsFunction call flags_of log_func_name_addr (string_addr pfi.p_name) p_func
                stack_top args result entered log_keeps keeps entry_words flags_word
                (omega (arith, sp, room)) (omega (arith, sp, room, top))
                (omega (arith, sp, room, words 4)) signature.few not_a7 unclobbered returnable)
              signature is_entry,
        )
