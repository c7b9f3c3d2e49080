-- ===== src/Execute/Calling.antt =====
-- The thunk of a library function, from the function's name and signature to the execution.
use Prim.Native.String.{String}
use vadm.Base.{ℕ, ◌+◌, ◌^◌, ◌<◌, ◌≤◌, ◌≡◌, true, false, List, ◌∷◌, All, u64}
use vadm.X86.Machine.{Processor, rsp_of, contains}
use vadm.Codegen.Encoding.{hardware}
use vadm.Codegen.Stub.{saved_registers}
use vadm.Codegen.Calls.{KeepsConvention}
use vadm.Execute.Text.{codes}
use vadm.Execute.Moves.{IsSignature}
use vadm.Execute.Arguments.{is_unclobbered}
use vadm.Execute.Thunk.{IsThunk, thunk_listing, thunk_size, emit_thunk_for_func-IsThunk}
use vadm.Execute.Running.{RunsAsFunction, thunk-RunsAsFunction}

-- For a signature of at most six arguments, of which none is in A7, and none of whose moves overwrites
-- a register that a later one reads, and with a result neither in A7 nor in a register that the thunk
-- restores: `emit_thunk_for_func` returns, and what it writes is code that, executed, calls the C
-- function with RSP on a 16-byte boundary and each argument in the register of the calling
-- convention, with the low 32 bits of its 680x0 register; then it returns to its caller with the low 32
-- bits of EAX in the result's register, and with RSP, the stack above it, and all registers but those
-- of D0, D1, A0, A1 and the result as they were. The logging function and the C function keep to the
-- calling convention, the values of the state fit in 64 bits, and there are 104 bytes of stack.
pub emit_thunk_for_func-RunsAsFunction :
    (call : ℕ → Processor → Processor) (flags_of : ℕ → Processor → ℕ) (log_func_name_addr : ℕ)
    (string_addr : String → ℕ) (nargs₀ regnum₀ : ℕ) (name : String) (p_func : ℕ)
    (p_arg_regs : String) (args : List ℕ) (result stack_top : ℕ) (m : Processor)
    → IsSignature (codes p_arg_regs) args result
    → All (λ d. d < 15) args
    → is_unclobbered args ≡ true
    → contains (4 ∷ saved_registers) (hardware result) ≡ false
    → KeepsConvention call (u64 log_func_name_addr) stack_top
    → KeepsConvention call (u64 p_func) stack_top
    → ((q : ℕ) → m.regs q < 2 ^ 64)
    → m.flags < 2 ^ 64
    → 104 ≤ rsp_of m
    → rsp_of m + 8 ≤ stack_top
    → rsp_of m + 8 < 2 ^ 64
    → IsThunk log_func_name_addr string_addr nargs₀ regnum₀ name p_func p_arg_regs
        (thunk_listing log_func_name_addr (string_addr name) p_func args result)
        (thunk_size args result)
      × RunsAsFunction call flags_of log_func_name_addr
          (string_addr name)
          p_func
          stack_top
          args
          result
          m
          (thunk_listing log_func_name_addr (string_addr name) p_func args result)
emit_thunk_for_func-RunsAsFunction call flags_of log_func_name_addr string_addr nargs₀ regnum₀ name
      p_func p_arg_regs args result stack_top m signature not_a7 unclobbered returnable log_keeps
      keeps words flags_word room top word =
    (
      emit_thunk_for_func-IsThunk log_func_name_addr string_addr nargs₀ regnum₀ name p_func
          p_arg_regs args result signature,
      thunk-RunsAsFunction call flags_of log_func_name_addr (string_addr name) p_func stack_top args
          result m log_keeps keeps words flags_word room top word signature.few not_a7 unclobbered
          returnable,
    )
