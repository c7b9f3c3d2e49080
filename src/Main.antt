-- ===== src/Main.antt =====
-- vadm.c: the main program, from the loading of the program to its end.
pub mod Runs
pub mod Ends
mod Tests
use Prim.Native.String.{String}
use vadm.Base.{ℕ, ◌==◌, Bool, true, false, if◌then◌else◌, Option, none, some, List}
use vadm.Base.Bytes.{Memory}
use vadm.Base.Outcome.{Outcome, returns, fault}
use vadm.TlCache.{TranslationCache, NodePointer, tc_init}
use vadm.Translate.State.{Machine}
use vadm.Translate.Setup.{setup_tu}
use vadm.Execute.{FuncInfo, lib_base_start_address}
use vadm.Execute.Process.{Process, Fork, Status, Ended, returned, runs_guest, exec_program}
use vadm.Loader.State.{Load, continues, refused, fault, out_of_fuel, Image, BlockTypes, Loader}
use vadm.Loader.{load_program}

-- How the program ends: `main` returns, or, in the child, the code at an address is called. The last two
-- are what C leaves undefined, and the fuel of the model.
pub data Exit : Type 0 where
  exits : ℕ → Exit
  calls_guest : ℕ → Process → Exit
  undefined : Exit
  fuel_spent : Exit

abbrev pub after_exec : ℕ → Outcome (Ended × Process) → Exit
after_exec p_x86_code_addr (returns (returned true, s)) = exits 0
after_exec p_x86_code_addr (returns (returned false, s)) = exits 1
after_exec p_x86_code_addr (returns (runs_guest, s)) = calls_guest p_x86_code_addr s
after_exec p_x86_code_addr fault = undefined

-- The static variables before the first translation.
abbrev pub first_machine : Memory → TranslationCache → Machine
first_machine m cache = record {
  memory = m;
  tlcache = cache;
  opc_info_lookup_tbl = λ opcode. none;
  initialized = false;
}

module _ (log_func_name_addr : ℕ) (string_addr : String → ℕ) (nargs₀ regnum₀ : ℕ)
    (dlopen : List ℕ → Option ℕ) (dlsym : ℕ → String → Option (List FuncInfo))
    (mmap : ℕ → ℕ → Memory → Option Memory) (types : BlockTypes) (stale_last_hnum : ℕ → ℕ)
    (malloc : ℕ → Bool) (left right : NodePointer) (code_mapping : Option ℕ)
    (translate_tu_addr : ℕ) where
  -- From the result of `setup_tu` on.
  abbrev pub after_setup : Fork → Status → Outcome (Option ℕ × Machine) → Exit
  after_setup pid status (returns (none, s)) = exits 1
  after_setup pid status (returns (some p_x86_code_addr, s)) = after_exec p_x86_code_addr (
      exec_program log_func_name_addr string_addr nargs₀ regnum₀ dlopen dlsym mmap pid status
        (record { memory = s.memory; p_lib_base = lib_base_start_address }))
  after_setup pid status fault = undefined

  -- `main` goes on where `tc_init` has returned NULL.
  abbrev pub after_init : Fork → Status → Memory → ℕ → Option TranslationCache → Exit
  after_init pid status m p_m68k_code_addr none = undefined
  after_init pid status m p_m68k_code_addr (some cache) =
      after_setup pid status
        (setup_tu malloc translate_tu_addr p_m68k_code_addr (first_machine m cache))

  -- A file without code leaves the address as it is, which no one has set.
  abbrev pub after_code : Fork → Status → Memory → Option (ℕ × ℕ) → Exit
  after_code pid status m none = undefined
  after_code pid status m (some (p_m68k_code_addr, m68k_code_size)) =
      after_init pid status m p_m68k_code_addr (tc_init malloc left right code_mapping)

  abbrev pub after_load : Fork → Status → Load Loader → Exit
  after_load pid status (continues s) = after_code pid status s.memory s.code
  after_load pid status refused = exits 1
  after_load pid status fault = undefined
  after_load pid status out_of_fuel = fuel_spent

  unfoldable pub main : ℕ → ℕ → Bool → Option Image → Bool → Fork → Status → Memory → Exit
  main argc fuel installed opened restored pid status m =
      if argc == 2
      then after_load pid status
          (load_program types mmap stale_last_hnum fuel installed opened restored m)
      else exits 1
