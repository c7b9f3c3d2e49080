-- ===== src/Execute/Process.antt =====
-- execute.c: the loading of a library, and the start of the guest. Outside the program are `dlopen`,
-- `dlsym`, `mmap`, `fork` and `wait`; their results are parameters.
use Prim.Native.String.{String}
use vadm.Base.{ℕ, ◌+◌, ◌-◌, ◌^◌, Bool, true, false, Option, none, some, List, u32}
use vadm.Base.Bytes.{Memory, Out, write_dword}
use vadm.Base.Outcome.{Outcome, returns, ◌>>=◌}
use vadm.Translate.Handlers.{abs_exec_base}
use vadm.Execute.Text.{codes}
use vadm.Execute.{FuncInfo, lib_jump_tbl_size, setup_jump_tables}

-- The memory of the process, and the static variable of `load_library`.
pub record Process : Type 0 where
  pub memory : Memory
  pub p_lib_base : ℕ

-- `MAP_FAILED`, that is `(void *) -1`.
abbrev pub map_failed : ℕ
map_failed = 2 ^ 64 - 1

abbrev pub page_size : ℕ
page_size = 4096

-- The result of `fork`: 0, -1, or the number of the child.
pub data Fork : Type 0 where
  child : Fork
  failed : Fork
  parent : ℕ → Fork

-- What `wait` stores of the child.
pub data Status : Type 0 where
  signaled : ℕ → Status
  exited : ℕ → Status
  unknown : ℕ → Status

-- How `exec_program` ends: the parent returns; the child calls the guest's code and exits.
pub data Ended : Type 0 where
  returned : Bool → Ended
  runs_guest : Ended

abbrev after_wait : Status → Bool
after_wait (signaled signal) = false
after_wait (exited status) = true
after_wait (unknown status) = false

abbrev pub after_fork : Fork → Status → Ended
after_fork child status = runs_guest
after_fork failed status = returned false
after_fork (parent pid) status = returned (after_wait status)

module _ (log_func_name_addr : ℕ) (string_addr : String → ℕ) (nargs₀ regnum₀ : ℕ)
    (dlopen : List ℕ → Option ℕ) (dlsym : ℕ → String → Option (List FuncInfo))
    (mmap : ℕ → ℕ → Memory → Option Memory) where
  -- From the call of `mmap` on.
  abbrev pub after_mmap : Process → List FuncInfo → Option Memory → Outcome (Option ℕ × Process)
  after_mmap s table none = returns (none, record { memory = s.memory; p_lib_base = map_failed })
  after_mmap s table (some m) = do
    m' ← setup_jump_tables log_func_name_addr string_addr nargs₀ regnum₀ s.p_lib_base table m
    let base : ℕ = s.p_lib_base + lib_jump_tbl_size
    returns (some base, record { memory = m'; p_lib_base = base })

  abbrev pub after_dlsym : Process → Option (List FuncInfo) → Outcome (Option ℕ × Process)
  after_dlsym s none = returns (none, s)
  after_dlsym s (some table) = after_mmap s table (mmap s.p_lib_base lib_jump_tbl_size s.memory)

  abbrev pub after_dlopen : Process → Option ℕ → Outcome (Option ℕ × Process)
  after_dlopen s none = returns (none, s)
  after_dlopen s (some lh) = after_dlsym s (dlsym lh "g_func_info_tbl")

  -- The base of the library is the address behind its jump tables, and none if it is not loaded.
  unfoldable pub load_library : List ℕ → Process → Outcome (Option ℕ × Process)
  load_library p_lib_name s = after_dlopen s (dlopen p_lib_name)

  -- From the mapping at `ABS_EXEC_BASE` on.
  abbrev pub after_exec_base : Fork → Status → ℕ → Process → Option Memory → Ended × Process
  after_exec_base pid status p_exec_base s none = (returned false, s)
  after_exec_base pid status p_exec_base s (some m) =
      let out : Out = write_dword (u32 p_exec_base) (record { mem = m; pos = abs_exec_base }) in
      (after_fork pid status, record { memory = out.mem; p_lib_base = s.p_lib_base })

  abbrev pub after_load : Fork → Status → Option ℕ × Process → Ended × Process
  after_load pid status (none, s) = (returned false, s)
  after_load pid status (some p_exec_base, s) =
      after_exec_base pid status p_exec_base s (mmap abs_exec_base 4 s.memory)

  unfoldable pub exec_program : Fork → Status → Process → Outcome (Ended × Process)
  exec_program pid status s = do
    loaded ← load_library (codes "libs/libexec.so") s
    returns (after_load pid status loaded)
