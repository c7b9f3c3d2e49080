-- ===== src/Libs/Start.antt =====
-- The start of the program together with the opening of the DOS library.
use Prim.Native.String.{String}
use vadm.Base.{ℕ, ◌+◌, ◌%◌, ◌≡◌, refl, ◌∙◌, arith, inr, Option, some, List, [], ◌∷◌}
use vadm.Base.Bytes.{Memory, read_bytes, read_bytes_ext, le32}
use vadm.Base.Outcome.{Outcome, returns}
use vadm.Translate.Handlers.{abs_exec_base}
use vadm.Execute.Text.{codes}
use vadm.Execute.{FuncInfo, lib_base_start_address, lib_jump_tbl_size}
use vadm.Execute.Process.{Process, Fork, Status, after_fork, load_library, exec_program, page_size}
use vadm.Execute.Library.{IsMapping, Library, IsLibrary}
use vadm.Execute.Loading.{IsLoaded, load_library-IsLoaded, exec_program_lem}
use vadm.Libs.Dos
use vadm.Libs.Exec
use vadm.Libs.Tables.{Dos-IsTable, Exec-IsTable}
use vadm.Libs.Open.{exec_open_library, exec_open_library_lem}

-- The process with the tables of both libraries.
abbrev pub opened : Memory → Process
opened m = record { memory = m; p_lib_base = 0x220000 }

module _ (log_func_name_addr : ℕ) (string_addr : String → ℕ) (nargs₀ regnum₀ : ℕ)
    (dlopen : List ℕ → Option ℕ) (dlsym : ℕ → String → Option (List FuncInfo))
    (mmap : ℕ → ℕ → Memory → Option Memory)
    (exec_close_library exec_open_library_addr dos_put_str : ℕ) where
  -- The libraries that the program has: the Exec library and the DOS library, one after the other.
  abbrev pub exec_library : Library
  exec_library = record {
    p_tables = lib_base_start_address;
    table = Exec.g_func_info_tbl exec_close_library exec_open_library_addr;
    limit = 906;
    size = (Exec-IsTable exec_close_library exec_open_library_addr).0;
  }

  abbrev pub dos_library : Library
  dos_library = record {
    p_tables = lib_base_start_address + lib_jump_tbl_size;
    table = Dos.g_func_info_tbl dos_put_str;
    limit = 996;
    size = (Dos-IsTable dos_put_str).0;
  }

  abbrev load : List ℕ → Process → Outcome (Option ℕ × Process)
  load path s = load_library log_func_name_addr string_addr nargs₀ regnum₀ dlopen dlsym mmap path s

  Exec-IsLibrary : IsLibrary exec_library
  Exec-IsLibrary =
      let (size, t, small) = Exec-IsTable exec_close_library exec_open_library_addr in
      record { formed = t; fits = omega (arith, small) }

  Dos-IsLibrary : IsLibrary dos_library
  Dos-IsLibrary =
      let (size, t, small) = Dos-IsTable dos_put_str in
      record { formed = t; fits = omega (arith, small) }

  -- The process after the start is loaded, `exec_open_library` is called with the name dos.library, and
  -- the system calls succeed. Then the call returns the base of the DOS library, the entries and
  -- thunks of both libraries are in place, and `ABS_EXEC_BASE` still holds the base of the Exec library.
  pub open_dos_library :
      (pid : Fork) (status : Status) (lib_version : ℕ) (m : Memory) (lh_exec lh_dos : ℕ)
      → IsMapping mmap
      → ((addr len : ℕ) (m₁ : Memory)
          → addr % page_size ≡ 0
          → (m₂ : Memory) × (mmap addr len m₁ ≡ some m₂))
      → dlopen (codes "libs/libexec.so") ≡ some lh_exec
      → dlsym lh_exec "g_func_info_tbl"
        ≡ some (Exec.g_func_info_tbl exec_close_library exec_open_library_addr)
      → dlopen (codes "libs/libdos.so") ≡ some lh_dos
      → dlsym lh_dos "g_func_info_tbl" ≡ some (Dos.g_func_info_tbl dos_put_str)
      → (s : Process) × (after : Memory) × (exec_program log_func_name_addr string_addr nargs₀
            regnum₀ dlopen dlsym mmap pid status
            (record { memory = m; p_lib_base = lib_base_start_address })
          ≡ returns (after_fork pid status, s))
        × (exec_open_library load (codes "dos.library") lib_version s
            ≡ returns (some 0x220000, opened after))
        × IsLoaded log_func_name_addr string_addr nargs₀ regnum₀ (opened after) exec_library
        × IsLoaded log_func_name_addr string_addr nargs₀ regnum₀ (opened after) dos_library
        × (read_bytes after abs_exec_base 4 ≡ le32 0x210000)
  open_dos_library pid status lib_version m lh_exec lh_dos mapping maps exec_opened exec_found
        dos_opened dos_found =
      let start : Process = record { memory = m; p_lib_base = lib_base_start_address } in
      let (m₁, mapped₁) = maps lib_base_start_address lib_jump_tbl_size m refl in
      let (m₂, started, exec_loaded, base_stored, beside) =
        exec_program_lem log_func_name_addr string_addr nargs₀ regnum₀ dlopen dlsym mmap pid status
          start lh_exec exec_library.table exec_library.limit exec_library.size m₁ [] mapping
          exec_opened exec_found Exec-IsLibrary mapped₁ (λ m'. maps abs_exec_base 4 m' refl)
          (omega arith) tt in
      let s : Process = record {
        memory = m₂;
        p_lib_base = lib_base_start_address + lib_jump_tbl_size;
      } in
      let (m₃, mapped₃) = maps s.p_lib_base lib_jump_tbl_size m₂ refl in
      let (m₄, done, (dos, (exec, none_left)), outside) =
        load_library-IsLoaded log_func_name_addr string_addr nargs₀ regnum₀ dlopen dlsym mmap
          (codes "libs/libdos.so") s lh_dos dos_library.table dos_library.limit dos_library.size m₃
          (exec_library ∷ []) mapping dos_opened dos_found Dos-IsLibrary mapped₃ exec_loaded in
      let path_lem =
        exec_open_library_lem load (codes "dos") lib_version s
          (λ e. omega (arith, e), (λ e. omega (arith, e), (λ e. omega (arith, e), tt))) in
      (
        s,
        m₄,
        started,
        path_lem ∙ done,
        exec,
        dos,
        read_bytes_ext 4 m₄ m₂ abs_exec_base (λ q a b. outside q (inr (omega (arith, a))))
            ∙ base_stored,
      )
