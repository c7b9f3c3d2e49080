-- ===== src/Execute/Ending.antt =====
-- How `exec_program` ends, by what `fork` and `wait` return.
use Prim.Native.String.{String}
use vadm.Base.{ℕ, ◌+◌, ◌<◌, ◌≤◌, ◌≡◌, ◌⊎◌, true, false, Option, some, List, ◌∷◌, All, u32}
use vadm.Base.Bytes.{Memory, read_bytes, le32}
use vadm.Base.Outcome.{returns}
use vadm.Translate.Handlers.{abs_exec_base}
use vadm.Execute.Text.{codes}
use vadm.Execute.{FuncInfo, lib_jump_tbl_size}
use vadm.Execute.Process.{
  page_size, Process, Fork, child, failed, parent, Status, signaled, exited, unknown, Ended,
  returned, runs_guest, after_fork, exec_program,
}
use vadm.Execute.Library.{IsMapping, Library, IsLibrary}
use vadm.Execute.Loading.{IsLoaded, exec_program_lem}

-- The child calls the guest's code. The parent returns true if the guest has exited, with whatever
-- status, and false if a signal has ended it, if its status is unknown, or if there is no child.
pub data EndsAs : Fork → Status → Ended → Type 0 where
  in_child : {status : Status} → EndsAs child status runs_guest
  without_child : {status : Status} → EndsAs failed status (returned false)
  guest_exited : {pid code : ℕ} → EndsAs (parent pid) (exited code) (returned true)
  guest_killed : {pid signal : ℕ} → EndsAs (parent pid) (signaled signal) (returned false)
  guest_unknown : {pid status : ℕ} → EndsAs (parent pid) (unknown status) (returned false)

after_fork-EndsAs : (pid : Fork) (status : Status) → EndsAs pid status (after_fork pid status)
after_fork-EndsAs child status = in_child
after_fork-EndsAs failed status = without_child
after_fork-EndsAs (parent pid) (signaled signal) = guest_killed
after_fork-EndsAs (parent pid) (exited code) = guest_exited
after_fork-EndsAs (parent pid) (unknown status) = guest_unknown

module _ (log_func_name_addr : ℕ) (string_addr : String → ℕ) (nargs₀ regnum₀ : ℕ)
    (dlopen : List ℕ → Option ℕ) (dlsym : ℕ → String → Option (List FuncInfo))
    (mmap : ℕ → ℕ → Memory → Option Memory) where
  -- When the system calls succeed, the table of the Exec library is well formed, its thunks fit below
  -- its entries, and its memory lies below `ABS_EXEC_BASE`, `exec_program` ends in this way: in the
  -- child it calls the guest's code; in the parent it returns true if the guest has exited, and false
  -- if a signal has ended it or its status is unknown; and it returns false if `fork` has failed. The
  -- Exec library is then loaded, so is each library that was loaded before, and at `ABS_EXEC_BASE`
  -- stands the base of the Exec library. Beside the tables and the page of `ABS_EXEC_BASE` the memory
  -- is as it was.
  pub exec_program-EndsAs :
      (pid : Fork) (status : Status) (s : Process) (lh : ℕ) (table : List FuncInfo) (limit size : ℕ)
      (m : Memory) (libs : List Library)
      → IsMapping mmap
      → dlopen (codes "libs/libexec.so") ≡ some lh
      → dlsym lh "g_func_info_tbl" ≡ some table
      → IsLibrary (record { p_tables = s.p_lib_base; table = table; limit = limit; size = size })
      → mmap s.p_lib_base lib_jump_tbl_size s.memory ≡ some m
      → ((m₁ : Memory) → (m₂ : Memory) × (mmap abs_exec_base 4 m₁ ≡ some m₂))
      → s.p_lib_base + lib_jump_tbl_size ≤ abs_exec_base
      → All (IsLoaded log_func_name_addr string_addr nargs₀ regnum₀ s) libs
      → (ended : Ended) × (after : Process) × (exec_program log_func_name_addr string_addr nargs₀
            regnum₀ dlopen dlsym mmap pid status s
          ≡ returns (ended, after))
        × EndsAs pid status ended
        × All
            (IsLoaded log_func_name_addr string_addr nargs₀ regnum₀ after)
            (record { p_tables = s.p_lib_base; table = table; limit = limit; size = size } ∷ libs)
        × (read_bytes after.memory abs_exec_base 4 ≡ le32 (u32 (s.p_lib_base + lib_jump_tbl_size)))
        × ((q : ℕ)
            → (q < s.p_lib_base) ⊎ (s.p_lib_base + lib_jump_tbl_size ≤ q)
            → (q < abs_exec_base) ⊎ (abs_exec_base + page_size ≤ q)
            → after.memory q ≡ s.memory q)
  exec_program-EndsAs pid status s lh table limit size m libs mapping opened found library mapped
        page low loaded =
      let (after, done, all_loaded, stored, beside) =
        exec_program_lem log_func_name_addr string_addr nargs₀ regnum₀ dlopen dlsym mmap pid status
          s lh table limit size m libs mapping opened found library mapped page low loaded in
      (
        after_fork pid status,
        record { memory = after; p_lib_base = s.p_lib_base + lib_jump_tbl_size },
        done,
        after_fork-EndsAs pid status,
        all_loaded,
        stored,
        beside,
      )
