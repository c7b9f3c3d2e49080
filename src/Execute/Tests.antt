-- ===== src/Execute/Tests.antt =====
-- The thunk of `PutStr`, the jump tables and the loading of a small library: the theorems applied.
mod Calls
use Prim.Native.String.{String}
use vadm.Base.{
  ℕ, ◌+◌, ◌≡◌, refl, arith, ◌<◌, ◌≤◌, ◌⊎◌, true, false, Option, none, some, List, [], ◌∷◌, All, u32,
}
use vadm.Base.Bytes.{Memory, read_bytes, le32}
use vadm.Base.Outcome.{returns}
use vadm.Translate.Handlers.{abs_exec_base}
use vadm.Execute.Text.{codes}
use vadm.Execute.{FuncInfo, lib_base_start_address, setup_jump_tables}
use vadm.Execute.Moves.{IsSignature}
use vadm.Execute.Thunk.{IsThunk, thunk_listing, thunk_size}
use vadm.X86.Machine.{contains}
use vadm.Codegen.Encoding.{hardware}
use vadm.Codegen.Stub.{saved_registers}
use vadm.Codegen.Sample.{cpu, stack_top, seven, flags_set, seven-KeepsConvention, cpu_words}
use vadm.Execute.Arguments.{is_unclobbered}
use vadm.Execute.Running.{RunsAsFunction}
use vadm.Execute.Calling.{emit_thunk_for_func-RunsAsFunction}
use vadm.Execute.Entries.{IsTable, end, unimplemented, implemented, before_end, IsEntry, table_end}
use vadm.Execute.JumpTable.{setup_jump_tables_lem}
use vadm.Execute.Process.{page_size, Process, parent, exited, Ended, load_library, exec_program}
use vadm.Execute.Library.{Library, IsLibrary}
use vadm.Execute.Pages.{zeroed, map_pages, map_pages-IsMapping, map_nothing, map_nothing-IsMapping}
use vadm.Execute.Ending.{EndsAs, exec_program-EndsAs}
use vadm.Execute.Loading.{IsLoaded, here, load_library-IsLoaded, load_library_stuck}

-- Where the code of the logging function and the names of the functions stand.
abbrev log : ℕ
log = 0x5555_0000

abbrev name_at : String → ℕ
name_at s = 0x5556_0000

abbrev one_in_d1 : List ℕ
one_in_d1 = 1 ∷ []

signature : IsSignature (codes "101") one_in_d1 0
signature = record {
  spelled = refl;
  registers = (omega arith, tt);
  result_register = omega arith;
  few = omega arith;
}

one_is_unclobbered : is_unclobbered one_in_d1 ≡ true
unfolding is_unclobbered
one_is_unclobbered = refl

d0_is_free : contains (4 ∷ saved_registers) (hardware 0) ≡ false
unfolding contains
d0_is_free = refl

emit_thunk_for_func-RunsAsFunction_example :
    IsThunk log name_at 0 0 "PutStr" 0x5557_0000 "101"
      (thunk_listing log 0x5556_0000 0x5557_0000 one_in_d1 0)
      (thunk_size one_in_d1 0)
    × RunsAsFunction seven flags_set log 0x5556_0000 0x5557_0000 stack_top one_in_d1 0 cpu
        (thunk_listing log 0x5556_0000 0x5557_0000 one_in_d1 0)
emit_thunk_for_func-RunsAsFunction_example =
    emit_thunk_for_func-RunsAsFunction seven flags_set log name_at 0 0 "PutStr" 0x5557_0000 "101"
      one_in_d1 0 stack_top cpu signature (omega arith) one_is_unclobbered d0_is_free
      (seven-KeepsConvention log) (seven-KeepsConvention 0x5557_0000) cpu_words (omega arith)
      (omega arith) (omega arith) (omega arith)

-- A function that is not implemented, one that is, and the end of the table.
abbrev small_table : List FuncInfo
small_table =
    record { offset = 0x1e; p_name = "Open"; p_arg_regs = "2102"; p_func = none }
    ∷ record { offset = 0x3b4; p_name = "PutStr"; p_arg_regs = "101"; p_func = some 0x5557_0000 }
    ∷ record { offset = 0; p_name = ""; p_arg_regs = ""; p_func = none }
    ∷ []

small_table-IsTable : IsTable 1000 1 (thunk_size one_in_d1 0 + 0) small_table
small_table-IsTable = unimplemented refl (omega arith) (omega arith) (omega arith) (
    implemented 0x5557_0000 one_in_d1 0 refl signature (omega arith) (omega arith) (omega arith)
      (end refl))

setup_jump_tables_lem_example :
    (after : Memory) × (setup_jump_tables log name_at 0 0 0x20_0000 small_table (λ q. 0)
      ≡ returns after)
    × All (IsEntry log name_at 0 0 0x20_0000 after) (before_end small_table)
    × ((q : ℕ) → (q < 0x20_0000) ⊎ (table_end log name_at 0 0 0x20_0000 ≤ q) → after q ≡ 0)
setup_jump_tables_lem_example =
    setup_jump_tables_lem log name_at 0 0 0x20_0000 1000 (thunk_size one_in_d1 0 + 0) small_table
      (λ q. 0) small_table-IsTable (omega arith) (omega arith)

-- The tables of the first library, of which there is one only, at the first address.
abbrev lib_path : List ℕ
lib_path = codes "libs/libexec.so"

abbrev small_dlopen : List ℕ → Option ℕ
small_dlopen path = some 1

abbrev small_dlsym : ℕ → String → Option (List FuncInfo)
small_dlsym lh symbol = some small_table

abbrev start : Process
start = record { memory = λ q. 0; p_lib_base = lib_base_start_address }

abbrev small_library : Library
small_library =
    here log name_at 0 0 small_dlopen small_dlsym map_pages start small_table 1000
      (thunk_size one_in_d1 0 + 0)

small_library-IsLibrary : IsLibrary small_library
small_library-IsLibrary = record { formed = small_table-IsTable; fits = omega arith }

load_library-IsLoaded_example :
    (after : Memory) × (load_library log name_at 0 0 small_dlopen small_dlsym map_pages lib_path
        start
      ≡ returns (some 0x21_0000, record { memory = after; p_lib_base = 0x21_0000 }))
    × All
        (IsLoaded log name_at 0 0 (record { memory = after; p_lib_base = 0x21_0000 }))
        (small_library ∷ [])
    × ((q : ℕ) → (q < 0x20_0000) ⊎ (0x21_0000 ≤ q) → after q ≡ 0)
load_library-IsLoaded_example =
    load_library-IsLoaded log name_at 0 0 small_dlopen small_dlsym map_pages lib_path start 1
      small_table 1000 (thunk_size one_in_d1 0 + 0) (zeroed 0x20_0000 0x10000 (λ q. 0)) []
      map_pages-IsMapping refl refl small_library-IsLibrary refl tt

-- There is no memory.
load_library_stuck_example :
    (s' : Process) × (load_library log name_at 0 0 small_dlopen small_dlsym map_nothing lib_path
        start
      ≡ returns (none, s'))
    × (s'.memory ≡ start.memory)
    × ((later : List ℕ)
        → load_library log name_at 0 0 small_dlopen small_dlsym map_nothing later s'
          ≡ returns (none, s'))
load_library_stuck_example =
    load_library_stuck log name_at 0 0 small_dlopen small_dlsym map_nothing lib_path start 1
      small_table map_nothing-IsMapping refl refl refl

-- The guest exits.
exec_program-EndsAs_example :
    (ended : Ended) × (after : Process) × (exec_program log name_at 0 0 small_dlopen small_dlsym
        map_pages
        (parent 42)
        (exited 0)
        start
      ≡ returns (ended, after))
    × EndsAs (parent 42) (exited 0) ended
    × All (IsLoaded log name_at 0 0 after) (small_library ∷ [])
    × (read_bytes after.memory abs_exec_base 4 ≡ le32 (u32 0x21_0000))
    × ((q : ℕ)
        → (q < 0x20_0000) ⊎ (0x21_0000 ≤ q)
        → (q < abs_exec_base) ⊎ (abs_exec_base + page_size ≤ q)
        → after.memory q ≡ 0)
exec_program-EndsAs_example =
    exec_program-EndsAs log name_at 0 0 small_dlopen small_dlsym map_pages (parent 42) (exited 0)
      start 1 small_table 1000 (thunk_size one_in_d1 0 + 0) (zeroed 0x20_0000 0x10000 (λ q. 0)) []
      map_pages-IsMapping refl refl small_library-IsLibrary refl
      (λ m. (zeroed abs_exec_base 4 m, refl)) (omega arith) tt
