-- ===== src/Execute/Library.antt =====
-- The loading of libraries: where their jump tables stand, and that they stay as they are.
use Prim.Native.String.{String}
use vadm.Base.{
  ℕ, ◌+◌, ◌-◌, ◌*◌, ◌/◌, ◌%◌, ◌<◌, ◌≤◌, ◌≡◌, ◌≢◌, sym, arith, ◌==◌, ◌⊎◌, Option, none, some, false,
  List, ◌∷◌, All,
}
use vadm.Base.Bytes.{Memory, read_bytes, read_bytes_ext}
use mathlib.Core.Path.{subst}
use vadm.Execute.{FuncInfo, lib_jump_tbl_size}
use vadm.Execute.Thunk.{thunk_size}
use vadm.Execute.Entries.{
  IsTable, end, unimplemented, implemented, before_end, IsEntry, IsEntryFor, JumpsToThunk,
}
use vadm.Execute.Process.{page_size}

-- `mmap` of private memory at a fixed address: it fails unless a page begins there, and when it
-- succeeds it changes no memory outside the pages that it maps.
pub record IsMapping (mmap : ℕ → ℕ → Memory → Option Memory) : Type 0 where
  pub fails : (addr len : ℕ) (m : Memory) → addr % page_size ≢ 0 → mmap addr len m ≡ none
  pub keeps :
      (addr len : ℕ) (m m' : Memory)
      → mmap addr len m ≡ some m'
      → (q : ℕ) → (q < addr) ⊎ (addr + (len + page_size - 1) / page_size * page_size ≤ q)
      → m' q ≡ m q

-- A library: the address of its jump tables, and its table of functions.
pub record Library : Type 0 where
  pub p_tables : ℕ
  pub table : List FuncInfo
  pub limit : ℕ
  pub size : ℕ

-- Its table is well formed, and its thunks fit below the entries.
pub record IsLibrary (lib : Library) : Type 0 where
  pub formed : IsTable lib.limit 1 lib.size lib.table
  pub fits : lib.limit + lib.size ≤ lib_jump_tbl_size

module _ (log_func_name_addr : ℕ) (string_addr : String → ℕ) (nargs₀ regnum₀ : ℕ) where
  abbrev EntryIn : ℕ → Memory → FuncInfo → Type 0
  EntryIn base m pfi = IsEntry log_func_name_addr string_addr nargs₀ regnum₀ base m pfi

  -- An entry with its thunk depends on the library's memory only.
  module _ (base : ℕ) (m m' : Memory)
      (same : (q : ℕ) → base ≤ q → q < base + lib_jump_tbl_size → m' q ≡ m q) where
    reads_same :
        (p n : ℕ)
        → base ≤ p
        → p + n ≤ base + lib_jump_tbl_size
        → read_bytes m' p n ≡ read_bytes m p n
    reads_same p n from to =
        read_bytes_ext n m' m p (λ q a b. same q (omega (arith, from)) (omega (arith, to)))

    jump_ext :
        (pfi : FuncInfo) (p_func : ℕ)
        → 5 ≤ pfi.offset
        → pfi.offset ≤ lib_jump_tbl_size
        → JumpsToThunk log_func_name_addr string_addr nargs₀ regnum₀ base m pfi p_func
        → JumpsToThunk log_func_name_addr string_addr nargs₀ regnum₀ base m' pfi p_func
    jump_ext pfi p_func room inside j = record {
      args = j.args;
      result = j.result;
      signature = j.signature;
      thunk = j.thunk;
      displacement = j.displacement;
      reads_jump =
          rw
            (reads_same (base + lib_jump_tbl_size - pfi.offset) 5 (omega (arith, inside))
              (omega (arith, room)))
            j.reads_jump;
      landing = j.landing;
      reads_thunk =
          rw (reads_same j.thunk (thunk_size j.args j.result) j.from (omega (arith, j.below, room)))
            j.reads_thunk;
      from = j.from;
      below = j.below;
    }

    interrupt_ext :
        (pfi : FuncInfo)
        → 0 < pfi.offset
        → pfi.offset ≤ lib_jump_tbl_size
        → IsEntryFor log_func_name_addr string_addr nargs₀ regnum₀ base m pfi none
        → IsEntryFor log_func_name_addr string_addr nargs₀ regnum₀ base m' pfi none
    interrupt_ext pfi positive inside h =
        rw
          (reads_same (base + lib_jump_tbl_size - pfi.offset) 1 (omega (arith, inside))
            (omega (arith, positive)))
          h

    head_and_tail :
        (pfi : FuncInfo) (rest : List FuncInfo)
        → 0 < pfi.offset
        → (EntryIn base m pfi → EntryIn base m' pfi)
        → (All (EntryIn base m) (before_end rest) → All (EntryIn base m') (before_end rest))
        → All (EntryIn base m) (before_end (pfi ∷ rest))
        → All (EntryIn base m') (before_end (pfi ∷ rest))
    head_and_tail pfi rest positive head tail h =
        let nonzero : (pfi.offset == 0) ≡ false = ground (arith, positive) in
        let (first, others) : All (EntryIn base m) (pfi ∷ before_end rest) = rw nonzero at h in
        rw nonzero (head first, tail others)

    pub entries_ext :
        (limit low size : ℕ) (table : List FuncInfo)
        → IsTable limit low size table
        → limit ≤ lib_jump_tbl_size
        → All (EntryIn base m) (before_end table)
        → All (EntryIn base m') (before_end table)
    entries_ext limit low _ _ (end stop) limited h = rw stop tt
    entries_ext limit low size _ (unimplemented {pfi} {rest} null positive ordered inside t) limited
          h =
        head_and_tail pfi rest positive
          (λ e.
            subst (λ f. IsEntryFor log_func_name_addr string_addr nargs₀ regnum₀ base m' pfi f)
              (sym null)
              (interrupt_ext pfi positive (omega arith) (
                subst (λ f. IsEntryFor log_func_name_addr string_addr nargs₀ regnum₀ base m pfi f)
                  null e)))
          (entries_ext limit pfi.offset size rest t limited) h
    entries_ext limit low _ _
          (implemented {size} {pfi} {rest} p_func args result func signature positive ordered inside
            t)
          limited h =
        head_and_tail pfi rest positive
          (λ e.
            subst (λ f. IsEntryFor log_func_name_addr string_addr nargs₀ regnum₀ base m' pfi f)
              (sym func)
              (jump_ext pfi p_func (omega arith) (omega arith) (
                subst (λ f. IsEntryFor log_func_name_addr string_addr nargs₀ regnum₀ base m pfi f)
                  func e)))
          (entries_ext limit (pfi.offset + 1) size rest t limited) h
