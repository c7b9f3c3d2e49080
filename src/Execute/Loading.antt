-- ===== src/Execute/Loading.antt =====
-- What `load_library` and `exec_program` do with each result of the system calls.
use Prim.Native.String.{String}
use vadm.Base.{
  ℕ, ◌+◌, ◌<◌, ◌≤◌, ◌≡◌, refl, ◌∙◌, arith, ◌⊎◌, inl, inr, Option, none, some, List, [], ◌∷◌, All,
  u32,
}
use vadm.Base.Bytes.{
  Memory, Out, write_dword, write_dword_lem, read_bytes, read_bytes-write_bytes,
  write_bytes_outside, le32,
}
use vadm.Base.Outcome.{Outcome, returns}
use vadm.Translate.Handlers.{abs_exec_base}
use vadm.Execute.Text.{codes}
use vadm.Execute.{FuncInfo, lib_jump_tbl_size}
use vadm.Execute.Entries.{before_end, IsEntry}
use vadm.Execute.JumpTable.{setup_jump_tables_lem}
use vadm.Execute.Process.{
  page_size, Process, Fork, Status, after_fork, load_library, exec_program, map_failed,
  after_dlopen, after_dlsym,
}
use vadm.Execute.Library.{IsMapping, Library, IsLibrary, entries_ext}

All-map {ℓ κ κ'} :
    {A : Type ℓ} {P : A → Type κ} {Q : A → Type κ'} (f : (a : A) → P a → Q a) (xs : List A)
    → All P xs
    → All Q xs
All-map f [] h = tt
All-map f (x ∷ xs) (p, ps) = (f x p, All-map f xs ps)

module _ (log_func_name_addr : ℕ) (string_addr : String → ℕ) (nargs₀ regnum₀ : ℕ) where
  -- A library is loaded: its tables lie below the address where the next ones go, and each of its
  -- entries is as `setup_jump_tables` left it.
  pub record IsLoaded (s : Process) (lib : Library) : Type 0 where
    pub library : IsLibrary lib
    pub below : lib.p_tables + lib_jump_tbl_size ≤ s.p_lib_base
    pub entries :
        All
          (λ pfi. IsEntry log_func_name_addr string_addr nargs₀ regnum₀ lib.p_tables s.memory pfi)
          (before_end lib.table)

  -- It stays loaded where the memory below the next tables stays as it is.
  pub IsLoaded-ext :
      (s s' : Process) (lib : Library)
      → s.p_lib_base ≤ s'.p_lib_base
      → ((q : ℕ) → q < s.p_lib_base → s'.memory q ≡ s.memory q)
      → IsLoaded s lib
      → IsLoaded s' lib
  IsLoaded-ext s s' lib grows same l = record {
    library = l.library;
    below = omega (arith, l.below);
    entries =
        entries_ext log_func_name_addr string_addr nargs₀ regnum₀ lib.p_tables s.memory s'.memory
          (λ q a b. same q (omega (arith, l.below))) lib.limit 1 lib.size lib.table l.library.formed
          (omega (arith, l.library.fits)) l.entries;
  }

  module _ (dlopen : List ℕ → Option ℕ) (dlsym : ℕ → String → Option (List FuncInfo))
      (mmap : ℕ → ℕ → Memory → Option Memory) where
    abbrev load : List ℕ → Process → Outcome (Option ℕ × Process)
    load path s =
        load_library log_func_name_addr string_addr nargs₀ regnum₀ dlopen dlsym mmap path s

    -- When `dlopen` fails, or the library has no table, or `mmap` fails, `load_library` returns NULL
    -- and leaves the memory as it is.
    pub load_library_fails :
        (path : List ℕ) (s : Process)
        → (dlopen path ≡ none)
          ⊎ ((lh : ℕ) × (dlopen path ≡ some lh) × (dlsym lh "g_func_info_tbl" ≡ none))
        → load path s ≡ returns (none, s)
    unfolding load_library
    load_library_fails path s (inl h) = rw h
    load_library_fails path s (inr (lh, opened, no_table)) = rw (opened, no_table)

    -- After `mmap` failed once, each later call fails as well, for any library: the static variable
    -- holds `MAP_FAILED`, where no page begins.
    pub load_library_stuck :
        (path : List ℕ) (s : Process) (lh : ℕ) (table : List FuncInfo)
        → IsMapping mmap
        → dlopen path ≡ some lh
        → dlsym lh "g_func_info_tbl" ≡ some table
        → mmap s.p_lib_base lib_jump_tbl_size s.memory ≡ none
        → (s' : Process) × (load path s ≡ returns (none, s'))
          × (s'.memory ≡ s.memory)
          × ((later : List ℕ) → load later s' ≡ returns (none, s'))
    unfolding load_library
    load_library_stuck path s lh table mapping opened found unmapped =
        (failed, rw (opened, found, unmapped), refl, again)
      where
        failed : Process
        failed = record { memory = s.memory; p_lib_base = map_failed }

        no_page : mmap map_failed lib_jump_tbl_size s.memory ≡ none
        no_page = mapping.fails map_failed lib_jump_tbl_size s.memory (λ e. omega (arith, e))

        again_dlsym :
            (t : Option (List FuncInfo))
            → after_dlsym log_func_name_addr string_addr nargs₀ regnum₀ dlopen dlsym mmap failed t
              ≡ returns (none, failed)
        again_dlsym none = refl
        again_dlsym (some t) = rw no_page

        again_dlopen :
            (h : Option ℕ)
            → after_dlopen log_func_name_addr string_addr nargs₀ regnum₀ dlopen dlsym mmap failed h
              ≡ returns (none, failed)
        again_dlopen none = refl
        again_dlopen (some h) = again_dlsym (dlsym h "g_func_info_tbl")

        again : (later : List ℕ) → load later failed ≡ returns (none, failed)
        again later = again_dlopen (dlopen later)

    -- The library at the address where the next tables go.
    abbrev pub here : Process → List FuncInfo → ℕ → ℕ → Library
    here s table limit size = record {
      p_tables = s.p_lib_base;
      table = table;
      limit = limit;
      size = size;
    }

    -- The process when the tables of one more library are set up.
    abbrev pub advanced : Process → Memory → Process
    advanced s m = record { memory = m; p_lib_base = s.p_lib_base + lib_jump_tbl_size }

    -- When the system calls succeed and the table is well formed, `load_library` returns the address
    -- behind the tables, which is where the next tables go. The new library is then loaded, each
    -- library that was loaded before still is, and no memory outside the 64 KB is changed.
    pub load_library-IsLoaded :
        (path : List ℕ) (s : Process) (lh : ℕ) (table : List FuncInfo) (limit size : ℕ) (m : Memory)
        (libs : List Library)
        → IsMapping mmap
        → dlopen path ≡ some lh
        → dlsym lh "g_func_info_tbl" ≡ some table
        → IsLibrary (here s table limit size)
        → mmap s.p_lib_base lib_jump_tbl_size s.memory ≡ some m
        → All (IsLoaded s) libs
        → (after : Memory) × (load path s
            ≡ returns (some (s.p_lib_base + lib_jump_tbl_size), advanced s after))
          × All (IsLoaded (advanced s after)) (here s table limit size ∷ libs)
          × ((q : ℕ)
              → (q < s.p_lib_base) ⊎ (s.p_lib_base + lib_jump_tbl_size ≤ q)
              → after q ≡ s.memory q)
    unfolding load_library
    load_library-IsLoaded path s lh table limit size m libs mapping opened found library mapped
          loaded =
        let (after, done, entries, outside) =
          setup_jump_tables_lem log_func_name_addr string_addr nargs₀ regnum₀ s.p_lib_base limit
            size table m library.formed (omega (arith, library.fits))
            (omega (arith, library.fits)) in
        let same : (q : ℕ)
            → (q < s.p_lib_base) ⊎ (s.p_lib_base + lib_jump_tbl_size ≤ q)
            → after q ≡ s.memory q =
          λ q h. outside q h ∙ mapping.keeps s.p_lib_base lib_jump_tbl_size s.memory m mapped q h in
        (
          after,
          rw (opened, found, mapped, done),
          (
            record { library = library; below = omega arith; entries = entries },
            All-map
                (λ lib l.
                  IsLoaded-ext s (advanced s after) lib (omega arith) (λ q h. same q (inl h)) l)
                libs loaded,
          ),
          same,
        )

    -- The memory where the base of the Exec library is stored at `ABS_EXEC_BASE`.
    abbrev with_exec_base : ℕ → Memory → Out
    with_exec_base p_exec_base m =
        write_dword (u32 p_exec_base) (record { mem = m; pos = abs_exec_base })

    pub exec_base_stored :
        (p_exec_base : ℕ) (m : Memory)
        → read_bytes (with_exec_base p_exec_base m).mem abs_exec_base 4 ≡ le32 (u32 p_exec_base)
    exec_base_stored p_exec_base m =
        rw (write_dword_lem (u32 p_exec_base)) (
          read_bytes-write_bytes (le32 (u32 p_exec_base)) (record { mem = m; pos = abs_exec_base }))

    exec_base_outside :
        (p_exec_base : ℕ) (m : Memory) (q : ℕ)
        → (q < abs_exec_base) ⊎ (abs_exec_base + page_size ≤ q)
        → (with_exec_base p_exec_base m).mem q ≡ m q
    exec_base_outside p_exec_base m q h = rw (write_dword_lem (u32 p_exec_base)) (
        write_bytes_outside (le32 (u32 p_exec_base)) (record { mem = m; pos = abs_exec_base }) q
          (ground (arith, h)))

    -- When the system calls succeed, the table of the Exec library is well formed and its memory lies
    -- below `ABS_EXEC_BASE`, `exec_program` goes on to the results of `fork` and `wait`. The Exec
    -- library is then loaded, so is each library that was loaded before, and at `ABS_EXEC_BASE` stands
    -- the base of the Exec library. Beside the tables and the page of `ABS_EXEC_BASE` the memory is as
    -- it was.
    pub exec_program_lem :
        (pid : Fork) (status : Status) (s : Process) (lh : ℕ) (table : List FuncInfo)
        (limit size : ℕ) (m : Memory) (libs : List Library)
        → IsMapping mmap
        → dlopen (codes "libs/libexec.so") ≡ some lh
        → dlsym lh "g_func_info_tbl" ≡ some table
        → IsLibrary (here s table limit size)
        → mmap s.p_lib_base lib_jump_tbl_size s.memory ≡ some m
        → ((m₁ : Memory) → (m₂ : Memory) × (mmap abs_exec_base 4 m₁ ≡ some m₂))
        → s.p_lib_base + lib_jump_tbl_size ≤ abs_exec_base
        → All (IsLoaded s) libs
        → (after : Memory) × (exec_program log_func_name_addr string_addr nargs₀ regnum₀ dlopen
              dlsym mmap pid status s
            ≡ returns (after_fork pid status, advanced s after))
          × All (IsLoaded (advanced s after)) (here s table limit size ∷ libs)
          × (read_bytes after abs_exec_base 4 ≡ le32 (u32 (s.p_lib_base + lib_jump_tbl_size)))
          × ((q : ℕ)
              → (q < s.p_lib_base) ⊎ (s.p_lib_base + lib_jump_tbl_size ≤ q)
              → (q < abs_exec_base) ⊎ (abs_exec_base + page_size ≤ q)
              → after q ≡ s.memory q)
    unfolding exec_program
    exec_program_lem pid status s lh table limit size m libs mapping opened found library mapped
          page low loaded =
        let (m₁, done, loaded₁, outside) =
          load_library-IsLoaded (codes "libs/libexec.so") s lh table limit size m libs mapping
            opened found library mapped loaded in
        let (m₂, mapped₂) = page m₁ in
        let base : ℕ = s.p_lib_base + lib_jump_tbl_size in
        let after : Memory = (with_exec_base base m₂).mem in
        (
          after,
          rw (done, mapped₂),
          All-map
              (λ lib l.
                IsLoaded-ext (advanced s m₁) (advanced s after) lib (omega arith)
                  (λ q h.
                    exec_base_outside base m₂ q (inl (omega (arith, low)))
                    ∙ mapping.keeps abs_exec_base 4 m₁ m₂ mapped₂ q (inl (omega (arith, low))))
                  l)
              (here s table limit size ∷ libs) loaded₁,
          exec_base_stored base m₂,
          λ q beside other.
              exec_base_outside base m₂ q other
              ∙ mapping.keeps abs_exec_base 4 m₁ m₂ mapped₂ q other
              ∙ outside q beside,
        )
