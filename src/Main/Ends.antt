-- ===== src/Main/Ends.antt =====
-- All ways in which the main program ends, with what has been done before.
use Prim.Native.String.{String}
use mathlib.Core.Path.{subst}
use vadm.Base.{
  ◌^◌, ℕ, ◌<◌, ◌≤◌, ◌≡◌, ◌≢◌, refl, ap, sym, ◌∙◌, inl, inr, arith, Bool, true, false, Bool-cases,
  ◌==◌, Option, none, some, List, u32,
}
use vadm.Base.Bytes.{Memory, read_bytes, le32}
use vadm.Base.Outcome.{Outcome, returns, fault}
use vadm.TlCache.{TranslationCache, null, tc_init, tc_get_addr}
use vadm.TlCache.Lookup.{tc_init-IsCache}
use vadm.TlCache.Tree.{same_key_self}
use vadm.Translate.State.{Machine}
use vadm.Translate.Stub.{IsStub}
use vadm.Translate.Setup.{setup_tu}
use vadm.Translate.Entries.{IsReady, SetsUp, setup_tu-SetsUp}
use vadm.Translate.Handlers.{abs_exec_base}
use vadm.Execute.Text.{codes}
use vadm.Execute.{FuncInfo, lib_base_start_address}
use vadm.Execute.Process.{
  Process, Fork, child, parent, failed, Status, exited, signaled, unknown, load_library,
  exec_program, after_fork, after_exec_base,
}
use vadm.Execute.Library.{IsMapping}
use vadm.Execute.Loading.{exec_base_stored}
use vadm.Loader.State.{Load, continues, refused, fault, out_of_fuel, Image, BlockTypes, Loader}
use vadm.Loader.Holds.{Holds}
use vadm.Loader.Invariant.{IsValid}
use vadm.Loader.Result.{load_program-IsValid}
use vadm.Loader.{load_program}
use vadm.Main.{
  Exit, exits, calls_guest, undefined, first_machine, after_exec, after_setup, after_init,
  after_code, after_load, main,
}

module _ (log_func_name_addr : ℕ) (string_addr : String → ℕ) (nargs₀ regnum₀ : ℕ)
    (dlopen : List ℕ → Option ℕ) (dlsym : ℕ → String → Option (List FuncInfo))
    (mmap : ℕ → ℕ → Memory → Option Memory) (types : BlockTypes) (stale_last_hnum : ℕ → ℕ)
    (malloc : ℕ → Bool) (code_mapping : Option ℕ) (translate_tu_addr : ℕ) (argc fuel : ℕ)
    (installed : Bool) (opened : Option Image) (restored : Bool) (pid : Fork) (status : Status)
    (m : Memory) where
  abbrev load : Load Loader
  load = load_program types mmap stale_last_hnum fuel installed opened restored m

  -- The program is in the memory, with its code in a hunk.
  pub record HasLoaded : Type 0 where
    pub arguments : argc ≡ 2
    pub loader : Loader
    pub loaded : load ≡ continues loader
    pub valid : IsValid m loader

  -- The block `p_block` has been set up for the program's code.
  pub record HasSetUp (p_block : ℕ) : Type 0 where
    pub program : HasLoaded
    pub p_m68k_code : ℕ
    pub m68k_code_size : ℕ
    pub cache : TranslationCache
    pub machine : Machine
    pub code : program.loader.code ≡ some (p_m68k_code, m68k_code_size)
    pub initialized : tc_init malloc null null code_mapping ≡ some cache
    pub set_up :
        setup_tu malloc translate_tu_addr p_m68k_code (first_machine program.loader.memory cache)
        ≡ returns (some p_block, machine)
    pub entry : tc_get_addr machine.tlcache p_m68k_code ≡ returns (some p_block)
    pub stub : IsStub translate_tu_addr p_m68k_code p_block machine.memory

  -- What `exec_program` begins with.
  abbrev pub at_begin : Machine → Process
  at_begin s = record { memory = s.memory; p_lib_base = lib_base_start_address }

  abbrev pub load_exec : Machine → Outcome (Option ℕ × Process)
  load_exec s =
      load_library log_func_name_addr string_addr nargs₀ regnum₀ dlopen dlsym mmap
        (codes "libs/libexec.so") (at_begin s)

  -- The Exec library is loaded too, and its base stands at `ABS_EXEC_BASE`.
  pub record HasStarted (p_block : ℕ) (after : Process) : Type 0 where
    pub prepared : HasSetUp p_block
    pub p_exec_base : ℕ
    pub library : Process
    pub exec_loaded : load_exec prepared.machine ≡ returns (some p_exec_base, library)
    pub stored : read_bytes after.memory abs_exec_base 4 ≡ le32 (u32 p_exec_base)

  -- How `main` ends, and what has been done then.
  pub data Ends : Exit → Type 0 where
    wrong_arguments : argc ≢ 2 → Ends (exits 1)
    not_loaded : load ≡ refused → Ends (exits 1)
    reads_outside : load ≡ fault → Ends undefined
    without_code : (l : HasLoaded) → l.loader.code ≡ none → Ends undefined
    without_cache : HasLoaded → tc_init malloc null null code_mapping ≡ none → Ends undefined
    without_block :
        (l : HasLoaded) (p n : ℕ) (cache : TranslationCache) (s : Machine)
        → l.loader.code ≡ some (p, n)
        → tc_init malloc null null code_mapping ≡ some cache
        → setup_tu malloc translate_tu_addr p (first_machine l.loader.memory cache)
          ≡ returns (none, s)
        → Ends (exits 1)
    without_library :
        {p : ℕ} (h : HasSetUp p) (s : Process)
        → load_exec h.machine ≡ returns (none, s)
        → Ends (exits 1)
    stuck_in_library : {p : ℕ} (h : HasSetUp p) → load_exec h.machine ≡ fault → Ends undefined
    without_page :
        {p : ℕ} (h : HasSetUp p) (base : ℕ) (s : Process)
        → load_exec h.machine ≡ returns (some base, s)
        → mmap abs_exec_base 4 s.memory ≡ none
        → Ends (exits 1)
    fork_failed : {p : ℕ} {after : Process} → HasStarted p after → pid ≡ failed → Ends (exits 1)
    guest_failed :
        {p : ℕ} {after : Process} (number : ℕ)
        → HasStarted p after
        → pid ≡ parent number
        → ((code : ℕ) → status ≢ exited code)
        → Ends (exits 1)
    guest_exited :
        {p : ℕ} {after : Process} (number code : ℕ)
        → HasStarted p after
        → pid ≡ parent number
        → status ≡ exited code
        → Ends (exits 0)
    guest_runs :
        {p : ℕ} {after : Process} → HasStarted p after → pid ≡ child → Ends (calls_guest p after)

  -- What becomes of the child.
  from_fork :
      {p : ℕ} {after : Process} (f : Fork) (t : Status)
      → pid ≡ f
      → status ≡ t
      → HasStarted p after
      → Ends (after_exec p (returns (after_fork f t, after)))
  from_fork child t is_pid is_status h = guest_runs h is_pid
  from_fork failed t is_pid is_status h = fork_failed h is_pid
  from_fork (parent n) (signaled k) is_pid is_status h =
      guest_failed n h is_pid (λ code e. cc (e, is_status))
  from_fork (parent n) (exited k) is_pid is_status h = guest_exited n k h is_pid is_status
  from_fork (parent n) (unknown k) is_pid is_status h =
      guest_failed n h is_pid (λ code e. cc (e, is_status))

  from_page :
      (p base : ℕ) (h : HasSetUp p) (s : Process) (page : Option Memory)
      → load_exec h.machine ≡ returns (some base, s)
      → mmap abs_exec_base 4 s.memory ≡ page
      → Ends (
          after_exec p (
            returns (
              after_exec_base log_func_name_addr string_addr nargs₀ regnum₀ dlopen dlsym mmap pid
                status base s page)))
  from_page p base h s none e none_left = without_page h base s e none_left
  from_page p base h s (some page) e mapped = from_fork pid status refl refl (record {
    prepared = h;
    p_exec_base = base;
    library = s;
    exec_loaded = e;
    stored =
        exec_base_stored log_func_name_addr string_addr nargs₀ regnum₀ dlopen dlsym mmap base page;
  })

  from_library :
      (p : ℕ) (h : HasSetUp p) (r : Outcome (Option ℕ × Process))
      → load_exec h.machine ≡ r
      → Ends (
          after_exec p (
            exec_program log_func_name_addr string_addr nargs₀ regnum₀ dlopen dlsym mmap pid status
              (at_begin h.machine)))
  unfolding exec_program
  from_library p h (returns (none, s)) e = rw e (without_library h s e)
  from_library p h (returns (some base, s)) e =
      rw e (from_page p base h s (mmap abs_exec_base 4 s.memory) e refl)
  from_library p h fault e = rw e (stuck_in_library h e)

  -- Memory that is mapped does not begin at address 0.
  module _ (mapping : IsMapping mmap) (above : (b : ℕ) → code_mapping ≡ some b → 0 < b) where
    next_of : Option TranslationCache → ℕ
    next_of none = 0
    next_of (some c) = c.p_next_code_block

    first_block :
        (cache : TranslationCache) (second third : Bool) (mapped : Option ℕ)
        → malloc 0 ≡ second
        → malloc 1 ≡ third
        → code_mapping ≡ mapped
        → tc_init malloc null null code_mapping ≡ some cache
        → 0 < cache.p_next_code_block
    unfolding tc_init next_of
    first_block cache false third mapped a b e h = let h' = rw a at h in cc h'
    first_block cache true false mapped a b e h = let h' = rw (a, b) at h in cc h'
    first_block cache true true none a b e h = let h' = rw (a, b, e) at h in cc h'
    first_block cache true true (some p_block) a b e h =
        let h' = rw (a, b, e) at h in
        let same : p_block ≡ cache.p_next_code_block =
          ap (λ (o : Option TranslationCache). next_of o) h' in
        subst (λ b. 0 < b) same (above p_block e)

    ready :
        (memory : Memory) (cache : TranslationCache)
        → tc_init malloc null null code_mapping ≡ some cache
        → IsReady (first_machine memory cache)
    ready memory cache e = record {
      cache = (tc_init-IsCache malloc code_mapping cache e).0;
      block = first_block cache (malloc 0) (malloc 1) code_mapping refl refl refl e;
    }

    below_4gb : (l : HasLoaded) (p n : ℕ) → l.loader.code ≡ some (p, n) → p < 2 ^ 32
    below_4gb l p n e =
        let ((j, few, is_hunk), fits) = l.valid.code p n e in omega (arith, few, is_hunk)

    module _ (l : HasLoaded) (p n : ℕ) (cache : TranslationCache)
        (code : l.loader.code ≡ some (p, n))
        (initialized : tc_init malloc null null code_mapping ≡ some cache) where
      abbrev before : Machine
      before = first_machine l.loader.memory cache

      prepared :
          (x : ℕ) (s : Machine)
          → setup_tu malloc translate_tu_addr p before ≡ returns (some x, s)
          → HasSetUp x
      prepared x s e =
          let result : SetsUp translate_tu_addr p before
              (setup_tu malloc translate_tu_addr p before) =
            setup_tu-SetsUp malloc translate_tu_addr p before
              (ready l.loader.memory cache initialized) (below_4gb l p n code) in
          let address : result.address ≡ some x = cc (result.result_returns, e) in
          let after : result.after ≡ s = cc (result.result_returns, e) in
          let (at_block, stub) =
            result.new x ((tc_init-IsCache malloc code_mapping cache initialized).1 p) address in
          record {
            program = l;
            p_m68k_code = p;
            m68k_code_size = n;
            cache = cache;
            machine = s;
            code = code;
            initialized = initialized;
            set_up = e;
            entry =
                ap (λ (t : Machine). tc_get_addr t.tlcache p) (sym after)
                ∙ result.entries p
                ∙ rw (address, same_key_self p) refl;
            stub =
                subst (λ (b : ℕ). IsStub translate_tu_addr p b s.memory) (sym at_block)
                  (subst
                    (λ (t : Machine).
                      IsStub translate_tu_addr p before.tlcache.p_next_code_block t.memory)
                    after stub);
          }

      from_setup :
          (r : Outcome (Option ℕ × Machine))
          → setup_tu malloc translate_tu_addr p before ≡ r
          → Ends (
              after_setup log_func_name_addr string_addr nargs₀ regnum₀ dlopen dlsym mmap types
                stale_last_hnum malloc null null code_mapping translate_tu_addr pid status r)
      unfolding prepared
      from_setup (returns (none, s)) e = without_block l p n cache s code initialized e
      from_setup (returns (some x, s)) e =
          let h = prepared x s e in from_library x h (load_exec h.machine) refl
      from_setup fault e =
          let result : SetsUp translate_tu_addr p before
              (setup_tu malloc translate_tu_addr p before) =
            setup_tu-SetsUp malloc translate_tu_addr p before
              (ready l.loader.memory cache initialized) (below_4gb l p n code) in
          cc (result.result_returns, e)

    from_init :
        (l : HasLoaded) (p n : ℕ) (r : Option TranslationCache)
        → l.loader.code ≡ some (p, n)
        → tc_init malloc null null code_mapping ≡ r
        → Ends (
            after_init log_func_name_addr string_addr nargs₀ regnum₀ dlopen dlsym mmap types
              stale_last_hnum malloc null null code_mapping translate_tu_addr pid status
              l.loader.memory p r)
    from_init l p n none code e = without_cache l e
    from_init l p n (some cache) code e =
        from_setup l p n cache code e
          (setup_tu malloc translate_tu_addr p (first_machine l.loader.memory cache)) refl

    from_code :
        (l : HasLoaded) (code : Option (ℕ × ℕ))
        → l.loader.code ≡ code
        → Ends (
            after_code log_func_name_addr string_addr nargs₀ regnum₀ dlopen dlsym mmap types
              stale_last_hnum malloc null null code_mapping translate_tu_addr pid status
              l.loader.memory code)
    from_code l none e = without_code l e
    from_code l (some (p, n)) e = from_init l p n (tc_init malloc null null code_mapping) e refl

    from_load :
        (r : Load Loader)
        → argc ≡ 2
        → load ≡ r
        → Holds (IsValid m) r
        → Ends (
            after_load log_func_name_addr string_addr nargs₀ regnum₀ dlopen dlsym mmap types
              stale_last_hnum malloc null null code_mapping translate_tu_addr pid status r)
    from_load (continues s) two e valid =
        from_code (record { arguments = two; loader = s; loaded = e; valid = valid }) s.code refl
    from_load refused two e valid = not_loaded e
    from_load fault two e valid = reads_outside e
    from_load out_of_fuel two e valid = absurd valid

    -- With fuel for each byte of the file's mapping, `main` ends in one of these ways, whatever the file
    -- holds and whatever the system calls return. The child calls the guest, at `p`, only after the
    -- program has been loaded with its code in a hunk, `p` has been made the entry of that code and
    -- the stub written there, and the base of the Exec library has been stored at `ABS_EXEC_BASE`. `main`
    -- returns 0 only in the parent of such a child that has exited. It returns 1 if the number of
    -- arguments is wrong, the program is refused, no block is set up, the library or the page is
    -- missing, `fork` fails or the guest does not exit. What C leaves undefined is reached by the
    -- loader, by a file without code, without the cache, or by the loading of the library, and in no
    -- other way. The memory of the root node holds NULL pointers, and the code blocks are not mapped
    -- at address 0.
    pub main-Ends :
        ((image : Image)
          → opened ≡ some image
          → (image.mapped < fuel) × (image.size ≤ image.mapped))
        → Ends (
            main log_func_name_addr string_addr nargs₀ regnum₀ dlopen dlsym mmap types
              stale_last_hnum malloc null null code_mapping translate_tu_addr argc fuel installed
              opened restored pid status m)
    unfolding main
    main-Ends enough = elim (Bool-cases (argc == 2)) [
      | inl e ↦ rw e (
          from_load load (ground (arith, e)) refl (
            load_program-IsValid types mmap stale_last_hnum mapping fuel installed restored opened m
              enough))
      | inr e ↦ rw e (wrong_arguments (ground (arith, e)))
    ]
