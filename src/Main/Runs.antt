-- ===== src/Main/Runs.antt =====
-- The main program on a file with code, where the system calls succeed.
use Prim.Native.String.{String}
use vadm.Base.{
  ◌^◌, ℕ, ◌+◌, ◌%◌, ◌<◌, ◌≤◌, ◌≡◌, refl, arith, inr, Bool, true, Option, some, List, [], u32,
}
use mathlib.Core.Path.{subst}
use vadm.Base.Bytes.{Memory, read_bytes, read_bytes_ext, le32}
use vadm.TlCache.{TranslationCache, node, null, tc_init}
use vadm.TlCache.Lookup.{tc_init-IsCache}
use vadm.Translate.Stub.{IsStub}
use vadm.Translate.Success.{setup_tu_succeeds}
use vadm.Translate.Handlers.{abs_exec_base}
use vadm.Execute.Text.{codes}
use vadm.Execute.{FuncInfo, lib_base_start_address, lib_jump_tbl_size}
use vadm.Execute.Process.{Process, Fork, child, parent, Status, exited, page_size}
use vadm.Execute.Library.{IsMapping, Library, IsLibrary}
use vadm.Execute.Loading.{IsLoaded, exec_program_lem}
use vadm.Loader.State.{continues, Image, BlockTypes, Loader}
use vadm.Loader.Holds.{Holds}
use vadm.Loader.Invariant.{IsValid}
use vadm.Loader.Result.{load_program-IsValid}
use vadm.Loader.{load_program}
use vadm.Main.{Exit, exits, calls_guest, first_machine, main}

-- The stub stays where its memory does.
IsStub-ext :
    (f p_m68k_code p_x86_code : ℕ) (m m' : Memory)
    → ((q : ℕ) → p_x86_code ≤ q → m' q ≡ m q)
    → IsStub f p_m68k_code p_x86_code m
    → IsStub f p_m68k_code p_x86_code m'
IsStub-ext f p_m68k_code p_x86_code m m' same stub = record {
  reads = rw (read_bytes_ext 128 m' m p_x86_code (λ q a b. same q a)) stub.reads;
}

-- The code of a file that is loaded lies in a hunk.
code_below_4gb :
    (mmap : ℕ → ℕ → Memory → Option Memory) (types : BlockTypes) (stale_last_hnum : ℕ → ℕ)
    (fuel : ℕ) (image : Image) (m : Memory) (s : Loader) (p_m68k_code m68k_code_size : ℕ)
    → IsMapping mmap
    → image.mapped < fuel
    → image.size ≤ image.mapped
    → load_program types mmap stale_last_hnum fuel true (some image) true m ≡ continues s
    → s.code ≡ some (p_m68k_code, m68k_code_size)
    → p_m68k_code < 2 ^ 32
code_below_4gb mmap types stale_last_hnum fuel image m s p_m68k_code m68k_code_size mapping enough
      sized loaded has_code =
    let valid : IsValid m s = subst (Holds (IsValid m)) loaded (
      load_program-IsValid types mmap stale_last_hnum mapping fuel true true (some image) m λ i e.
        let same : image ≡ i = cc e in
        subst (λ (t : Image). (t.mapped < fuel) × (t.size ≤ t.mapped)) same (enough, sized)) in
    let ((j, few, is_hunk), fits) = valid.code p_m68k_code m68k_code_size has_code in
    omega (arith, few, is_hunk)

module _ (log_func_name_addr : ℕ) (string_addr : String → ℕ) (nargs₀ regnum₀ : ℕ)
    (dlopen : List ℕ → Option ℕ) (dlsym : ℕ → String → Option (List FuncInfo))
    (mmap : ℕ → ℕ → Memory → Option Memory) (types : BlockTypes) (stale_last_hnum : ℕ → ℕ)
    (malloc : ℕ → Bool) (p_block translate_tu_addr : ℕ) where
  abbrev run : ℕ → ℕ → Option Image → Fork → Status → Memory → Exit
  run argc fuel opened pid status m =
      main log_func_name_addr string_addr nargs₀ regnum₀ dlopen dlsym mmap types stale_last_hnum
        malloc null null (some p_block) translate_tu_addr argc fuel true opened true pid status m

  -- The Exec library, when it is the first.
  abbrev pub exec_library : List FuncInfo → ℕ → ℕ → Library
  exec_library table limit size = record {
    p_tables = lib_base_start_address;
    table = table;
    limit = limit;
    size = size;
  }

  -- The cache after `tc_init`.
  abbrev cache : TranslationCache
  cache = record {
    p_root_node = node null null;
    p_first_code_block = p_block;
    p_next_code_block = p_block;
    malloc_calls = 2;
  }

  -- `main` is called with a file that is loaded and has code, the system calls and allocations succeed,
  -- the memory of the root node holds NULL pointers, the table of the Exec library is well formed, and
  -- the blocks of the cache lie above the page of `ABS_EXEC_BASE`. Then the child calls the first block,
  -- where the stub of the code's unit stands; the Exec library is loaded, and its base stands at
  -- `ABS_EXEC_BASE`. The parent returns 0 when the guest exits.
  pub main_lem :
      (fuel : ℕ) (image : Image) (m : Memory) (s : Loader) (p_m68k_code m68k_code_size : ℕ) (lh : ℕ)
      (table : List FuncInfo) (limit size : ℕ) (number code : ℕ)
      → IsMapping mmap
      → ((addr len : ℕ) (m₁ : Memory)
          → addr % page_size ≡ 0
          → (m₂ : Memory) × (mmap addr len m₁ ≡ some m₂))
      → ((n : ℕ) → malloc n ≡ true)
      → abs_exec_base + page_size ≤ p_block
      → image.mapped < fuel
      → image.size ≤ image.mapped
      → load_program types mmap stale_last_hnum fuel true (some image) true m ≡ continues s
      → s.code ≡ some (p_m68k_code, m68k_code_size)
      → dlopen (codes "libs/libexec.so") ≡ some lh
      → dlsym lh "g_func_info_tbl" ≡ some table
      → IsLibrary (exec_library table limit size)
      → (after : Process) × (run 2 fuel (some image) child (exited code) m
          ≡ calls_guest p_block after)
        × (run 2 fuel (some image) (parent number) (exited code) m ≡ exits 0)
        × IsStub translate_tu_addr p_m68k_code p_block after.memory
        × IsLoaded log_func_name_addr string_addr nargs₀ regnum₀ after
            (exec_library table limit size)
        × (read_bytes after.memory abs_exec_base 4
            ≡ le32 (u32 (lib_base_start_address + lib_jump_tbl_size)))
  unfolding main tc_init
  main_lem fuel image m s p_m68k_code m68k_code_size lh table limit size number code mapping maps
        always above enough sized loaded has_code opened found library =
      let init : tc_init malloc null null (some p_block) ≡ some cache = rw (always 0, always 1) in
      let (is_cache, empty) = tc_init-IsCache malloc (some p_block) cache init in
      let below_4gb : p_m68k_code < 2 ^ 32 =
        code_below_4gb mmap types stale_last_hnum fuel image m s p_m68k_code m68k_code_size mapping
          enough sized loaded has_code in
      let (machine, set, entry, stub) =
        setup_tu_succeeds malloc translate_tu_addr p_m68k_code (first_machine s.memory cache) always
          (record { cache = is_cache; block = omega (arith, above) }) below_4gb (omega arith)
          (empty p_m68k_code) in
      let begin : Process = record {
        memory = machine.memory;
        p_lib_base = lib_base_start_address;
      } in
      let (m₁, mapped) = maps lib_base_start_address lib_jump_tbl_size machine.memory refl in
      let (m₂, done, (exec_loaded, none_left), stored, beside) =
        exec_program_lem log_func_name_addr string_addr nargs₀ regnum₀ dlopen dlsym mmap child
          (exited code) begin lh table limit size m₁ [] mapping opened found library mapped
          (λ m'. maps abs_exec_base 4 m' refl) (omega arith) tt in
      let (m₃, done', loaded', stored', beside') =
        exec_program_lem log_func_name_addr string_addr nargs₀ regnum₀ dlopen dlsym mmap
          (parent number) (exited code) begin lh table limit size m₁ [] mapping opened found library
          mapped (λ m'. maps abs_exec_base 4 m' refl) (omega arith) tt in
      (
        record { memory = m₂; p_lib_base = lib_base_start_address + lib_jump_tbl_size },
        rw (loaded, has_code, always 0, always 1, set, done),
        rw (loaded, has_code, always 0, always 1, set, done'),
        IsStub-ext translate_tu_addr p_m68k_code p_block machine.memory m₂
            (λ q from.
              beside q (inr (omega (arith, from, above))) (inr (omega (arith, from, above))))
            stub,
        exec_loaded,
        stored,
      )
