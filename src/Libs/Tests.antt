-- ===== src/Libs/Tests.antt =====
-- The opening of the DOS library at concrete addresses: the theorems applied.
use Prim.Native.String.{String}
use vadm.Base.{
  ℕ, ◌%◌, true, ◌≡◌, ◌==◌, refl, arith, if◌then◌else◌, Option, none, some, List, ◌∷◌, ◌++◌,
}
use vadm.Base.Bytes.{Memory, read_bytes, le32}
use vadm.Base.Outcome.{Outcome, returns}
use vadm.Translate.Handlers.{abs_exec_base}
use vadm.Execute.Text.{codes}
use vadm.Execute.{FuncInfo, lib_base_start_address}
use vadm.Execute.Process.{Process, parent, exited, returned, load_library, exec_program, page_size}
use vadm.Execute.Loading.{IsLoaded}
use vadm.Execute.Pages.{zeroed, map_pages, map_pages-IsMapping}
use vadm.Libs.Dos
use vadm.Libs.Exec
use vadm.Libs.Open.{exec_open_library, exec_open_library_lem}
use vadm.Libs.Start.{exec_library, dos_library, opened, open_dos_library}

abbrev log : ℕ
log = 0x5555_0000

abbrev name_at : String → ℕ
name_at s = 0x5556_0000

-- A library is told by the character behind "libs/lib": that is an e in the path of the Exec library.
abbrev dlopen : List ℕ → Option ℕ
dlopen (c₁ ∷ c₂ ∷ c₃ ∷ c₄ ∷ c₅ ∷ c₆ ∷ c₇ ∷ c₈ ∷ c ∷ rest) = some (if c == 101 then 1 else 2)
dlopen path = none

abbrev dlsym : ℕ → String → Option (List FuncInfo)
dlsym lh symbol =
    if lh == 1
    then some (Exec.g_func_info_tbl 0x5557_0000 0x5557_0100)
    else some (Dos.g_func_info_tbl 0x5558_0000)

abbrev load : List ℕ → Process → Outcome (Option ℕ × Process)
load path s = load_library log name_at 0 0 dlopen dlsym map_pages path s

-- Both libraries are loaded, whatever the memory holds.
abbrev two_loaded : Process
two_loaded = opened (λ q. 0)

-- Every page can be mapped.
maps :
    (addr len : ℕ) (m : Memory)
    → addr % page_size ≡ 0
    → (m₂ : Memory) × (map_pages addr len m ≡ some m₂)
maps addr len m h =
    let page : (addr % page_size == 0) ≡ true = ground (arith, h) in (zeroed addr len m, rw page)

-- The name icon.library.
exec_open_library_lem_example :
    exec_open_library load (codes "icon" ++ codes ".library") 37 two_loaded
    ≡ load (codes "libs/lib" ++ codes "icon" ++ codes ".so") two_loaded
exec_open_library_lem_example = exec_open_library_lem load (codes "icon") 37 two_loaded (
  λ e. omega (arith, e),
  (λ e. omega (arith, e), (λ e. omega (arith, e), (λ e. omega (arith, e), tt))),
)

open_dos_library_example :
    (s : Process) × (after : Memory) × (exec_program log name_at 0 0 dlopen dlsym map_pages
        (parent 42)
        (exited 0)
        (record { memory = λ q. 0; p_lib_base = lib_base_start_address })
      ≡ returns (returned true, s))
    × (exec_open_library load (codes "dos.library") 37 s
        ≡ returns (some 0x22_0000, record { memory = after; p_lib_base = 0x22_0000 }))
    × IsLoaded log name_at 0 0
        (record { memory = after; p_lib_base = 0x22_0000 })
        (exec_library log name_at 0 0 dlopen dlsym map_pages 0x5557_0000 0x5557_0100 0x5558_0000)
    × IsLoaded log name_at 0 0
        (record { memory = after; p_lib_base = 0x22_0000 })
        (dos_library log name_at 0 0 dlopen dlsym map_pages 0x5557_0000 0x5557_0100 0x5558_0000)
    × (read_bytes after abs_exec_base 4 ≡ le32 0x21_0000)
open_dos_library_example =
    open_dos_library log name_at 0 0 dlopen dlsym map_pages 0x5557_0000 0x5557_0100 0x5558_0000
      (parent 42) (exited 0) 37 (λ q. 0) 1 2 map_pages-IsMapping maps refl refl refl refl
