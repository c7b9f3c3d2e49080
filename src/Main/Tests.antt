-- ===== src/Main/Tests.antt =====
-- The main program on the file of a program of one hunk.
use Prim.Native.String.{String}
use vadm.Base.{
  ℕ, ◌<◌, ◌≤◌, ◌+◌, ◌%◌, ◌≡◌, ◌==◌, refl, arith, Bool, true, Option, some, List, [], ◌∷◌, u32,
}
use vadm.Base.Bytes.{Memory, read_bytes, le32}
use vadm.TlCache.{null}
use vadm.Translate.Stub.{IsStub}
use vadm.Translate.Handlers.{abs_exec_base}
use vadm.Execute.{FuncInfo, lib_base_start_address, lib_jump_tbl_size}
use vadm.Execute.Process.{Process, child, parent, exited, page_size}
use vadm.Execute.Library.{IsLibrary}
use vadm.Execute.Loading.{IsLoaded}
use vadm.Execute.Pages.{zeroed, map_pages, map_pages-IsMapping}
use vadm.Libs.Exec
use vadm.Libs.Tables.{Exec-IsTable}
use vadm.Loader.Sample.{
  types, types-AreBlockTypes, blocks, image, file-Holding, mapped, loaded, blocks-PlacesAll,
}
use vadm.Loader.RoundTrip.{load_program-PlacesAll}
use vadm.Main.{exits, calls_guest, main}
use vadm.Main.Runs.{main_lem}
use vadm.Main.Ends.{Ends, main-Ends}
use vadm.Loader.State.{Image}
use mathlib.Core.Path.{subst}

abbrev log : ℕ
log = 0x5555_0000

abbrev name_at : String → ℕ
name_at s = 0x5556_0000

abbrev table : List FuncInfo
table = Exec.g_func_info_tbl 0x5557_0000 0x5557_0100

abbrev dlopen : List ℕ → Option ℕ
dlopen path = some 1

abbrev dlsym : ℕ → String → Option (List FuncInfo)
dlsym lh symbol = some table

abbrev enough_memory : ℕ → Bool
enough_memory n = true

abbrev last_hnum : ℕ → ℕ
last_hnum p = 0

abbrev thunks : ℕ
thunks = (Exec-IsTable 0x5557_0000 0x5557_0100).0

library : IsLibrary (record { p_tables = 0x20_0000; table = table; limit = 906; size = thunks })
library =
    let (size, t, small) = Exec-IsTable 0x5557_0000 0x5557_0100 in
    record { formed = t; fits = omega (arith, small) }

maps :
    (addr len : ℕ) (m : Memory)
    → addr % page_size ≡ 0
    → (m₂ : Memory) × (map_pages addr len m ≡ some m₂)
maps addr len m h =
    let page : (addr % page_size == 0) ≡ true = ground (arith, h) in (zeroed addr len m, rw page)

main_lem_example :
    (after : Process) × (main log name_at 0 0 dlopen dlsym map_pages types last_hnum enough_memory
        null null
        (some 0x7000_0000)
        0x5558_0000
        2
        4097
        true
        (some image)
        true
        child
        (exited 0)
        (λ q. 0)
      ≡ calls_guest 0x7000_0000 after)
    × (main log name_at 0 0 dlopen dlsym map_pages types last_hnum enough_memory null null
          (some 0x7000_0000)
          0x5558_0000
          2
          4097
          true
          (some image)
          true
          (parent 42)
          (exited 0)
          (λ q. 0)
        ≡ exits 0)
    × IsStub 0x5558_0000 0x10_0000 0x7000_0000 after.memory
    × IsLoaded log name_at 0 0 after
        (record { p_tables = 0x20_0000; table = table; limit = 906; size = thunks })
    × (read_bytes after.memory abs_exec_base 4
        ≡ le32 (u32 (lib_base_start_address + lib_jump_tbl_size)))
main_lem_example =
    main_lem log name_at 0 0 dlopen dlsym map_pages types last_hnum enough_memory 0x7000_0000
      0x5558_0000 4097 image (λ q. 0) (record loaded { pos = image.size }) 0x10_0000 8 1 table 906
      thunks 42 0 map_pages-IsMapping maps (λ n. refl) (omega arith) (omega arith) (omega arith)
      (load_program-PlacesAll types types-AreBlockTypes map_pages last_hnum 0 (λ p. refl) image 4097
        (omega arith) (2 ∷ []) blocks (λ q. 0) mapped loaded refl (omega arith) (omega arith, tt)
        refl blocks-PlacesAll file-Holding)
      refl refl refl library

main-Ends_example :
    Ends log name_at 0 0 dlopen dlsym map_pages types last_hnum enough_memory
      (some 0x7000_0000)
      0x5558_0000
      2
      4097
      true
      (some image)
      true
      child
      (exited 0)
      (λ q. 0)
      (main log name_at 0 0 dlopen dlsym map_pages types last_hnum enough_memory null null
        (some 0x7000_0000)
        0x5558_0000
        2
        4097
        true
        (some image)
        true
        child
        (exited 0)
        (λ q. 0))
main-Ends_example =
    main-Ends log name_at 0 0 dlopen dlsym map_pages types last_hnum enough_memory
      (some 0x7000_0000) 0x5558_0000 2 4097 true (some image) true child (exited 0) (λ q. 0)
      map_pages-IsMapping (λ b e. let same : 0x7000_0000 ≡ b = cc e in omega (arith, same))
      (λ i e.
        let same : image ≡ i = cc e in
        subst (λ (t : Image). (t.mapped < 4097) × (t.size ≤ t.mapped)) same
          (omega arith, omega arith))
