-- ===== src/Libs/Signatures.antt =====
-- The functions of the two libraries whose arguments a thunk could not pass on.
use Prim.Native.String.{String}
use vadm.Base.{ℕ, ◌≡◌, refl, Bool, ◌&&◌, List, [], ◌∷◌, leb, length, if◌then◌else◌}
use vadm.Execute.{FuncInfo}
use vadm.Execute.Text.{codes, scan_digit}
use vadm.Execute.Arguments.{is_unclobbered}
use vadm.Libs.Dos
use vadm.Libs.Exec

-- The registers of the arguments: all digits but the last two.
abbrev arguments_of : List ℕ → List ℕ
arguments_of (c ∷ d ∷ e ∷ rest) = scan_digit (c ∷ []) 0 ∷ arguments_of (d ∷ e ∷ rest)
arguments_of _ = []

abbrev is_deliverable : FuncInfo → Bool
is_deliverable pfi =
    let args : List ℕ = arguments_of (codes pfi.p_arg_regs) in
    leb (length args) 6 && is_unclobbered args

abbrev undeliverable : List FuncInfo → List String
undeliverable [] = []
undeliverable (pfi ∷ rest) =
    let others : List String = undeliverable rest in
    if is_deliverable pfi then others else pfi.p_name ∷ others

-- Six functions of the Exec library, none of them implemented.
Exec_undeliverable :
    (exec_close_library exec_open_library : ℕ)
    → undeliverable (Exec.g_func_info_tbl exec_close_library exec_open_library)
      ≡ "InitStruct" ∷ "MakeLibrary" ∷ "AddTask" ∷ "OpenDevice" ∷ "RawDoFmt" ∷ "AddMemList" ∷ []
unfolding Exec.g_func_info_tbl scan_digit is_unclobbered
Exec_undeliverable exec_close_library exec_open_library = refl

-- Three of the DOS library: `DoPkt` has seven arguments.
Dos_undeliverable :
    (dos_put_str : ℕ)
    → undeliverable (Dos.g_func_info_tbl dos_put_str) ≡ "DoPkt" ∷ "DoPkt4" ∷ "InternalLoadSeg" ∷ []
unfolding Dos.g_func_info_tbl scan_digit is_unclobbered
Dos_undeliverable dos_put_str = refl
