-- ===== src/Libs/Tables.antt =====
-- The tables of both libraries are well formed.
use vadm.Base.{
  ℕ, zero, suc, ◌<◌, ◌≤◌, ◌≡◌, refl, arith, ltb, leb, ◌&&◌, Bool, Bool-cases, inl, inr,
  if◌then◌else◌, true, false, Option, none, some, List, [], ◌∷◌,
}
use mathlib.Core.Path.{subst}
use vadm.Execute.Text.{codes}
use vadm.Execute.{FuncInfo}
use vadm.Execute.Moves.{IsSignature}
use vadm.Execute.Entries.{IsTable, end, unimplemented, implemented}
use vadm.Libs.Dos
use vadm.Libs.Exec

abbrev has_no_func : Option ℕ → Bool
has_no_func none = true
has_no_func (some a) = false

abbrev after : ℕ → List FuncInfo → List FuncInfo
after zero table = table
after (suc k) [] = []
after (suc k) (pfi ∷ rest) = after k rest

-- The entry may follow one at the offset `low`, and its function is not implemented.
abbrev may_follow : ℕ → ℕ → FuncInfo → Bool
may_follow limit low pfi =
    has_no_func pfi.p_func && ltb 0 pfi.offset && leb low pfi.offset && leb pfi.offset limit

none_of_null : (o : Option ℕ) → has_no_func o ≡ true → o ≡ none
none_of_null none h = refl
none_of_null (some a) h = cc

may_follow-null :
    (limit low : ℕ) (pfi : FuncInfo)
    → may_follow limit low pfi ≡ true
    → has_no_func pfi.p_func ≡ true
may_follow-null limit low pfi h = ground arith

may_follow_parts :
    (limit low : ℕ) (pfi : FuncInfo)
    → may_follow limit low pfi ≡ true
    → (0 < pfi.offset) × (low ≤ pfi.offset) × (pfi.offset ≤ limit)
may_follow_parts limit low pfi h = (ground arith, ground arith, ground arith)

-- The first `k` entries are of functions that are not implemented, with offsets that do not fall; the
-- last offset is returned.
unimplemented_run : ℕ → ℕ → ℕ → List FuncInfo → Option ℕ
unimplemented_run limit zero low table = some low
unimplemented_run limit (suc k) low [] = none
unimplemented_run limit (suc k) low (pfi ∷ rest) =
    let last : Option ℕ = unimplemented_run limit k pfi.offset rest in
    if may_follow limit low pfi then last else none

skip_run :
    (limit k low size last : ℕ) (table : List FuncInfo)
    → unimplemented_run limit k low table ≡ some last
    → IsTable limit last size (after k table)
    → IsTable limit low size table
unfolding unimplemented_run
skip_run limit zero low size last table h t =
    let e : last ≡ low = cc in subst (λ l. IsTable limit l size table) e t
skip_run limit (suc k) low size last [] h t = cc
skip_run limit (suc k) low size last (pfi ∷ rest) h t =
    elim (Bool-cases (may_follow limit low pfi)) [
      | inl e ↦
          let (positive, ordered, inside) = may_follow_parts limit low pfi e in
          unimplemented (none_of_null pfi.p_func (may_follow-null limit low pfi e)) positive ordered
            inside (skip_run limit k pfi.offset size last rest (rw e at h) t)
      | inr e ↦ absurd (refused e)
    ]
  where
    refused : may_follow limit low pfi ≡ false → ⊥
    refused e = cc (rw e at h)

-- `dos_put_str` takes one argument in D1; its result goes to D0.
abbrev put_str_args : List ℕ
put_str_args = 1 ∷ []

put_str-IsSignature : IsSignature (codes "101") put_str_args 0
put_str-IsSignature = record {
  spelled = refl;
  registers = (omega arith, tt);
  result_register = omega arith;
  few = omega arith;
}

-- `exec_close_library` takes one argument in A1, `exec_open_library` in A1 and D0.
abbrev close_library_args : List ℕ
close_library_args = 9 ∷ []

close_library-IsSignature : IsSignature (codes "901") close_library_args 0
close_library-IsSignature = record {
  spelled = refl;
  registers = (omega arith, tt);
  result_register = omega arith;
  few = omega arith;
}

abbrev open_library_args : List ℕ
open_library_args = 0 ∷ 9 ∷ []

open_library-IsSignature : IsSignature (codes "0902") open_library_args 0
open_library-IsSignature = record {
  spelled = refl;
  registers = (omega arith, (omega arith, tt));
  result_register = omega arith;
  few = omega arith;
}

-- The table of the DOS library is well formed, whatever the address of `dos_put_str`.
pub Dos-IsTable :
    (dos_put_str : ℕ)
    → (size : ℕ) × IsTable 996 1 size (Dos.g_func_info_tbl dos_put_str) × (size ≤ 1000)
unfolding Dos.g_func_info_tbl unimplemented_run
Dos-IsTable dos_put_str = (
  _,
  skip_run 996 156 1 _ _ (Dos.g_func_info_tbl dos_put_str) refl (
      implemented dos_put_str put_str_args 0 refl put_str-IsSignature (omega arith) (omega arith)
        (omega arith) (skip_run 996 6 _ _ _ _ refl (end refl))),
  omega arith,
)

-- That of the Exec library as well.
pub Exec-IsTable :
    (exec_close_library exec_open_library : ℕ)
    → (size : ℕ) × IsTable 906 1 size (Exec.g_func_info_tbl exec_close_library exec_open_library)
      × (size ≤ 1000)
unfolding Exec.g_func_info_tbl unimplemented_run
Exec-IsTable exec_close_library exec_open_library = (
  _,
  skip_run 906 58 1 _ _ (Exec.g_func_info_tbl exec_close_library exec_open_library) refl (
      implemented exec_close_library close_library_args 0 refl close_library-IsSignature
        (omega arith) (omega arith) (omega arith)
        (skip_run 906 19 _ _ _ _ refl (
          implemented exec_open_library open_library_args 0 refl open_library-IsSignature
            (omega arith) (omega arith) (omega arith) (skip_run 906 46 _ _ _ _ refl (end refl))))),
  omega arith,
)
