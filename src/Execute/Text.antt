-- ===== src/Execute/Text.antt =====
-- The text of `p_arg_regs`, as the code points of a string, and what `sscanf` reads in it.
use Prim.Native.Char.{code}
use Prim.Native.String.{String}
use vadm.Base.{
  ℕ, zero, suc, ◌-◌, Bool, ◌&&◌, ◌||◌, Option, none, some, List, [], ◌∷◌, leb, ◌==◌, if◌then◌else◌,
}

abbrev pub codes : String → List ℕ
codes String.[] = []
codes (String.◌∷◌ c s) = code c ∷ codes s

-- The text from a position on; `none` behind the terminating NUL.
unfoldable pub text_at : List ℕ → ℕ → Option (List ℕ)
text_at text zero = some text
text_at [] (suc i) = none
text_at (c ∷ text) (suc i) = text_at text i

abbrev is_space : ℕ → Bool
is_space c = c == 32 || (leb 9 c && leb c 13)

abbrev is_between : ℕ → ℕ → ℕ → Bool
is_between lo hi c = leb lo c && leb c hi

-- `sscanf(text, "%1hhx", &v)`: spaces are skipped, and one hexadecimal digit is stored; if there is
-- none, `v` stays as it is.
unfoldable pub scan_digit : List ℕ → ℕ → ℕ
scan_digit [] v = v
scan_digit (c ∷ text) v =
    let rest : ℕ = scan_digit text v in
    if is_space c
    then rest
    else if is_between b'0' b'9' c
    then c - 48
    else if is_between b'A' b'F' c
    then c - 55
    else if is_between b'a' b'f' c
    then c - 87
    else v
