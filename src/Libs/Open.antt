-- ===== src/Libs/Open.antt =====
-- libs/libexec.c: the functions of the Exec library that are implemented. `strlcpy`, `strlcat` and
-- `strtok` work on the characters before the NUL.
use vadm.Base.{
  leb, Bool-cases, inl, inr, ℕ, zero, suc, ◌+◌, ◌-◌, ◌<◌, ◌≤◌, ◌≡◌, ◌≢◌, refl, ap, arith, ◌==◌, ltb,
  true, false, if◌then◌else◌, Option, none, List, [], ◌∷◌, ◌++◌, All, length, length-append,
}
use vadm.Base.Outcome.{Outcome, returns}
use vadm.Execute.Text.{codes}
use vadm.Execute.Process.{Process}

abbrev pub max_path_len : ℕ
max_path_len = 256

abbrev dot : ℕ
dot = 46

abbrev take : List ℕ → ℕ → List ℕ
take xs zero = []
take [] (suc n) = []
take (x ∷ xs) (suc n) = x ∷ take xs n

-- What the buffer holds after `strlcpy(buffer, src, size)`.
abbrev strlcpy : List ℕ → ℕ → List ℕ
strlcpy src size = take src (size - 1)

-- What it holds after `strlcat(dst, src, size)`, and what the call returns.
abbrev strlcat : List ℕ → List ℕ → ℕ → List ℕ × ℕ
strlcat dst src size =
    if ltb (length dst) size
    then (take (dst ++ src) (size - 1), length dst + length src)
    else (dst, size + length src)

abbrev before_dot : List ℕ → List ℕ
before_dot [] = []
before_dot (c ∷ s) = let rest : List ℕ = before_dot s in if c == dot then [] else c ∷ rest

-- What it holds after `strtok(buffer, ".")`: leading dots stay, and the next one ends the text.
abbrev strtok : List ℕ → List ℕ
strtok [] = []
strtok (c ∷ s) = let rest : List ℕ = strtok s in if c == dot then c ∷ rest else c ∷ before_dot s

module _ (load_library : List ℕ → Process → Outcome (Option ℕ × Process)) where
  unfoldable pub exec_open_library : List ℕ → ℕ → Process → Outcome (Option ℕ × Process)
  exec_open_library p_lib_name lib_version s =
      let (path, wanted) =
        strlcat (strlcpy (codes "libs/lib") max_path_len) p_lib_name max_path_len in
      if ltb max_path_len wanted
      then returns (none, s)
      else (let (path', wanted') = strlcat (strtok path) (codes ".so") max_path_len in
          load_library path' s)

take_all : (xs : List ℕ) (n : ℕ) → length xs ≤ n → take xs n ≡ xs
take_all [] zero h = refl
take_all [] (suc n) h = refl
take_all (x ∷ xs) zero h = absurd (omega (arith, h))
take_all (x ∷ xs) (suc n) h = ap (λ (l : List ℕ). x ∷ l) (take_all xs n (omega (arith, h)))

strlcat_fits :
    (dst src : List ℕ) (size : ℕ)
    → length dst + length src < size
    → strlcat dst src size ≡ (dst ++ src, length dst + length src)
strlcat_fits dst src size h =
    let inside : ltb (length dst) size ≡ true = ground arith in
    rw (inside, take_all (dst ++ src) (size - 1) (omega (arith, length-append dst src, h)))

-- The text before the first dot, whatever is cut off behind that.
before_dot-take :
    (stem rest : List ℕ) (n : ℕ)
    → All (λ c. c ≢ dot) stem
    → length stem < n
    → before_dot (take (stem ++ dot ∷ rest) n) ≡ stem
before_dot-take [] rest zero h long = absurd (omega (arith, long))
before_dot-take [] rest (suc n) h long = refl
before_dot-take (c ∷ stem) rest zero h long = absurd (omega (arith, long))
before_dot-take (c ∷ stem) rest (suc n) (differs, h) long =
    let e : (c == dot) ≡ false = ground (arith, differs) in
    rw e (ap (λ (l : List ℕ). c ∷ l) (before_dot-take stem rest n h (omega (arith, long))))

module _ (load_library : List ℕ → Process → Outcome (Option ℕ × Process)) where
  -- `exec_open_library`, called with a name `stem`.library whose stem has no dot, loads the library at
  -- the path libs/lib`stem`.so, if the stem has at most 240 characters; for a longer one it returns NULL
  -- and loads nothing.
  pub exec_open_library_lem :
      (stem : List ℕ) (lib_version : ℕ) (s : Process)
      → All (λ c. c ≢ dot) stem
      → exec_open_library load_library (stem ++ codes ".library") lib_version s ≡ (
          if leb (length stem) 240
          then load_library (codes "libs/lib" ++ stem ++ codes ".so") s
          else returns (none, s))
  unfolding exec_open_library
  exec_open_library_lem stem lib_version s no_dot = elim (Bool-cases (leb (length stem) 240)) [
    | inl e ↦ rw e (fits (ground (arith, e)))
    | inr e ↦ rw e (too_long (ground (arith, e)))
  ]
    where
      wanted : length (stem ++ codes ".library") ≡ length stem + 8
      wanted = length-append stem (codes ".library")

      fits :
          length stem ≤ 240
          → exec_open_library load_library (stem ++ codes ".library") lib_version s
            ≡ load_library (codes "libs/lib" ++ stem ++ codes ".so") s
      fits h =
          let admitted : ltb max_path_len (8 + (length stem + 8)) ≡ false = ground arith in
          rw
            (wanted, admitted, before_dot-take stem (codes "library") 247 no_dot (omega (arith, h)))
            (ap (λ (r : List ℕ × ℕ). load_library r.0 s)
              (strlcat_fits (codes "libs/lib" ++ stem) (codes ".so") max_path_len
                (omega (arith, h))))

      too_long :
          240 < length stem
          → exec_open_library load_library (stem ++ codes ".library") lib_version s
            ≡ returns (none, s)
      too_long h =
          let refused : ltb max_path_len (8 + (length stem + 8)) ≡ true = ground arith in
          rw (wanted, refused)
