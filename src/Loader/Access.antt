-- ===== src/Loader/Access.antt =====
-- The steps of the loader that read the file and write to the memory of the hunks.
use vadm.Base.{
  ℕ, zero, suc, ◌+◌, ◌*◌, ◌<◌, ◌≤◌, ◌≡◌, refl, arith, ◌==◌, leb, ◌||◌, Bool, true, ◌⊎◌, List,
  length,
}
use vadm.Base.Bytes.{Memory, write_bytes, write_bytes_outside, read_bytes}
use vadm.Loader.State.{continues, Image}
use vadm.Loader.Holds.{Holds, Holds-bind, Holds-unless_fault}
use vadm.Loader.{
  hunk_start_address, max_hunks, max_hunk_size, is_hunk_memory, at_hunk, read_dword, memcpy,
}

-- The memory differs in the hunks only.
abbrev pub IsBeside : ℕ → Type 0
IsBeside q = (q < hunk_start_address) ⊎ (hunk_start_address + max_hunks * max_hunk_size ≤ q)

abbrev pub SameBeside : Memory → Memory → Type 0
SameBeside m m' = (q : ℕ) → IsBeside q → m' q ≡ m q

pub length-read_bytes : (m : Memory) (p n : ℕ) → length (read_bytes m p n) ≡ n
unfolding read_bytes
length-read_bytes m p zero = refl
length-read_bytes m p (suc n) = omega (arith, length-read_bytes m (p + 1) n)

pub write-SameBeside :
    (bs : List ℕ) (p n : ℕ) (m : Memory)
    → length bs ≡ n
    → is_hunk_memory p n ≡ true
    → SameBeside m (write_bytes bs (record { mem = m; pos = p })).mem
write-SameBeside bs p n m sized inside q beside =
    write_bytes_outside bs (record { mem = m; pos = p }) q (ground (arith, inside, beside, sized))

pub at_hunk_lem : (p n : ℕ) → Holds (λ (x : Bool). is_hunk_memory p n ≡ true) (at_hunk p n)
at_hunk_lem p n =
    Holds-unless_fault (λ x. is_hunk_memory p n ≡ true) (is_hunk_memory p n) (continues true) λ e. e

module _ (image : Image) where
  pub read_dword_lem :
      (pos : ℕ)
      → Holds (λ (r : ℕ × ℕ). (r.1 ≡ pos + 4) × (pos + 4 ≤ image.mapped)) (read_dword image pos)
  unfolding read_dword
  read_dword_lem pos =
      Holds-unless_fault (λ (r : ℕ × ℕ). (r.1 ≡ pos + 4) × (pos + 4 ≤ image.mapped))
        (leb (pos + 4) image.mapped) _ λ e. (refl, ground (arith, e))

  pub memcpy_lem : (p pos n : ℕ) (m : Memory) → Holds (SameBeside m) (memcpy image p pos n m)
  unfolding memcpy
  memcpy_lem p pos n m =
      Holds-bind (λ (x : Bool). is_hunk_memory p n ≡ true) (SameBeside m) (at_hunk p n) _
        (at_hunk_lem p n)
        λ x inside.
          Holds-bind (λ (y : Bool). Unit) (SameBeside m) _ _
            (Holds-unless_fault (λ y. Unit) (n == 0 || leb (pos + n) image.mapped) (continues true)
              λ e. tt)
            λ y e.
              write-SameBeside (read_bytes image.bytes pos n) p n m
                (length-read_bytes image.bytes pos n) inside
