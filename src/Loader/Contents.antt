-- ===== src/Loader/Contents.antt =====
-- What the loader reads where the file holds given bytes.
use vadm.Base.{
  ℕ, suc, ◌+◌, ◌^◌, ◌<◌, ◌≤◌, ◌≡◌, refl, ap₂, arith, leb, ◌==◌, ◌||◌, true, List, [], ◌∷◌, ◌++◌,
  length, length-append,
}
use vadm.Base.Bytes.{Memory, write_bytes, read_bytes}
use vadm.Loader.State.{continues, Image}
use vadm.Loader.{ntohl, htonl, is_hunk_memory, read_dword, memcpy}

-- The bytes stand at a position.
abbrev pub StandsAt : Memory → ℕ → List ℕ → Type 0
StandsAt m pos [] = Unit
StandsAt m pos (b ∷ bs) = (m pos ≡ b) × StandsAt m (pos + 1) bs

pub StandsAt-append :
    (m : Memory) (pos : ℕ) (xs ys : List ℕ)
    → StandsAt m pos (xs ++ ys)
    → StandsAt m pos xs × StandsAt m (pos + length xs) ys
StandsAt-append m pos [] ys h = let e : pos + 0 ≡ pos = omega arith in (tt, rw e h)
StandsAt-append m pos (x ∷ xs) ys (first, h) =
    let (others, behind) = StandsAt-append m (pos + 1) xs ys h in
    let e : pos + suc (length xs) ≡ pos + 1 + length xs = omega arith in
    ((first, others), rw e behind)

pub read_bytes-StandsAt :
    (m : Memory) (pos : ℕ) (bs : List ℕ) → StandsAt m pos bs → read_bytes m pos (length bs) ≡ bs
unfolding read_bytes
read_bytes-StandsAt m pos [] h = refl
read_bytes-StandsAt m pos (b ∷ bs) (first, h) = ap₂ ◌∷◌ first (read_bytes-StandsAt m (pos + 1) bs h)

ntohl-htonl : (m : Memory) (pos v : ℕ) → v < 2 ^ 32 → StandsAt m pos (htonl v) → ntohl m pos ≡ v
ntohl-htonl m pos v small (b₀, (b₁, (b₂, (b₃, none_left)))) =
    rw (b₀, b₁, shifted, b₂, again, b₃) (omega (arith, small))
  where
    shifted : pos + 2 ≡ pos + 1 + 1
    shifted = omega arith

    again : pos + 3 ≡ pos + 1 + 1 + 1
    again = omega arith

module _ (image : Image) where
  -- A dword of the file.
  pub read_dword-StandsAt :
      (pos v : ℕ) (rest : List ℕ)
      → v < 2 ^ 32
      → pos + 4 ≤ image.mapped
      → StandsAt image.bytes pos (htonl v ++ rest)
      → (read_dword image pos ≡ continues (v, pos + 4)) × StandsAt image.bytes (pos + 4) rest
  unfolding read_dword
  read_dword-StandsAt pos v rest small inside h =
      let (dword, behind) = StandsAt-append image.bytes pos (htonl v) rest h in
      let readable : leb (pos + 4) image.mapped ≡ true = ground (arith, inside) in
      (rw (readable, ntohl-htonl image.bytes pos v small dword), behind)

  pub memcpy-StandsAt :
      (p pos : ℕ) (bs rest : List ℕ) (m : Memory)
      → is_hunk_memory p (length bs) ≡ true
      → pos + length bs ≤ image.mapped
      → StandsAt image.bytes pos (bs ++ rest)
      → (memcpy image p pos (length bs) m
          ≡ continues (write_bytes bs (record { mem = m; pos = p })).mem)
        × StandsAt image.bytes (pos + length bs) rest
  unfolding memcpy
  memcpy-StandsAt p pos bs rest m writable inside h =
      let (contents, behind) = StandsAt-append image.bytes pos bs rest h in
      let readable : (length bs == 0 || leb (pos + length bs) image.mapped) ≡ true =
        ground (arith, inside) in
      (rw (writable, readable, read_bytes-StandsAt image.bytes pos bs contents), behind)

-- The bytes are the rest of the file from a position on, and can be read.
pub record Holding (image : Image) (pos : ℕ) (bs : List ℕ) : Type 0 where
  pub stands : StandsAt image.bytes pos bs
  pub readable : pos + length bs ≤ image.mapped
  pub ends : pos + length bs ≡ image.size

module _ (image : Image) where
  pub Holding-append :
      (pos : ℕ) (xs ys : List ℕ)
      → Holding image pos (xs ++ ys)
      → (pos + length xs ≤ image.mapped) × Holding image (pos + length xs) ys
  Holding-append pos xs ys h =
      let (before, behind) = StandsAt-append image.bytes pos xs ys h.stands in
      (
        omega (arith, h.readable, length-append xs ys),
        record {
          stands = behind;
          readable = omega (arith, h.readable, length-append xs ys);
          ends = omega (arith, h.ends, length-append xs ys);
        },
      )

  pub next_dword :
      (pos v : ℕ) (rest : List ℕ)
      → v < 2 ^ 32
      → Holding image pos (htonl v ++ rest)
      → (read_dword image pos ≡ continues (v, pos + 4)) × Holding image (pos + 4) rest
  next_dword pos v rest small h =
      let (readable, others) = Holding-append pos (htonl v) rest h in
      let (read, behind) = read_dword-StandsAt image pos v rest small readable h.stands in
      (read, others)

  pub next_bytes :
      (p pos : ℕ) (bs rest : List ℕ) (m : Memory)
      → is_hunk_memory p (length bs) ≡ true
      → Holding image pos (bs ++ rest)
      → (memcpy image p pos (length bs) m
          ≡ continues (write_bytes bs (record { mem = m; pos = p })).mem)
        × Holding image (pos + length bs) rest
  next_bytes p pos bs rest m writable h =
      let (readable, others) = Holding-append pos bs rest h in
      let (copied, behind) = memcpy-StandsAt image p pos bs rest m writable readable h.stands in
      (copied, others)
