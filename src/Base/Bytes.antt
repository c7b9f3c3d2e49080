-- ===== src/Base/Bytes.antt =====
-- The memory of the process: a byte for each address. A position that code is generated at is a
-- pointer that each write advances, as `*p_pos++ = val` and `write_byte(val, &pos)` do.
use mathlib.Core.Path.{◌≡◌, refl, ap, ap₂, ◌∙◌}
use mathlib.Core.List.{List, [], ◌∷◌, ◌++◌}
use Prim.Native.Nat.{ℕ, zero, suc, ◌+◌, ◌/◌, ◌^◌, ◌≤◌, ◌<◌}
use mathlib.Core.Logic.{◌⊎◌, inl}
use native.Mathlib.Nat.{zero-add, add-zero}
use native.Mathlib.Omega.{arith}
use vadm.Base.Tests.{◌==◌, if◌then◌else◌}
use vadm.Base.Words.{u8}
use vadm.Base.Lists.{length, replicate}

abbrev pub Memory : Type 0
Memory = ℕ → ℕ

abbrev pub store : ℕ → ℕ → Memory → Memory
store p b m q = if p == q then b else m q

-- A memory and the position in it that the next byte is written to.
pub record Out : Type 0 where
  pub mem : Memory
  pub pos : ℕ

-- One byte is put down and the position moves on.
abbrev pub put : ℕ → Out → Out
put b o = record { mem = store o.pos b o.mem; pos = o.pos + 1 }

unfoldable pub write_byte : ℕ → Out → Out
write_byte v o = put (u8 v) o

unfoldable pub write_dword : ℕ → Out → Out
unfolding write_byte
write_dword v o =
    write_byte (v / 2 ^ 24) (write_byte (v / 2 ^ 16) (write_byte (v / 2 ^ 8) (write_byte v o)))

unfoldable pub write_qword : ℕ → Out → Out
unfolding write_dword
write_qword v o = write_dword (v / 2 ^ 32) (write_dword v o)

-- Bytes written one after the other.
unfoldable pub write_bytes : List ℕ → Out → Out
write_bytes [] o = o
write_bytes (b ∷ bs) o = write_bytes bs (put b o)

-- The bytes of a little-endian number.
abbrev pub le32 : ℕ → List ℕ
le32 v = u8 v ∷ u8 (v / 2 ^ 8) ∷ u8 (v / 2 ^ 16) ∷ u8 (v / 2 ^ 24) ∷ []

abbrev pub le64 : ℕ → List ℕ
le64 v = le32 v ++ le32 (v / 2 ^ 32)

-- `n` bytes read from a position.
unfoldable pub read_bytes : Memory → ℕ → ℕ → List ℕ
read_bytes m p zero = []
read_bytes m p (suc n) = m p ∷ read_bytes m (p + 1) n

abbrev pub IsByte : ℕ → Type 0
IsByte b = b < 2 ^ 8

pub write_bytes-append :
    (xs ys : List ℕ) (o : Out) → write_bytes ys (write_bytes xs o) ≡ write_bytes (xs ++ ys) o
unfolding write_bytes
write_bytes-append [] ys o = refl
write_bytes-append (x ∷ xs) ys o = write_bytes-append xs ys (put x o)

-- Each write as a write of a list of bytes.
pub write_byte_lem : (v : ℕ) (o : Out) → write_byte v o ≡ write_bytes (u8 v ∷ []) o
unfolding write_bytes write_byte
write_byte_lem v o = refl

pub write_dword_lem : (v : ℕ) (o : Out) → write_dword v o ≡ write_bytes (le32 v) o
unfolding write_bytes write_dword
write_dword_lem v o = refl

pub write_qword_lem : (v : ℕ) (o : Out) → write_qword v o ≡ write_bytes (le64 v) o
unfolding write_bytes write_qword
write_qword_lem v o = refl

pub pos-write_bytes : (bs : List ℕ) (o : Out) → (write_bytes bs o).pos ≡ o.pos + length bs
unfolding write_bytes
pos-write_bytes [] o = omega arith
pos-write_bytes (b ∷ bs) o = omega (arith, pos-write_bytes bs (put b o))

-- A write changes nothing before its position, nor behind its last byte.
pub write_bytes_outside :
    (bs : List ℕ) (o : Out) (q : ℕ)
    → (q < o.pos) ⊎ (o.pos + length bs ≤ q)
    → (write_bytes bs o).mem q ≡ o.mem q
unfolding write_bytes
write_bytes_outside [] o q h = refl
write_bytes_outside (b ∷ bs) o q h = ground (arith, write_bytes_outside bs (put b o) q)

-- What was written is read back.
pub read_bytes-write_bytes :
    (bs : List ℕ) (o : Out) → read_bytes (write_bytes bs o).mem o.pos (length bs) ≡ bs
unfolding read_bytes write_bytes
read_bytes-write_bytes [] o = refl
read_bytes-write_bytes (b ∷ bs) o =
    ap₂ ◌∷◌ (write_bytes_outside bs (put b o) o.pos (inl (omega arith)) ∙ store_self)
      (read_bytes-write_bytes bs (put b o))
  where
    store_self : store o.pos b o.mem o.pos ≡ b
    store_self = ground arith

-- Reading looks only at the bytes that it reads.
pub read_bytes_ext :
    (n : ℕ) (m m' : Memory) (p : ℕ)
    → ((q : ℕ) → p ≤ q → q < p + n → m q ≡ m' q)
    → read_bytes m p n ≡ read_bytes m' p n
unfolding read_bytes
read_bytes_ext zero m m' p h = refl
read_bytes_ext (suc n) m m' p h =
    ap₂ ◌∷◌ (h p (omega arith) (omega arith))
      (read_bytes_ext n m m' (p + 1) λ q a b. h q (omega arith) (omega arith))

pub read_bytes-add :
    (n k p : ℕ) (m : Memory) → read_bytes m p (n + k) ≡ read_bytes m p n ++ read_bytes m (p + n) k
unfolding read_bytes
read_bytes-add zero k p m = rw (zero-add, add-zero)
read_bytes-add (suc n) k p m =
    rw (left, right) (ap (λ (l : List ℕ). m p ∷ l) (read_bytes-add n k (p + 1) m))
  where
    left : suc n + k ≡ suc (n + k)
    left = omega arith

    right : p + suc n ≡ p + 1 + n
    right = omega arith

pub read_bytes-constant :
    (n b p : ℕ) (m : Memory)
    → ((q : ℕ) → p ≤ q → q < p + n → m q ≡ b)
    → read_bytes m p n ≡ replicate n b
unfolding read_bytes
read_bytes-constant zero b p m h = refl
read_bytes-constant (suc n) b p m h =
    ap₂ ◌∷◌ (h p (omega arith) (omega arith))
      (read_bytes-constant n b (p + 1) m λ q x y. h q (omega arith) (omega arith))
