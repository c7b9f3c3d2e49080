-- ===== src/Loader/Invariant.antt =====
-- What holds of the variables of `load_program` after each block.
use vadm.Base.{
  ℕ, zero, suc, ◌+◌, ◌-◌, ◌*◌, ◌<◌, ◌≤◌, ◌≡◌, ◌∙◌, arith, ◌==◌, ltb, leb, true, Bool-cases, inl,
  inr, Option, some, u32,
}
use vadm.Base.Bytes.{Memory}
use mathlib.Core.Path.{subst}
use vadm.Loader.State.{continues, or_fault, Image, Loader}
use vadm.Loader.Holds.{
  Holds, Holds-bind, Holds-map, Holds-require, Holds-or_fault, Holds-unless_fault,
}
use vadm.Loader.Access.{SameBeside, read_dword_lem}
use vadm.Loader.{hunk_start_address, max_hunks, max_hunk_size, hunk_address, set_address, size_loop}

-- The address of one of the four hunks.
abbrev pub IsHunk : ℕ → Type 0
IsHunk a = (j : ℕ) × (j < max_hunks) × (a ≡ hunk_start_address + j * max_hunk_size)

abbrev pub AllHunks : (ℕ → Option ℕ) → Type 0
AllHunks addresses = (i a : ℕ) → addresses i ≡ some a → IsHunk a

-- The addresses that are set are those of hunks, the memory beside the hunks is as it was at first, and
-- the code, if there is any, begins at a hunk and leaves room for an instruction.
pub record IsValid (m₀ : Memory) (s : Loader) : Type 0 where
  pub addresses : AllHunks s.hunk_addresses
  pub outside : SameBeside m₀ s.memory
  pub code : (a n : ℕ) → s.code ≡ some (a, n) → IsHunk a × (n ≤ max_hunk_size - 4)

-- The variables are valid, and the position has not gone back behind `p`.
abbrev pub ValidFrom : Memory → ℕ → Loader → Type 0
ValidFrom m₀ p s = IsValid m₀ s × (p ≤ s.pos)

pub hunk_address_lem :
    (addresses : ℕ → Option ℕ) (i : ℕ)
    → AllHunks addresses
    → Holds IsHunk (hunk_address addresses i)
hunk_address_lem addresses i h =
    Holds-unless_fault IsHunk (ltb i max_hunks) (or_fault (addresses i)) λ e.
      Holds-map (λ a. addresses i ≡ some a) IsHunk (or_fault (addresses i))
        (Holds-or_fault (addresses i)) λ a found. h i a found

set_address-AllHunks :
    (i a : ℕ) (addresses : ℕ → Option ℕ)
    → IsHunk a
    → AllHunks addresses
    → AllHunks (set_address i a addresses)
set_address-AllHunks i a addresses is_hunk h k b e = elim (Bool-cases (k == i)) [
  | inl here ↦ let same : a ≡ b = cc (rw here at e) in subst IsHunk same is_hunk
  | inr elsewhere ↦ h k b (rw elsewhere at e)
]

-- A write to a hunk keeps what holds.
pub write-IsValid :
    (m₀ : Memory) (s : Loader) (m : Memory) (p : ℕ)
    → SameBeside s.memory m
    → IsValid m₀ s
    → IsValid m₀ (record s { memory = m; pos = p })
write-IsValid m₀ s m p same v = record {
  addresses = v.addresses;
  outside = λ q h. same q h ∙ v.outside q h;
  code = v.code;
}

-- The dword is read, and the position behind it is returned.
abbrev pub DwordRead : Image → ℕ → ℕ × ℕ → Type 0
DwordRead image pos r = (r.1 ≡ pos + 4) × (pos + 4 ≤ image.mapped)

abbrev pub SizesRead : ℕ → (ℕ → Option ℕ) × ℕ → Type 0
SizesRead pos r = AllHunks r.0 × (pos ≤ r.1)

module _ (image : Image) (m₀ : Memory) where
  pub size_loop_lem :
      (left i k hunk_addr pos : ℕ) (addresses : ℕ → Option ℕ)
      → hunk_addr ≡ hunk_start_address + k * max_hunk_size
      → k ≤ i
      → AllHunks addresses
      → Holds (SizesRead pos) (size_loop image left i addresses hunk_addr pos)
  unfolding size_loop
  size_loop_lem zero i k hunk_addr pos addresses e behind h = (h, omega arith)
  size_loop_lem (suc left) i k hunk_addr pos addresses e behind h =
      Holds-bind (DwordRead image pos) (SizesRead pos) _ _ (read_dword_lem image pos) λ r read.
        Holds-bind (λ x. leb (u32 (r.0 * 4)) max_hunk_size ≡ true) (SizesRead pos) _ _
          (Holds-require _)
          λ x small.
            Holds-bind (λ y. i < max_hunks) (SizesRead pos) _ _
              (Holds-unless_fault (λ y. i < max_hunks) (ltb i max_hunks) (continues true)
                (λ t. ground (arith, t)))
              λ y inside.
                Holds-map (SizesRead r.1) (SizesRead pos) _
                  (size_loop_lem left (i + 1) (k + 1) (hunk_addr + max_hunk_size) r.1
                    (set_address i hunk_addr addresses) (omega (arith, e)) (omega (arith, behind))
                    (set_address-AllHunks i hunk_addr addresses
                      (k, omega (arith, behind, inside), e) h))
                  λ t ok. (ok.0, omega (arith, ok.1, read.0))
