-- ===== src/Base/Tables.antt =====
-- Equations over a small range of numbers, checked by evaluating both sides at every value.
use Prim.Native.Nat.{ℕ, zero, suc, ◌<◌}
use mathlib.Core.Path.{◌≡◌, ap}
use mathlib.Core.List.{List, [], ◌∷◌}
use mathlib.Core.Logic.{◌⊎◌, inl, inr}
use native.Mathlib.Omega.{arith}

abbrev head_or {ℓ} : {A : Type ℓ} → A → List A → A
head_or a [] = a
head_or a (x ∷ xs) = x

abbrev rest_of {ℓ} : {A : Type ℓ} → List A → List A
rest_of [] = []
rest_of (x ∷ xs) = xs

-- The values at `n - 1`, …, `0`.
unfoldable pub tabulate {ℓ} : {A : Type ℓ} → ℕ → (ℕ → A) → List A
tabulate zero f = []
tabulate (suc n) f = f n ∷ tabulate n f

pub tabulate_ext {ℓ} :
    {A : Type ℓ} (n : ℕ) (f g : ℕ → A) (x : ℕ) → tabulate n f ≡ tabulate n g → x < n → f x ≡ g x
unfolding tabulate
tabulate_ext zero f g x h lt = absurd (omega arith)
tabulate_ext (suc n) f g x h lt = elim (last_or_below) [
  | inl here ↦ rw here (ap (head_or (f n)) h)
  | inr below ↦ tabulate_ext n f g x (ap rest_of h) below
]
  where
    last_or_below : (x ≡ n) ⊎ (x < n)
    last_or_below = omega arith

-- The same over two arguments.
pub tabulate_ext₂ {ℓ} :
    {A : Type ℓ} (n m : ℕ) (f g : ℕ → ℕ → A) (x y : ℕ)
    → tabulate n (λ a. tabulate m (f a)) ≡ tabulate n (λ a. tabulate m (g a))
    → x < n
    → y < m
    → f x y ≡ g x y
tabulate_ext₂ n m f g x y h hx hy =
    tabulate_ext m (f x) (g x) y
      (tabulate_ext n (λ a. tabulate m (f a)) (λ a. tabulate m (g a)) x h hx) hy
