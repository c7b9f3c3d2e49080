-- ===== src/Base/Bits.antt =====
-- Laws of `&` with a single bit and with a shifted mask, at variables, from the digit recursion
-- that the native operation stands for.
use Prim.Native.Nat.{
  ℕ, zero, suc, ◌+◌, ◌-◌, ◌*◌, ◌/◌, ◌%◌, ◌^◌, ◌≤◌, ◌<◌, min, bit_and, digits, bit_and-bitwise,
}
use mathlib.Core.Path.{◌≡◌, refl, sym, ap, ◌∙◌}
use native.Mathlib.Nat.{
  pow-suc, div-add-mod, mul_comm, mod-lt, one-le-pow, div-div-eq-div-mul, mul-one, one-mul, div-one,
}
use native.Mathlib.Omega.{arith}

-- What `&` stands for, with the fuel open.
abbrev conjunction : ℕ → ℕ → ℕ → ℕ
conjunction fuel x y = digits (λ t. zero) min fuel x y

-- Fuel that reaches the first number gives the same as the number itself does.
settled : (bound fuel x y : ℕ) → fuel ≤ bound → x ≤ fuel → conjunction fuel x y ≡ conjunction x x y
settled bound zero zero y small reaches = refl
settled bound (suc fuel) zero y small reaches = refl
settled bound zero (suc x) y small reaches = absurd (omega arith)
settled zero (suc fuel) (suc x) y small reaches = absurd (omega arith)
settled (suc bound) (suc fuel) (suc x) y small reaches = omega (
  arith,
  settled bound fuel (suc x / 2) (y / 2) (omega arith) (omega arith),
  settled bound x (suc x / 2) (y / 2) (omega arith) (omega arith),
)

pub zero-bit_and : (y : ℕ) → bit_and 0 y ≡ 0
zero-bit_and y = bit_and-bitwise 0 y

-- One step of the recursion on binary digits.
halved : (x y : ℕ) → bit_and x y ≡ min (x % 2) (y % 2) + 2 * bit_and (x / 2) (y / 2)
halved zero y = omega (arith, zero-bit_and y, zero-bit_and (y / 2))
halved (suc x) y = omega (
  arith,
  settled x x (suc x / 2) (y / 2) (omega arith) (omega arith),
  bit_and-bitwise (suc x / 2) (y / 2),
  bit_and-bitwise (suc x) y,
)

no_digits : (fuel x : ℕ) → conjunction fuel x 0 ≡ 0
no_digits zero x = refl
no_digits (suc fuel) zero = refl
no_digits (suc fuel) (suc x) = omega (arith, no_digits fuel (suc x / 2))

pub bit_and-zero : (x : ℕ) → bit_and x 0 ≡ 0
bit_and-zero x = bit_and-bitwise x 0 ∙ no_digits x x

pub bit_and-one : (x : ℕ) → bit_and x 1 ≡ x % 2
bit_and-one x = omega (arith, bit_and-zero (x / 2), halved x 1)

two_pow-suc : (k : ℕ) → 2 ^ suc k ≡ 2 * 2 ^ k
two_pow-suc k = omega (arith, pow-suc 2 k)

pub div-two_pow-suc : (a k : ℕ) → a / 2 ^ suc k ≡ a / 2 / 2 ^ k
div-two_pow-suc a k = ap (λ (t : ℕ). a / t) (two_pow-suc k) ∙ sym (div-div-eq-div-mul a 2 (2 ^ k))

-- A mask whose low `k` digits are 0 is a shift by `k`.
pub bit_and-shifted : (k a m : ℕ) → bit_and a (m * 2 ^ k) ≡ bit_and (a / 2 ^ k) m * 2 ^ k
bit_and-shifted zero a m = simp (mul-one, div-one)
bit_and-shifted (suc k) a m = omega (
  arith,
  ap (λ (t : ℕ). bit_and a t) (doubled),
  halved a (2 * (m * 2 ^ k)),
  ap (λ (t : ℕ). bit_and (a / 2) t) (half),
  bit_and-shifted k (a / 2) m,
  ap (λ (t : ℕ). bit_and t m * (2 * 2 ^ k)) (div-two_pow-suc a k),
  ap (λ (t : ℕ). bit_and (a / 2 ^ suc k) m * t) (two_pow-suc k),
)
  where
    doubled : m * 2 ^ suc k ≡ 2 * (m * 2 ^ k)
    doubled = omega (arith, ap (λ (t : ℕ). m * t) (two_pow-suc k))

    half : 2 * (m * 2 ^ k) / 2 ≡ m * 2 ^ k
    half = omega arith

-- The test of bit `k`.
pub bit_and-two_pow : (a k : ℕ) → bit_and a (2 ^ k) ≡ a / 2 ^ k % 2 * 2 ^ k
bit_and-two_pow a k = omega (
  arith,
  ap (λ (t : ℕ). bit_and a t) (one-mul (2 ^ k)),
  bit_and-shifted k a 1,
  ap (λ (t : ℕ). t * 2 ^ k) (bit_and-one (a / 2 ^ k)),
)

-- The remainder by a power of two, from its highest binary digit.
pub mod-two_pow-suc : (k a : ℕ) → a % 2 ^ suc k ≡ a / 2 ^ k % 2 * 2 ^ k + a % 2 ^ k
mod-two_pow-suc k a = omega (
  arith,
  div-add-mod a (2 ^ k),
  div-add-mod a (2 ^ suc k),
  ap (λ (t : ℕ). 2 ^ k * t) (halves (a / 2 ^ k)),
  ap (λ (t : ℕ). t * (a / 2 ^ suc k)) (two_pow-suc k),
  ap (λ (t : ℕ). 2 ^ k * t) (quotient),
)
  where
    halves : (q : ℕ) → q ≡ 2 * (q / 2) + q % 2
    halves q = omega arith

    quotient : a / 2 ^ suc k ≡ a / 2 ^ k / 2
    quotient =
        ap (λ (t : ℕ). a / t) (two_pow-suc k ∙ mul_comm 2 (2 ^ k))
        ∙ sym (div-div-eq-div-mul a (2 ^ k) 2)

pub mod-two_pow-lt : (k a : ℕ) → a % 2 ^ k < 2 ^ k
mod-two_pow-lt k a = mod-lt a (one-le-pow k 2 (omega arith))

mod-twice : (k a : ℕ) → a % 2 ^ suc k ≡ a / 2 % 2 ^ k * 2 + a % 2
mod-twice k a = omega (
  arith,
  div-add-mod (a / 2) (2 ^ k),
  div-add-mod a (2 ^ suc k),
  ap (λ (t : ℕ). t * (a / 2 ^ suc k)) (two_pow-suc k),
  ap (λ (t : ℕ). 2 ^ k * t) (div-two_pow-suc a k),
)

-- A mask of the `k` lowest digits is the remainder by `2 ^ k`.
pub bit_and-mask : (k a : ℕ) → bit_and a (2 ^ k - 1) ≡ a % 2 ^ k
bit_and-mask zero a = omega (arith, bit_and-zero a)
bit_and-mask (suc k) a = omega (
  arith,
  halved a (2 ^ suc k - 1),
  ap (λ (t : ℕ). bit_and (a / 2) t) (half),
  bit_and-mask k (a / 2),
  mod-twice k a,
  two_pow-suc k,
  one-le-pow k 2 (omega arith),
)
  where
    half : (2 ^ suc k - 1) / 2 ≡ 2 ^ k - 1
    half = omega (arith, two_pow-suc k, one-le-pow k 2 (omega arith))

-- A field of `j` digits from digit `k` on, in place.
pub bit_field : (j k a : ℕ) → bit_and a ((2 ^ j - 1) * 2 ^ k) ≡ a / 2 ^ k % 2 ^ j * 2 ^ k
bit_field j k a =
    bit_and-shifted k a (2 ^ j - 1) ∙ ap (λ (t : ℕ). t * 2 ^ k) (bit_and-mask j (a / 2 ^ k))

-- A number `&` itself.
pub bit_and_self : (k a : ℕ) → a < 2 ^ k → bit_and a a ≡ a
bit_and_self zero a h = omega (arith, bit_and-zero a, ap (λ (t : ℕ). bit_and t t) (is_zero))
  where
    is_zero : a ≡ 0
    is_zero = omega arith
bit_and_self (suc k) a h =
    omega (arith, halved a a, bit_and_self k (a / 2) (omega (arith, two_pow-suc k)))
