-- ===== src/Base/Words.antt =====
-- Casts between the integer types of C. A signed value is kept as its bit pattern.
use Prim.Native.Nat.{ℕ, ◌+◌, ◌-◌, ◌%◌, ◌^◌}
use vadm.Base.Tests.{ltb, if◌then◌else◌}

abbrev pub u8 : ℕ → ℕ
u8 n = n % 2 ^ 8

abbrev pub u16 : ℕ → ℕ
u16 n = n % 2 ^ 16

abbrev pub u32 : ℕ → ℕ
u32 n = n % 2 ^ 32

abbrev pub u64 : ℕ → ℕ
u64 n = n % 2 ^ 64

-- The pattern of a signed value of `from` bits, widened to `to` bits.
abbrev pub sign_extend : ℕ → ℕ → ℕ → ℕ
sign_extend from to w = if ltb w (2 ^ (from - 1)) then w else w + (2 ^ to - 2 ^ from)
