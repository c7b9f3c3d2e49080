-- ===== src/Loader/State.antt =====
-- The results of the steps of `load_program`, the file as it is mapped, and the variables.
use vadm.Base.{ℕ, Bool, true, false, Option, none, some}
use vadm.Base.Bytes.{Memory}

-- How the loading goes: on, or `return false`, or what C leaves undefined (a read or write at an address
-- that is not mapped is caught by the handler of SIGSEGV, which exits). The last is of the model only.
pub data Load {ℓ} (A : Type ℓ) : Type ℓ where
  continues : A → Load A
  refused : Load A
  fault : Load A
  out_of_fuel : Load A

infixl 5 ◌>>=◌
abbrev pub ◌>>=◌ {ℓ κ} : {A : Type ℓ} {B : Type κ} → Load A → (A → Load B) → Load B
continues a >>= f = f a
refused >>= f = refused
fault >>= f = fault
out_of_fuel >>= f = out_of_fuel

-- `if (!test) return false;`
abbrev pub require : Bool → Load Bool
require true = continues true
require false = refused

abbrev pub or_refused {ℓ} : {A : Type ℓ} → Option A → Load A
or_refused none = refused
or_refused (some a) = continues a

abbrev pub or_fault {ℓ} : {A : Type ℓ} → Option A → Load A
or_fault none = fault
or_fault (some a) = continues a

-- The file as it is mapped into the memory: its bytes, its size, and how many bytes can be read.
pub record Image : Type 0 where
  pub bytes : Memory
  pub size : ℕ
  pub mapped : ℕ

-- The block types of dos/doshunks.h.
pub record BlockTypes : Type 0 where
  pub hunk_header : ℕ
  pub hunk_code : ℕ
  pub hunk_data : ℕ
  pub hunk_bss : ℕ
  pub hunk_reloc32 : ℕ
  pub hunk_symbol : ℕ
  pub hunk_debug : ℕ
  pub hunk_end : ℕ

-- The variables of `load_program`. An element of the array that is not set yet is `none`; `code` holds
-- the two results, if they are set.
pub record Loader : Type 0 where
  pub pos : ℕ
  pub memory : Memory
  pub hunk_addresses : ℕ → Option ℕ
  pub hunk_num : ℕ
  pub code : Option (ℕ × ℕ)
