-- ===== src/Loader/Printer.antt =====
-- Programs in the hunk format: how they are written to a file, and what they are to be in the memory,
-- independently of the code that loads them.
use vadm.Base.{
  ℕ, ◌+◌, ◌-◌, ◌^◌, ltb, leb, ◌&&◌, Bool, if◌then◌else◌, Option, none, some, List, [], ◌∷◌, ◌++◌,
  length, u32,
}
use vadm.Base.Bytes.{Memory, write_bytes}
use vadm.Loader.State.{BlockTypes}
use vadm.Loader.{hunk_start_address, max_hunks, is_hunk_memory, ntohl, htonl}

-- Relocations that refer to one hunk: its number, and the positions.
pub record Group : Type 0 where
  pub ref_hnum : ℕ
  pub positions : List ℕ

-- The blocks of a hunk. The bytes of code and data are `ndwords` dwords.
pub data Block : Type 0 where
  contents : (is_code : Bool) (ndwords : ℕ) (bytes : List ℕ) → Block
  bss : (ndwords : ℕ) → Block
  reloc32 : (groups : List Group) → Block
  end_of_hunk : Block

abbrev pub dwords : List ℕ → List ℕ
dwords [] = []
dwords (v ∷ vs) = htonl v ++ dwords vs

abbrev pub print_groups : List Group → List ℕ
print_groups [] = htonl 0
print_groups (g ∷ gs) =
    htonl (length g.positions) ++ htonl g.ref_hnum ++ dwords g.positions ++ print_groups gs

module _ (types : BlockTypes) where
  abbrev pub print_block : Block → List ℕ
  print_block (contents is_code ndwords bytes) =
      htonl (if is_code then types.hunk_code else types.hunk_data) ++ htonl ndwords ++ bytes
  print_block (bss ndwords) = htonl types.hunk_bss ++ htonl ndwords
  print_block (reloc32 groups) = htonl types.hunk_reloc32 ++ print_groups groups
  print_block end_of_hunk = htonl types.hunk_end

-- The sum of the address of the hunk that is referred to and of the offset that stands at each position.
abbrev pub add_to_all : ℕ → ℕ → List ℕ → Memory → Option Memory
add_to_all hunk ref [] m = some m
add_to_all hunk ref (p ∷ ps) m =
    let offset : ℕ = ntohl m (hunk + p) in
    let rest : Option Memory =
      add_to_all hunk ref ps
        (write_bytes (htonl (u32 (offset + ref))) (record { mem = m; pos = hunk + p })).mem in
    if ltb p (2 ^ 32)
      && (is_hunk_memory (hunk + p) 4 && leb offset (0xffffffff - hunk_start_address))
    then rest
    else none

-- One result after another, if both are there.
abbrev pub and_then {ℓ κ} : {A : Type ℓ} {B : Type κ} → Option A → (A → Option B) → Option B
and_then none f = none
and_then (some a) f = f a

-- The address of the hunk that the group refers to, if the group is not empty and the hunk exists.
abbrev pub referred : ℕ → (ℕ → Option ℕ) → Group → Option ℕ
referred last_hnum addresses g =
    if (ltb 0 (length g.positions) && ltb (length g.positions) (2 ^ 32))
      && (ltb g.ref_hnum max_hunks && leb g.ref_hnum last_hnum)
    then addresses g.ref_hnum
    else none

abbrev pub add_groups : ℕ → (ℕ → Option ℕ) → ℕ → List Group → Memory → Option Memory
add_groups last_hnum addresses hunk [] m = some m
add_groups last_hnum addresses hunk (g ∷ gs) m = and_then (referred last_hnum addresses g) λ ref.
    and_then (add_to_all hunk ref g.positions m) λ m'. add_groups last_hnum addresses hunk gs m'
