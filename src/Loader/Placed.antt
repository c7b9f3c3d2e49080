-- ===== src/Loader/Placed.antt =====
-- What the blocks of a program are to be in the memory.
use vadm.Base.{
  ltb, if◌then◌else◌, All, ◌==◌, ℕ, ◌+◌, ◌-◌, ◌*◌, ◌^◌, ◌<◌, ◌≤◌, ◌≡◌, true, false, Option, some,
  none, List, [], ◌∷◌, ◌++◌, length, replicate, u32,
}
use vadm.Base.Bytes.{Memory, write_bytes}
use vadm.Loader.State.{BlockTypes, Loader}
use vadm.Loader.{hunk_start_address, max_hunks, max_hunk_size, is_hunk_memory, htonl}
use vadm.Loader.Printer.{
  Group, Block, contents, bss, reloc32, end_of_hunk, dwords, print_block, add_groups,
}

-- The current hunk exists and begins at an address.
abbrev pub IsCurrent : Loader → ℕ → Type 0
IsCurrent s hunk = (s.hunk_num < max_hunks) × (s.hunk_addresses s.hunk_num ≡ some hunk)

abbrev pub written : Loader → ℕ → List ℕ → Loader
written s p bs = record s { memory = (write_bytes bs (record { mem = s.memory; pos = p })).mem }

-- The block is placed: code and data are copied to the hunk, and code is at most 65532 bytes; for BSS there
-- are zeros; each relocation adds the address of the hunk that it refers to; a hunk ends.
pub data Places (last_hnum : ℕ) : Block → Loader → Loader → Type 0 where
  code :
      {s : Loader} {hunk ndwords : ℕ} {bytes : List ℕ}
      → IsCurrent s hunk
      → length bytes ≡ ndwords * 4
      → length bytes ≤ max_hunk_size - 4
      → is_hunk_memory hunk (length bytes) ≡ true
      → Places last_hnum
          (contents true ndwords bytes)
          s
          (record (written s hunk bytes) { code = some (hunk, length bytes) })
  data_bytes :
      {s : Loader} {hunk ndwords : ℕ} {bytes : List ℕ}
      → IsCurrent s hunk
      → length bytes ≡ ndwords * 4
      → ndwords < 2 ^ 30
      → is_hunk_memory hunk (length bytes) ≡ true
      → Places last_hnum (contents false ndwords bytes) s (written s hunk bytes)
  zeros :
      {s : Loader} {hunk ndwords : ℕ}
      → IsCurrent s hunk
      → ndwords < 2 ^ 30
      → is_hunk_memory hunk (ndwords * 4) ≡ true
      → Places last_hnum (bss ndwords) s (written s hunk (replicate (ndwords * 4) 0))
  relocated :
      {s : Loader} {hunk : ℕ} {groups : List Group} {m : Memory}
      → IsCurrent s hunk
      → add_groups last_hnum s.hunk_addresses hunk groups s.memory ≡ some m
      → Places last_hnum (reloc32 groups) s (record s { memory = m })
  ended :
      {s : Loader} → Places last_hnum end_of_hunk s (record s { hunk_num = u32 (s.hunk_num + 1) })

-- The blocks are placed one after the other.
pub data PlacesAll (last_hnum : ℕ) : List Block → Loader → Loader → Type 0 where
  none_left : {s : Loader} → PlacesAll last_hnum [] s s
  one_more :
      {b : Block} {bs : List Block} {s s' s'' : Loader}
      → Places last_hnum b s s'
      → PlacesAll last_hnum bs s' s''
      → PlacesAll last_hnum (b ∷ bs) s s''

abbrev pub print_blocks : BlockTypes → List Block → List ℕ
print_blocks types [] = []
print_blocks types (b ∷ bs) = print_block types b ++ print_blocks types bs

abbrev pub AllDistinct : List ℕ → Type 0
AllDistinct [] = Unit
AllDistinct (x ∷ xs) = All (λ y. (y == x) ≡ false) xs × AllDistinct xs

-- The block types are numbers of 32 bits, no two of them the same.
pub record AreBlockTypes (t : BlockTypes) : Type 0 where
  pub small :
      All
        (λ x. x < 2 ^ 32)
        (t.hunk_header ∷ t.hunk_code ∷ t.hunk_data ∷ t.hunk_bss ∷ t.hunk_reloc32 ∷ t.hunk_end ∷ [])
  pub distinct : AllDistinct (
      t.hunk_header ∷ t.hunk_code ∷ t.hunk_data ∷ t.hunk_bss ∷ t.hunk_reloc32 ∷ t.hunk_symbol
      ∷ t.hunk_debug ∷ t.hunk_end ∷ [])

-- The header, for hunks of these sizes in dwords, and a whole file.
abbrev pub print_header : BlockTypes → ℕ → List ℕ → List ℕ
print_header types last_hnum sizes =
    htonl types.hunk_header
    ++ htonl 0
    ++ htonl (last_hnum + 1)
    ++ htonl 0
    ++ htonl last_hnum
    ++ dwords sizes

abbrev pub print_program : BlockTypes → ℕ → List ℕ → List Block → List ℕ
print_program types last_hnum sizes blocks =
    print_header types last_hnum sizes ++ print_blocks types blocks

-- The addresses of the first hunks.
abbrev pub first_hunks : ℕ → ℕ → Option ℕ
first_hunks n i = if ltb i n then some (hunk_start_address + i * max_hunk_size) else none
