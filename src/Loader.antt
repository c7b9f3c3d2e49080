-- ===== src/Loader.antt =====
-- loader.c and loader.h: the loading of a program in the Amiga's hunk format. Outside the program are
-- the calls on signals and files, `mmap`, and the numbers of the block types, which a header of
-- AmigaOS defines.
pub mod State
pub mod Holds
pub mod Access
pub mod Invariant
pub mod Relocations
pub mod Blocks
pub mod Result
pub mod Contents
pub mod Printer
pub mod Groups
pub mod Placed
pub mod BlockRuns
pub mod RoundTrip
pub mod Sample
mod Tests
use vadm.Base.{
  ℕ, zero, suc, ◌+◌, ◌-◌, ◌*◌, ◌/◌, ◌^◌, ◌==◌, ltb, leb, ◌&&◌, ◌||◌, Bool, true, false,
  if◌then◌else◌, Option, none, some, List, [], ◌∷◌, u8, u32, replicate,
}
use vadm.Base.Bytes.{Memory, Out, write_bytes, read_bytes}
use State.{
  Load, continues, refused, fault, out_of_fuel, ◌>>=◌, require, or_refused, or_fault, Image,
  BlockTypes, Loader,
}

abbrev pub hunk_start_address : ℕ
hunk_start_address = 0x00100000

abbrev pub max_hunks : ℕ
max_hunks = 4

abbrev pub max_hunk_size : ℕ
max_hunk_size = 65536

-- `ntohl(*((uint32_t *) p))`, and its converse.
abbrev pub ntohl : Memory → ℕ → ℕ
ntohl m p = m p * 2 ^ 24 + m (p + 1) * 2 ^ 16 + m (p + 2) * 2 ^ 8 + m (p + 3)

abbrev pub htonl : ℕ → List ℕ
htonl v = u8 (v / 2 ^ 24) ∷ u8 (v / 2 ^ 16) ∷ u8 (v / 2 ^ 8) ∷ u8 v ∷ []

-- The bytes can be written: there are none, or they lie in the memory that is mapped for the hunks.
abbrev pub is_hunk_memory : ℕ → ℕ → Bool
is_hunk_memory p n =
    n == 0
    || (leb hunk_start_address p && leb (p + n) (hunk_start_address + max_hunks * max_hunk_size))

abbrev pub at_hunk : ℕ → ℕ → Load Bool
at_hunk p n = if is_hunk_memory p n then continues true else fault

-- The array has four elements.
abbrev pub hunk_address : (ℕ → Option ℕ) → ℕ → Load ℕ
hunk_address addresses i = if ltb i max_hunks then or_fault (addresses i) else fault

abbrev pub set_address : ℕ → ℕ → (ℕ → Option ℕ) → ℕ → Option ℕ
set_address i a addresses k = if k == i then some a else addresses k

-- Where the code is and its size, which leaves room for an instruction.
abbrev pub code_loaded : ℕ → ℕ → Loader → Load Loader
code_loaded hunk nbytes s = do
  small ← require (leb nbytes (max_hunk_size - 4))
  continues (record s { code = some (hunk, nbytes) })

module _ (image : Image) where
  unfoldable pub read_dword : ℕ → Load (ℕ × ℕ)
  read_dword pos =
      if leb (pos + 4) image.mapped then continues (ntohl image.bytes pos, pos + 4) else fault

  -- `memcpy(p, pos, n)` from the file.
  unfoldable pub memcpy : ℕ → ℕ → ℕ → Memory → Load Memory
  memcpy p pos n m = do
    writable ← at_hunk p n
    readable ← (if n == 0 || leb (pos + n) image.mapped then continues true else fault)
    continues (write_bytes (read_bytes image.bytes pos n) (record { mem = m; pos = p })).mem

  -- The loop over the sizes in the header, with the rounds that are left. Where `last_hnum` is the greatest
  -- number of 32 bits the loop has no end in C; it leaves the array before.
  unfoldable pub size_loop : ℕ → ℕ → (ℕ → Option ℕ) → ℕ → ℕ → Load ((ℕ → Option ℕ) × ℕ)
  size_loop zero i addresses hunk_addr pos = continues (addresses, pos)
  size_loop (suc left) i addresses hunk_addr pos = do
    (hunk_size, pos') ← read_dword pos
    small ← require (leb (u32 (hunk_size * 4)) max_hunk_size)
    inside ← (if ltb i max_hunks then continues true else fault)
    size_loop left (i + 1) (set_address i hunk_addr addresses) (hunk_addr + max_hunk_size) pos'

  -- The positions in one group of relocations.
  unfoldable pub fix_loop : ℕ → ℕ → Loader → Load Loader
  fix_loop zero ref_hnum s = continues s
  fix_loop (suc left) ref_hnum s = do
    (pos_to_fix, pos) ← read_dword s.pos
    hunk ← hunk_address s.hunk_addresses s.hunk_num
    let p : ℕ = hunk + pos_to_fix
    mapped ← at_hunk p 4
    let offset : ℕ = ntohl s.memory p
    small ← require (leb offset (0xffffffff - hunk_start_address))
    ref ← hunk_address s.hunk_addresses ref_hnum
    let m : Memory =
        (write_bytes (htonl (u32 (offset + ref))) (record { mem = s.memory; pos = p })).mem
    fix_loop left ref_hnum (record s { memory = m; pos = pos })

  -- A group of `npos_to_fix` relocations.
  unfoldable pub reloc_group : ℕ → ℕ → Loader → Load Loader
  reloc_group npos_to_fix last_hnum s = do
    (ref_hnum, pos) ← read_dword s.pos
    known ← require (leb ref_hnum last_hnum)
    fix_loop npos_to_fix ref_hnum (record s { pos = pos })

  -- The groups, which end with one of no positions.
  unfoldable pub reloc_loop : ℕ → ℕ → Loader → Load Loader
  reloc_loop zero last_hnum s = out_of_fuel
  reloc_loop (suc fuel) last_hnum s = do
    (npos_to_fix, pos) ← read_dword s.pos
    let s' : Loader = record s { pos = pos }
    if npos_to_fix == 0
        then continues s'
        else (reloc_group npos_to_fix last_hnum s' >>= reloc_loop fuel last_hnum)

  unfoldable pub symbol_loop : ℕ → ℕ → Load ℕ
  symbol_loop zero pos = out_of_fuel
  symbol_loop (suc fuel) pos = do
    (ndwords, pos') ← read_dword pos
    if ndwords == 0 then continues pos' else symbol_loop fuel (pos' + u32 (u32 (ndwords + 1) * 4))

  -- HUNK_HEADER, behind the block type.
  unfoldable pub load_header : (ℕ → ℕ → Memory → Option Memory) → Loader → Load Loader
  load_header mmap s = do
    (resident, p₁) ← read_dword s.pos
    none_resident ← require (resident == 0)
    (total, p₂) ← read_dword p₁
    (first_hnum, p₃) ← read_dword p₂
    (last_hnum, p₄) ← read_dword p₃
    few ← require (leb (u32 (last_hnum + 2 ^ 32 - first_hnum + 1)) max_hunks)
    m ← or_refused (mmap hunk_start_address (max_hunks * max_hunk_size) s.memory)
    (addresses, p₅) ←
        size_loop (last_hnum + 1 - first_hnum) first_hnum s.hunk_addresses hunk_start_address p₄
    continues (record s { pos = p₅; memory = m; hunk_addresses = addresses })

  -- HUNK_CODE and HUNK_DATA.
  unfoldable pub load_contents : Bool → Loader → Load Loader
  load_contents is_code s = do
    (ndwords, pos) ← read_dword s.pos
    hunk ← hunk_address s.hunk_addresses s.hunk_num
    m ← memcpy hunk pos (u32 (ndwords * 4)) s.memory
    let s' : Loader = record s { pos = pos + u32 (ndwords * 4); memory = m }
    if is_code then (code_loaded hunk (u32 (ndwords * 4)) s') else continues s'

  -- HUNK_BSS.
  unfoldable pub load_bss : Loader → Load Loader
  load_bss s = do
    (ndwords, pos) ← read_dword s.pos
    hunk ← hunk_address s.hunk_addresses s.hunk_num
    writable ← at_hunk hunk (u32 (ndwords * 4))
    let m : Memory =
        (write_bytes (replicate (u32 (ndwords * 4)) 0) (record { mem = s.memory; pos = hunk })).mem
    continues (record s { pos = pos; memory = m })

  unfoldable pub skip_debug : Loader → Load Loader
  skip_debug s = do
    (ndwords, pos) ← read_dword s.pos
    continues (record s { pos = pos + u32 (ndwords * 4) })

  -- `last_hnum` is declared in the body of the `switch`, so that at a HUNK_RELOC32 it holds what its place
  -- holds at the time; `stale_last_hnum` gives that by the position.
  module _ (types : BlockTypes) (mmap : ℕ → ℕ → Memory → Option Memory)
      (stale_last_hnum : ℕ → ℕ) where
    unfoldable pub load_block : ℕ → ℕ → Loader → Load Loader
    load_block fuel block_type s =
        if block_type == types.hunk_header
        then load_header mmap s
        else if block_type == types.hunk_code
        then load_contents true s
        else if block_type == types.hunk_data
        then load_contents false s
        else if block_type == types.hunk_bss
        then load_bss s
        else if block_type == types.hunk_reloc32
        then reloc_loop fuel (stale_last_hnum s.pos) s
        else if block_type == types.hunk_symbol
        then (symbol_loop fuel s.pos >>= λ pos. continues (record s { pos = pos }))
        else if block_type == types.hunk_debug
        then skip_debug s
        else if block_type == types.hunk_end
        then continues (record s { hunk_num = u32 (s.hunk_num + 1) })
        else refused

    -- One round of the loop over the blocks.
    unfoldable pub next_block : ℕ → Loader → Load Loader
    next_block fuel s = do
      (block_type, pos) ← read_dword s.pos
      load_block fuel block_type (record s { pos = pos })

    -- The loop, with fuel for its rounds and for the loops inside.
    unfoldable pub block_loop : ℕ → ℕ → Loader → Load Loader
    block_loop zero inner s = if ltb s.pos image.size then out_of_fuel else continues s
    block_loop (suc fuel) inner s =
        if ltb s.pos image.size then (next_block inner s >>= block_loop fuel inner) else continues s

-- The load of the program in a file: whether the handler of SIGSEGV can be installed, what the mapping
-- of the file gives, and whether the previous handler can be restored.
module _ (types : BlockTypes) (mmap : ℕ → ℕ → Memory → Option Memory)
    (stale_last_hnum : ℕ → ℕ) where
  unfoldable pub load_program : ℕ → Bool → Option Image → Bool → Memory → Load Loader
  load_program fuel installed opened restored m = do
    handler ← require installed
    image ← or_refused opened
    s ←
        block_loop image types mmap stale_last_hnum fuel fuel
          (record { pos = 0; memory = m; hunk_addresses = λ i. none; hunk_num = 0; code = none })
    handler' ← require restored
    continues s
