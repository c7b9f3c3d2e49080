-- ===== src/Loader/RoundTrip.antt =====
-- A program that is written to a file is loaded.
use vadm.Base.{
  ℕ, zero, suc, ◌+◌, ◌-◌, ◌*◌, ◌^◌, ◌<◌, ◌≤◌, ◌≡◌, refl, ap, fun_ext, arith, ltb, leb, true, false,
  Option, none, some, List, [], ◌∷◌, ◌++◌, All, length, length-append, u32,
}
use vadm.Base.Bytes.{Memory}
use vadm.Loader.State.{Load, continues, ◌>>=◌, Image, BlockTypes, Loader}
use vadm.Loader.Contents.{Holding, next_dword}
use vadm.Loader.Printer.{Block, contents, bss, reloc32, end_of_hunk, dwords, print_block}
use vadm.Loader.Placed.{
  AreBlockTypes, PlacesAll, none_left, one_more, print_blocks, print_header, print_program,
  first_hunks,
}
use vadm.Loader.BlockRuns.{Placing, typed, same, block-Placing}
use vadm.Loader.{
  hunk_start_address, max_hunks, max_hunk_size, htonl, set_address, size_loop, load_header,
  load_block, next_block, block_loop, load_program,
}

set_address-first_hunks :
    (i : ℕ)
    → set_address i (hunk_start_address + i * max_hunk_size) (first_hunks i) ≡ first_hunks (i + 1)
set_address-first_hunks i = fun_ext λ k. ground arith

module _ (image : Image) where
  size_loop-first_hunks :
      (sizes rest : List ℕ) (i pos hunk_addr : ℕ)
      → hunk_addr ≡ hunk_start_address + i * max_hunk_size
      → All (λ n. n * 4 ≤ max_hunk_size) sizes
      → i + length sizes ≤ max_hunks
      → Holding image pos (dwords sizes ++ rest)
      → (p : ℕ) × (size_loop image (length sizes) i (first_hunks i) hunk_addr pos
          ≡ continues (first_hunks (i + length sizes), p))
        × Holding image p rest
  unfolding size_loop
  size_loop-first_hunks [] rest i pos hunk_addr e small few h =
      let none_more : i + 0 ≡ i = omega arith in (pos, rw none_more, h)
  size_loop-first_hunks (n ∷ sizes) rest i pos hunk_addr e (first, others) few h =
      let (read, h₁) = next_dword image pos n (dwords sizes ++ rest) (omega (arith, first)) h in
      let fits : leb (u32 (n * 4)) max_hunk_size ≡ true = ground (arith, first) in
      let inside : ltb i max_hunks ≡ true = ground (arith, few) in
      let (p, run, h₂) =
        size_loop-first_hunks sizes rest (i + 1) (pos + 4) (hunk_addr + max_hunk_size)
          (omega (arith, e)) others (omega (arith, few)) h₁ in
      let total : i + suc (length sizes) ≡ i + 1 + length sizes = omega arith in
      (p, rw (read, fits, inside, e, set_address-first_hunks i, total, ← e) run, h₂)

-- The state in which the blocks begin.
abbrev pub hunks_mapped : Memory → ℕ → Loader
hunks_mapped m n = record {
  pos = 0;
  memory = m;
  hunk_addresses = first_hunks n;
  hunk_num = 0;
  code = none;
}

abbrev pub at_start : Memory → Loader
at_start m = record { pos = 0; memory = m; hunk_addresses = λ i. none; hunk_num = 0; code = none }

no_hunks : (λ (i : ℕ). none) ≡ first_hunks 0
no_hunks = fun_ext λ k. ground arith

length-print_block : (types : BlockTypes) (b : Block) → 4 ≤ length (print_block types b)
length-print_block types (contents is_code ndwords bytes) = omega arith
length-print_block types (bss ndwords) = omega arith
length-print_block types (reloc32 groups) = omega arith
length-print_block types end_of_hunk = omega arith

few_hunks :
    (last_hnum : ℕ)
    → last_hnum < max_hunks
    → leb (u32 (last_hnum + 2 ^ 32 - 0 + 1)) max_hunks ≡ true
few_hunks last_hnum few =
    let e : u32 (last_hnum + 2 ^ 32 - 0 + 1) ≡ last_hnum + 1 = omega (arith, few) in
    rw e (ground (arith, few))

length-print_blocks :
    (types : BlockTypes) (bs : List Block) → length bs ≤ length (print_blocks types bs)
length-print_blocks types [] = omega arith
length-print_blocks types (b ∷ bs) = omega (
  arith,
  length-print_blocks types bs,
  length-append (print_block types b) (print_blocks types bs),
  length-print_block types b,
)

module _ (types : BlockTypes) (are : AreBlockTypes types) (mmap : ℕ → ℕ → Memory → Option Memory)
    (stale_last_hnum : ℕ → ℕ) (last_hnum : ℕ) (stale : (p : ℕ) → stale_last_hnum p ≡ last_hnum)
    (image : Image) (fuel : ℕ) (enough : image.mapped < fuel) where
  header-Placing :
      (sizes rest : List ℕ) (m m₁ : Memory)
      → length sizes ≡ last_hnum + 1
      → last_hnum < max_hunks
      → All (λ n. n * 4 ≤ max_hunk_size) sizes
      → mmap hunk_start_address (max_hunks * max_hunk_size) m ≡ some m₁
      → Holding image 0 (print_header types last_hnum sizes ++ rest)
      → Placing image
          (next_block image types mmap stale_last_hnum fuel (at_start m))
          (hunks_mapped m₁ (last_hnum + 1))
          rest
  unfolding load_header load_block
  header-Placing sizes rest m m₁ counted few small mapped h =
      typed types are mmap stale_last_hnum last_hnum stale image fuel enough types.hunk_header 0
        (at_start m) (hunks_mapped m₁ (last_hnum + 1))
        (htonl 0 ++ htonl (last_hnum + 1) ++ htonl 0 ++ htonl last_hnum ++ dwords sizes ++ rest)
        rest are.small.0 h
        λ h₀.
          let (read₁, h₁) =
            next_dword image 4 0
              (htonl (last_hnum + 1) ++ htonl 0 ++ htonl last_hnum ++ dwords sizes ++ rest)
              (omega arith) h₀ in
          let (read₂, h₂) =
            next_dword image 8 (last_hnum + 1) (htonl 0 ++ htonl last_hnum ++ dwords sizes ++ rest)
              (omega (arith, few)) h₁ in
          let (read₃, h₃) =
            next_dword image 12 0 (htonl last_hnum ++ dwords sizes ++ rest) (omega arith) h₂ in
          let (read₄, h₄) =
            next_dword image 16 last_hnum (dwords sizes ++ rest) (omega (arith, few)) h₃ in
          let (p, run, h₅) =
            size_loop-first_hunks image sizes rest 0 20 hunk_start_address refl small
              (omega (arith, counted, few)) h₄ in
          let admitted : leb (u32 (last_hnum + 2 ^ 32 - 0 + 1)) max_hunks ≡ true =
            few_hunks last_hnum few in
          let total : 0 + length sizes ≡ last_hnum + 1 = omega (arith, counted) in
          let count : length sizes ≡ last_hnum + 1 - 0 = omega (arith, counted) in
          (
            p,
            rw
                (
                  same types.hunk_header,
                  read₁,
                  read₂,
                  read₃,
                  read₄,
                  admitted,
                  mapped,
                  ← count,
                  no_hunks,
                  run,
                )
                (ap
                  (λ (n : ℕ). continues (record {
                    pos = p;
                    memory = m₁;
                    hunk_addresses = first_hunks n;
                    hunk_num = 0;
                    code = none;
                  }))
                  total),
            h₅,
          )

  blocks-Placing :
      (rounds : ℕ) (bs : List Block) (s s' : Loader) (pos : ℕ)
      → PlacesAll last_hnum bs s s'
      → length bs ≤ rounds
      → Holding image pos (print_blocks types bs)
      → block_loop image types mmap stale_last_hnum rounds fuel (record s { pos = pos })
        ≡ continues (record s' { pos = image.size })
  unfolding block_loop
  blocks-Placing zero _ s s' pos none_left few h =
      let stop : ltb pos image.size ≡ false = ground (arith, h.ends) in
      let here : pos ≡ image.size = omega (arith, h.ends) in
      rw stop (ap (λ (p : ℕ). continues (record s { pos = p })) here)
  blocks-Placing (suc rounds) _ s s' pos none_left few h =
      let stop : ltb pos image.size ≡ false = ground (arith, h.ends) in
      let here : pos ≡ image.size = omega (arith, h.ends) in
      rw stop (ap (λ (p : ℕ). continues (record s { pos = p })) here)
  blocks-Placing zero _ s s' pos (one_more placed others) few h = absurd (omega (arith, few))
  blocks-Placing (suc rounds) _ s s' pos (one_more {b} {bs} {s' = s₁} placed others) few h =
      let (p, run, h₁) =
        block-Placing types are mmap stale_last_hnum last_hnum stale image fuel enough b s s₁ pos
          (print_blocks types bs) placed h in
      let more : pos < image.size = omega (
        arith,
        h.ends,
        length-append (print_block types b) (print_blocks types bs),
        length-print_block types b,
      ) in
      let go_on : ltb pos image.size ≡ true = ground (arith, more) in
      rw (go_on, run) (blocks-Placing rounds bs s₁ s' p others (omega (arith, few)) h₁)

  program-Placing :
      (rounds : ℕ) (sizes : List ℕ) (blocks : List Block) (m m₁ : Memory) (s' : Loader)
      → length blocks < rounds
      → length sizes ≡ last_hnum + 1
      → last_hnum < max_hunks
      → All (λ n. n * 4 ≤ max_hunk_size) sizes
      → mmap hunk_start_address (max_hunks * max_hunk_size) m ≡ some m₁
      → PlacesAll last_hnum blocks (hunks_mapped m₁ (last_hnum + 1)) s'
      → Holding image 0 (print_program types last_hnum sizes blocks)
      → block_loop image types mmap stale_last_hnum rounds fuel (at_start m)
        ≡ continues (record s' { pos = image.size })
  unfolding block_loop
  program-Placing zero sizes blocks m m₁ s' rounded counted few small mapped placed h =
      absurd (omega (arith, rounded))
  program-Placing (suc rounds) sizes blocks m m₁ s' rounded counted few small mapped placed h =
      let (p, run, h₁) =
        header-Placing sizes (print_blocks types blocks) m m₁ counted few small mapped h in
      let go_on : ltb 0 image.size ≡ true = ground (arith, h.ends) in
      rw (go_on, run)
        (blocks-Placing rounds blocks (hunks_mapped m₁ (last_hnum + 1)) s' p placed
          (omega (arith, rounded)) h₁)

  -- A file that is a printed program of at most four hunks, and that can be read to its end, is loaded:
  -- `load_program` returns true, and the variables are as the blocks of the program, placed one after
  -- the other into the mapped hunks, make them: contents copied, BSS zeroed, relocations applied. The
  -- conditions on the blocks: the hunk that a block is for has an address, and what the block writes
  -- lies in the memory of the four hunks; code is at most 65532 bytes, and data and BSS are less than
  -- 2^30 dwords; a group of relocations is not empty and has less than 2^32 positions, each below 2^32,
  -- and refers to a hunk of the header; and the offset at each position is at most 2^32 - 1 less the
  -- address of the first hunk. The other conditions: the block types are different numbers of 32 bits,
  -- `mmap` and the calls on files and signals succeed, each hunk is at most 64 KB, there is more fuel
  -- than bytes can be read, and at a relocation block the variable `last_hnum` still holds what the
  -- header said.
  pub load_program-PlacesAll :
      (sizes : List ℕ) (blocks : List Block) (m m₁ : Memory) (s' : Loader)
      → length sizes ≡ last_hnum + 1
      → last_hnum < max_hunks
      → All (λ n. n * 4 ≤ max_hunk_size) sizes
      → mmap hunk_start_address (max_hunks * max_hunk_size) m ≡ some m₁
      → PlacesAll last_hnum blocks (hunks_mapped m₁ (last_hnum + 1)) s'
      → Holding image 0 (print_program types last_hnum sizes blocks)
      → load_program types mmap stale_last_hnum fuel true (some image) true m
        ≡ continues (record s' { pos = image.size })
  unfolding load_program
  load_program-PlacesAll sizes blocks m m₁ s' counted few small mapped placed h =
      ap (λ (r : Load Loader). r >>= λ t. continues t)
        (program-Placing fuel sizes blocks m m₁ s'
          (omega (
            arith,
            enough,
            h.readable,
            length-print_blocks types blocks,
            length-append (print_header types last_hnum sizes) (print_blocks types blocks),
          ))
          counted few small mapped placed h)
