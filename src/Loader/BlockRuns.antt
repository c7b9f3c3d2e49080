-- ===== src/Loader/BlockRuns.antt =====
-- A printed block is read and placed.
use vadm.Base.{
  ℕ, ◌+◌, ◌-◌, ◌*◌, ◌^◌, ◌<◌, ◌≡◌, ◌∙◌, arith, ◌==◌, leb, Bool, true, false, if◌then◌else◌, Option,
  List, [], ◌∷◌, ◌++◌, length, length-append, replicate, u32,
}
use vadm.Base.Bytes.{Memory}
use vadm.Loader.State.{Load, continues, Image, BlockTypes, Loader}
use vadm.Loader.Contents.{Holding, next_dword, next_bytes}
use vadm.Loader.Printer.{Group, Block, print_block, print_groups, dwords}
use vadm.Loader.Placed.{
  AreBlockTypes, IsCurrent, written, Places, code, data_bytes, zeros, relocated, ended,
}
use vadm.Loader.Groups.{hunk_address-some, at_hunk-inside, reloc_loop-add_groups}
use vadm.Loader.{
  max_hunk_size, is_hunk_memory, hunk_address, htonl, load_contents, code_loaded, load_bss,
  reloc_loop, load_block, next_block,
}

current :
    (s : Loader) (hunk : ℕ)
    → IsCurrent s hunk
    → hunk_address s.hunk_addresses s.hunk_num ≡ continues hunk
current s hunk c = hunk_address-some s.hunk_addresses s.hunk_num hunk c.0 c.1

module _ (image : Image) where
  -- A state at a position of the file, and what a step makes of it.
  abbrev pub Placing : Load Loader → Loader → List ℕ → Type 0
  Placing result s' rest =
      (p : ℕ) × (result ≡ continues (record s' { pos = p })) × Holding image p rest

  contents-Placing :
      (is_code : Bool) (ndwords hunk pos : ℕ) (bytes rest : List ℕ) (s : Loader)
      → IsCurrent s hunk
      → length bytes ≡ ndwords * 4
      → ndwords < 2 ^ 30
      → is_hunk_memory hunk (length bytes) ≡ true
      → Holding image pos (htonl ndwords ++ bytes ++ rest)
      → (p : ℕ) × (load_contents image is_code (record s { pos = pos }) ≡ (
          if is_code
          then code_loaded hunk (length bytes) (record (written s hunk bytes) { pos = p })
          else continues (record (written s hunk bytes) { pos = p })))
        × Holding image p rest
  unfolding load_contents
  contents-Placing is_code ndwords hunk pos bytes rest s c sized small inside h =
      let (read, h₁) = next_dword image pos ndwords (bytes ++ rest) (omega (arith, small)) h in
      let (copied, h₂) = next_bytes image hunk (pos + 4) bytes rest s.memory inside h₁ in
      let e : u32 (ndwords * 4) ≡ length bytes = omega (arith, sized, small) in
      (pos + 4 + length bytes, rw (read, current s hunk c, e, copied), h₂)

  bss-Placing :
      (ndwords hunk pos : ℕ) (rest : List ℕ) (s : Loader)
      → IsCurrent s hunk
      → ndwords < 2 ^ 30
      → is_hunk_memory hunk (ndwords * 4) ≡ true
      → Holding image pos (htonl ndwords ++ rest)
      → Placing
          (load_bss image (record s { pos = pos }))
          (written s hunk (replicate (ndwords * 4) 0))
          rest
  unfolding load_bss
  bss-Placing ndwords hunk pos rest s c small inside h =
      let (read, h₁) = next_dword image pos ndwords rest (omega (arith, small)) h in
      let e : u32 (ndwords * 4) ≡ ndwords * 4 = omega (arith, small) in
      (pos + 4, rw (read, current s hunk c, e, at_hunk-inside hunk (ndwords * 4) inside), h₁)

pub same : (x : ℕ) → (x == x) ≡ true
same x = ground arith

length-print_groups : (gs : List Group) → length gs < length (print_groups gs)
length-print_groups [] = omega arith
length-print_groups (g ∷ gs) =
    omega (arith, length-print_groups gs, length-append (dwords g.positions) (print_groups gs))

module _ (types : BlockTypes) (are : AreBlockTypes types) (mmap : ℕ → ℕ → Memory → Option Memory)
    (stale_last_hnum : ℕ → ℕ) (last_hnum : ℕ) (stale : (p : ℕ) → stale_last_hnum p ≡ last_hnum)
    (image : Image) (fuel : ℕ) (enough : image.mapped < fuel) where
  abbrev pub next : Loader → Load Loader
  next s = next_block image types mmap stale_last_hnum fuel s

  abbrev pub block : ℕ → Loader → Load Loader
  block block_type s = load_block image types mmap stale_last_hnum fuel block_type s

  -- The type of a block tells what is done.
  code_block : (s : Loader) → block types.hunk_code s ≡ load_contents image true s
  unfolding load_block
  code_block s = rw (are.distinct.0.0, same types.hunk_code)

  data_block : (s : Loader) → block types.hunk_data s ≡ load_contents image false s
  unfolding load_block
  data_block s = rw (are.distinct.0.1.0, are.distinct.1.0.0, same types.hunk_data)

  bss_block : (s : Loader) → block types.hunk_bss s ≡ load_bss image s
  unfolding load_block
  bss_block s =
      rw (are.distinct.0.1.1.0, are.distinct.1.0.1.0, are.distinct.1.1.0.0, same types.hunk_bss)

  reloc_block : (s : Loader) → block types.hunk_reloc32 s ≡ reloc_loop image fuel last_hnum s
  unfolding load_block
  reloc_block s = rw (
    are.distinct.0.1.1.1.0,
    are.distinct.1.0.1.1.0,
    are.distinct.1.1.0.1.0,
    are.distinct.1.1.1.0.0,
    same types.hunk_reloc32,
    stale s.pos,
  )

  end_block :
      (s : Loader)
      → block types.hunk_end s ≡ continues (record s { hunk_num = u32 (s.hunk_num + 1) })
  unfolding load_block
  end_block s = rw (
    are.distinct.0.1.1.1.1.1.1.0,
    are.distinct.1.0.1.1.1.1.1.0,
    are.distinct.1.1.0.1.1.1.1.0,
    are.distinct.1.1.1.0.1.1.1.0,
    are.distinct.1.1.1.1.0.1.1.0,
    are.distinct.1.1.1.1.1.0.1.0,
    are.distinct.1.1.1.1.1.1.0.0,
    same types.hunk_end,
  )

  -- The type is read, and then the block.
  pub typed :
      (block_type pos : ℕ) (s s' : Loader) (body rest : List ℕ)
      → block_type < 2 ^ 32
      → Holding image pos (htonl block_type ++ body)
      → (Holding image (pos + 4) body
          → Placing image (block block_type (record s { pos = pos + 4 })) s' rest)
      → Placing image (next (record s { pos = pos })) s' rest
  unfolding next_block
  typed block_type pos s s' body rest small h placing =
      let (read, h₁) = next_dword image pos block_type body small h in
      let (p, run, h₂) = placing h₁ in (p, rw read run, h₂)

  pub block-Placing :
      (b : Block) (s s' : Loader) (pos : ℕ) (rest : List ℕ)
      → Places last_hnum b s s'
      → Holding image pos (print_block types b ++ rest)
      → Placing image (next (record s { pos = pos })) s' rest
  block-Placing _ s s' pos rest (code {hunk} {ndwords} {bytes} c sized few inside) h =
      typed types.hunk_code pos s s' (htonl ndwords ++ bytes ++ rest) rest are.small.1.0 h λ h₁.
        let (p, run, h₂) =
          contents-Placing image true ndwords hunk (pos + 4) bytes rest s c sized
            (omega (arith, sized, few)) inside h₁ in
        let room : leb (length bytes) (max_hunk_size - 4) ≡ true = ground (arith, few) in
        (p, code_block _ ∙ run ∙ rw room, h₂)
  block-Placing _ s s' pos rest (data_bytes {hunk} {ndwords} {bytes} c sized small inside) h =
      typed types.hunk_data pos s s' (htonl ndwords ++ bytes ++ rest) rest are.small.1.1.0 h λ h₁.
        let (p, run, h₂) =
          contents-Placing image false ndwords hunk (pos + 4) bytes rest s c sized small inside
            h₁ in
        (p, data_block _ ∙ run, h₂)
  block-Placing _ s s' pos rest (zeros {hunk} {ndwords} c small inside) h =
      typed types.hunk_bss pos s s' (htonl ndwords ++ rest) rest are.small.1.1.1.0 h λ h₁.
        let (p, run, h₂) = bss-Placing image ndwords hunk (pos + 4) rest s c small inside h₁ in
        (p, bss_block _ ∙ run, h₂)
  block-Placing _ s s' pos rest (relocated {hunk} {groups} {m} c added) h =
      typed types.hunk_reloc32 pos s s' (print_groups groups ++ rest) rest are.small.1.1.1.1.0 h
        λ h₁.
          let (p, run, h₂) =
            reloc_loop-add_groups image last_hnum hunk fuel groups rest (record s { pos = pos + 4 })
              m
              (omega (
                arith,
                enough,
                length-print_groups groups,
                h₁.readable,
                length-append (print_groups groups) rest,
              ))
              (current s hunk c) added h₁ in
          (p, reloc_block _ ∙ run, h₂)
  block-Placing _ s s' pos rest ended h =
      typed types.hunk_end pos s s' rest rest are.small.1.1.1.1.1.0 h
        λ h₁. (pos + 4, end_block _, h₁)
