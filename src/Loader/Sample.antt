-- ===== src/Loader/Sample.antt =====
-- A program of one hunk with a relocation, and its file.
use vadm.Base.{
  ℕ, suc, ◌+◌, ◌≡◌, refl, sym, ap, ◌∙◌, arith, true, some, List, [], ◌∷◌, get_or, length,
}
use vadm.Base.Bytes.{Memory, write_bytes}
use vadm.Execute.Pages.{zeroed}
use vadm.Loader.State.{Image, BlockTypes, Loader}
use vadm.Loader.Contents.{StandsAt, Holding}
use vadm.Loader.Printer.{Block, contents, reloc32, end_of_hunk}
use vadm.Loader.Placed.{
  AreBlockTypes, code, relocated, ended, PlacesAll, none_left, one_more, print_program,
}
use vadm.Loader.RoundTrip.{hunks_mapped}

-- The numbers that AmigaOS gives the block types.
abbrev pub types : BlockTypes
types = record {
  hunk_header = 0x3f3;
  hunk_code = 0x3e9;
  hunk_data = 0x3ea;
  hunk_bss = 0x3eb;
  hunk_reloc32 = 0x3ec;
  hunk_symbol = 0x3f0;
  hunk_debug = 0x3f1;
  hunk_end = 0x3f2;
}

pub types-AreBlockTypes : AreBlockTypes types
types-AreBlockTypes = record {
  small =
      (omega arith, (omega arith, (omega arith, (omega arith, (omega arith, (omega arith, tt))))));
  distinct = (
    (refl, (refl, (refl, (refl, (refl, (refl, (refl, tt))))))),
    (
      (refl, (refl, (refl, (refl, (refl, (refl, tt)))))),
      (
        (refl, (refl, (refl, (refl, (refl, tt))))),
        (
          (refl, (refl, (refl, (refl, tt)))),
          ((refl, (refl, (refl, tt))), ((refl, (refl, tt)), ((refl, tt), (tt, tt)))),
        ),
      ),
    ),
  );
}

-- jsr 0x00000006; rts, where the address is relocated.
abbrev pub code_bytes : List ℕ
code_bytes = 0x4e ∷ 0xb9 ∷ 0 ∷ 0 ∷ 0 ∷ 6 ∷ 0x4e ∷ 0x75 ∷ []

abbrev pub blocks : List Block
blocks =
    contents true 2 code_bytes
    ∷ reloc32 (record { ref_hnum = 0; positions = 2 ∷ [] } ∷ [])
    ∷ end_of_hunk
    ∷ []

abbrev pub file : List ℕ
file = print_program types 0 (2 ∷ []) blocks

abbrev pub image : Image
image = record { bytes = λ q. get_or file q 0; size = length file; mapped = 4096 }

-- A memory that holds a list from a position on.
stands :
    (m : Memory) (pos : ℕ) (bs : List ℕ)
    → ((i : ℕ) → m (pos + i) ≡ get_or bs i 0)
    → StandsAt m pos bs
stands m pos [] h = tt
stands m pos (b ∷ bs) h =
    let here : pos + 0 ≡ pos = omega arith in
    (
      ap m (sym here) ∙ h 0,
      stands m (pos + 1) bs
          λ i. let e : pos + 1 + i ≡ pos + suc i = omega arith in ap m e ∙ h (suc i),
    )

pub file-Holding : Holding image 0 file
file-Holding = record {
  stands = stands image.bytes 0 file (λ i. let e : 0 + i ≡ i = omega arith in ap image.bytes e);
  readable = omega arith;
  ends = refl;
}

abbrev pub mapped : Memory
mapped = zeroed 0x10_0000 0x4_0000 (λ q. 0)

abbrev pub copied : Memory
copied = (write_bytes code_bytes (record { mem = mapped; pos = 0x10_0000 })).mem

abbrev pub fixed : Memory
fixed = (write_bytes (0 ∷ 0x10 ∷ 0 ∷ 6 ∷ []) (record { mem = copied; pos = 0x10_0002 })).mem

abbrev pub loaded : Loader
loaded = record {
  pos = 0;
  memory = fixed;
  hunk_addresses = (hunks_mapped mapped 1).hunk_addresses;
  hunk_num = 1;
  code = some (0x10_0000, 8);
}

pub blocks-PlacesAll : PlacesAll 0 blocks (hunks_mapped mapped 1) loaded
unfolding write_bytes
blocks-PlacesAll =
    one_more (code (omega arith, refl) refl (omega arith) refl)
      (one_more (relocated (omega arith, refl) refl) (one_more ended none_left))
