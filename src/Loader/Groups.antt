-- ===== src/Loader/Groups.antt =====
-- The relocations of a printed program are applied.
use vadm.Base.{
  and-parts, ℕ, zero, suc, ◌+◌, ◌-◌, ◌^◌, ◌<◌, ◌≡◌, refl, ap, arith, ◌==◌, ltb, leb, ◌&&◌, Bool,
  true, false, if◌then◌else◌, Option, none, some, List, [], ◌∷◌, ◌++◌, append_assoc, length, u32,
}
use vadm.Base.Bytes.{Memory, write_bytes}
use mathlib.Core.Path.{subst}
use vadm.Loader.State.{continues, fault, require, Image, Loader}
use vadm.Loader.Contents.{Holding, next_dword}
use vadm.Loader.Printer.{Group, dwords, print_groups, add_to_all, and_then, referred, add_groups}
use vadm.Loader.{
  hunk_start_address, max_hunks, is_hunk_memory, at_hunk, hunk_address, ntohl, htonl, fix_loop,
  reloc_group, reloc_loop,
}

-- What a test in front of a result says, when there is one.
pub if-some {ℓ} :
    {A : Type ℓ} (b : Bool) (x : Option A) (a : A)
    → (if b then x else none) ≡ some a
    → (b ≡ true) × (x ≡ some a)
if-some true x a h = (refl, h)
if-some false x a h = cc

-- The address of a hunk that is set.
pub hunk_address-some :
    (addresses : ℕ → Option ℕ) (i a : ℕ)
    → i < max_hunks
    → addresses i ≡ some a
    → hunk_address addresses i ≡ continues a
hunk_address-some addresses i a inside h =
    let e : ltb i max_hunks ≡ true = ground arith in rw (e, h)

pub at_hunk-inside : (p n : ℕ) → is_hunk_memory p n ≡ true → at_hunk p n ≡ continues true
at_hunk-inside p n h = ap (λ (b : Bool). if b then continues true else fault) h

pub require-true : (b : Bool) → b ≡ true → require b ≡ continues true
require-true b h = ap require h

-- What the tests of one relocation say.
record IsFixed (hunk ref p : ℕ) (ps : List ℕ) (before after : Memory) : Type 0 where
  small : p < 2 ^ 32
  inside : at_hunk (hunk + p) 4 ≡ continues true
  low : require (leb (ntohl before (hunk + p)) (0xffffffff - hunk_start_address)) ≡ continues true
  others :
      add_to_all hunk ref ps
        (write_bytes
          (htonl (u32 (ntohl before (hunk + p) + ref)))
          (record { mem = before; pos = hunk + p })).mem
      ≡ some after

add_to_all-IsFixed :
    (hunk ref p : ℕ) (ps : List ℕ) (before after : Memory)
    → add_to_all hunk ref (p ∷ ps) before ≡ some after
    → IsFixed hunk ref p ps before after
add_to_all-IsFixed hunk ref p ps before after h =
    let low_enough : Bool = leb (ntohl before (hunk + p)) (0xffffffff - hunk_start_address) in
    let (tests, others) =
      if-some (ltb p (2 ^ 32) && (is_hunk_memory (hunk + p) 4 && low_enough)) _ after h in
    let (small, more) =
      and-parts (ltb p (2 ^ 32)) (is_hunk_memory (hunk + p) 4 && low_enough) tests in
    let (inside, low) = and-parts (is_hunk_memory (hunk + p) 4) low_enough more in
    record {
      small = ground (arith, small);
      inside = at_hunk-inside (hunk + p) 4 inside;
      low = require-true low_enough low;
      others = others;
    }

module _ (image : Image) where
  fix_loop-add_to_all :
      (ref_hnum hunk ref : ℕ) (ps rest : List ℕ) (s : Loader) (m : Memory)
      → hunk_address s.hunk_addresses s.hunk_num ≡ continues hunk
      → hunk_address s.hunk_addresses ref_hnum ≡ continues ref
      → add_to_all hunk ref ps s.memory ≡ some m
      → Holding image s.pos (dwords ps ++ rest)
      → (p : ℕ) × (fix_loop image (length ps) ref_hnum s
          ≡ continues (record s { memory = m; pos = p }))
        × Holding image p rest
  unfolding fix_loop
  fix_loop-add_to_all ref_hnum hunk ref [] rest s m at ref_at fixed h =
      let same : s.memory ≡ m = cc fixed in
      (s.pos, ap (λ (t : Memory). continues (record s { memory = t })) same, h)
  fix_loop-add_to_all ref_hnum hunk ref (p ∷ ps) rest s m at ref_at fixed h =
      let f : IsFixed hunk ref p ps s.memory m =
        add_to_all-IsFixed hunk ref p ps s.memory m fixed in
      let (read, behind) = next_dword image s.pos p (dwords ps ++ rest) f.small h in
      let m₁ : Memory =
        (write_bytes (htonl (u32 (ntohl s.memory (hunk + p) + ref)))
          (record { mem = s.memory; pos = hunk + p })).mem in
      let (q, run, left) =
        fix_loop-add_to_all ref_hnum hunk ref ps rest (record s { memory = m₁; pos = s.pos + 4 }) m
          at ref_at f.others behind in
      (q, rw (read, at, f.inside, f.low, ref_at) run, left)

pub and_then-some {ℓ κ} :
    {A : Type ℓ} {B : Type κ} (x : Option A) (f : A → Option B) (b : B)
    → and_then x f ≡ some b
    → (a : A) × (x ≡ some a) × (f a ≡ some b)
and_then-some none f b h = cc
and_then-some (some a) f b h = (a, refl, h)

-- What the tests of one group say.
record IsReferred (last_hnum : ℕ) (addresses : ℕ → Option ℕ) (g : Group) (ref : ℕ) : Type 0 where
  some_positions : (length g.positions == 0) ≡ false
  few : length g.positions < 2 ^ 32
  small : g.ref_hnum < 2 ^ 32
  known : require (leb g.ref_hnum last_hnum) ≡ continues true
  at : hunk_address addresses g.ref_hnum ≡ continues ref

referred-IsReferred :
    (last_hnum : ℕ) (addresses : ℕ → Option ℕ) (g : Group) (ref : ℕ)
    → referred last_hnum addresses g ≡ some ref
    → IsReferred last_hnum addresses g ref
referred-IsReferred last_hnum addresses g ref h =
    let count : Bool = ltb 0 (length g.positions) && ltb (length g.positions) (2 ^ 32) in
    let number : Bool = ltb g.ref_hnum max_hunks && leb g.ref_hnum last_hnum in
    let (tests, found) = if-some (count && number) (addresses g.ref_hnum) ref h in
    let (counted, numbered) = and-parts count number tests in
    let (positive, few) =
      and-parts (ltb 0 (length g.positions)) (ltb (length g.positions) (2 ^ 32)) counted in
    let (inside, known) =
      and-parts (ltb g.ref_hnum max_hunks) (leb g.ref_hnum last_hnum) numbered in
    record {
      some_positions = ground (arith, positive);
      few = ground (arith, few);
      small = ground (arith, inside);
      known = require-true (leb g.ref_hnum last_hnum) known;
      at = hunk_address-some addresses g.ref_hnum ref (ground (arith, inside)) found;
    }

module _ (image : Image) (last_hnum hunk : ℕ) where
  pub reloc_loop-add_groups :
      (fuel : ℕ) (gs : List Group) (rest : List ℕ) (s : Loader) (m : Memory)
      → length gs < fuel
      → hunk_address s.hunk_addresses s.hunk_num ≡ continues hunk
      → add_groups last_hnum s.hunk_addresses hunk gs s.memory ≡ some m
      → Holding image s.pos (print_groups gs ++ rest)
      → (p : ℕ) × (reloc_loop image fuel last_hnum s ≡ continues (record s { memory = m; pos = p }))
        × Holding image p rest
  unfolding reloc_loop reloc_group
  reloc_loop-add_groups zero gs rest s m enough at fixed h = absurd (omega (arith, enough))
  reloc_loop-add_groups (suc fuel) [] rest s m enough at fixed h =
      let same : s.memory ≡ m = cc fixed in
      let (read, behind) = next_dword image s.pos 0 rest (omega arith) h in
      (s.pos + 4, rw (read, same), behind)
  reloc_loop-add_groups (suc fuel) (g ∷ gs) rest s m enough at fixed h =
      let (ref, is_referred, more) =
        and_then-some (referred last_hnum s.hunk_addresses g) _ m fixed in
      let r : IsReferred last_hnum s.hunk_addresses g ref =
        referred-IsReferred last_hnum s.hunk_addresses g ref is_referred in
      let (m₁, first, others) = and_then-some (add_to_all hunk ref g.positions s.memory) _ m more in
      let behind_positions : List ℕ = print_groups gs ++ rest in
      let h₀ : Holding image s.pos (
          htonl (length g.positions)
          ++ htonl g.ref_hnum
          ++ dwords g.positions
          ++ behind_positions) =
        subst
          (λ (l : List ℕ).
            Holding image s.pos (htonl (length g.positions) ++ htonl g.ref_hnum ++ l))
          (append_assoc (dwords g.positions) (print_groups gs) rest) h in
      let (read₁, h₁) =
        next_dword image s.pos (length g.positions)
          (htonl g.ref_hnum ++ dwords g.positions ++ behind_positions) r.few h₀ in
      let (read₂, h₂) =
        next_dword image (s.pos + 4) g.ref_hnum (dwords g.positions ++ behind_positions) r.small
          h₁ in
      let (p₁, run₁, h₃) =
        fix_loop-add_to_all image g.ref_hnum hunk ref g.positions behind_positions
          (record s { pos = s.pos + 4 + 4 }) m₁ at r.at first h₂ in
      let (p₂, run₂, h₄) =
        reloc_loop-add_groups fuel gs rest (record s { memory = m₁; pos = p₁ }) m
          (omega (arith, enough)) at others h₃ in
      (p₂, rw (read₁, r.some_positions, read₂, r.known, run₁) run₂, h₄)
