-- ===== src/X86/Listing.antt =====
-- Generated code as a listing: what a routine writes, and the instructions that the bytes decode to.
use vadm.Base.{
  ℕ, zero, suc, ◌+◌, ◌<◌, ◌≡◌, refl, ap, ◌∙◌, some, List, [], ◌∷◌, ◌++◌, append_assoc, replicate,
  length, length-append, arith,
}
use vadm.Base.Bytes.{Out, write_bytes, write_bytes-append}
use vadm.Base.Tables.{tabulate, tabulate_ext}
use vadm.X86.{Instruction, decode, nop}

-- The bytes decode to the instructions, one after the other, and leave the rest.
abbrev pub Disassembles : List ℕ → List Instruction → List ℕ → Type 0
Disassembles bytes [] rest = bytes ≡ rest
Disassembles bytes (i ∷ is) rest =
    (mid : List ℕ) × (decode bytes ≡ some (i, mid)) × Disassembles mid is rest

-- Whatever the position, the routine does no more than write `size` bytes there, and they decode to
-- the listing.
pub record Generates (emit : Out → Out) (listing : List Instruction) (size : ℕ) : Type 0 where
  pub code : List ℕ
  pub writes : (o : Out) → emit o ≡ write_bytes code o
  pub reads : (rest : List ℕ) → Disassembles (code ++ rest) listing rest
  pub sized : length code ≡ size

pub Disassembles-append :
    (bytes mid rest : List ℕ) (xs ys : List Instruction)
    → Disassembles bytes xs mid
    → Disassembles mid ys rest
    → Disassembles bytes (xs ++ ys) rest
Disassembles-append bytes mid rest [] ys h k = rw h k
Disassembles-append bytes mid rest (x ∷ xs) ys h k =
    (h.0, h.1, Disassembles-append h.0 mid rest xs ys h.2 k)

-- One routine after another.
infixl 60 ◌▷◌
pub ◌▷◌ :
    {f g : Out → Out} {xs ys : List Instruction} {m n : ℕ}
    → Generates f xs m
    → Generates g ys n
    → Generates (λ o. g (f o)) (xs ++ ys) (m + n)
◌▷◌ {f} {g} {xs} {ys} a b = record {
  code = a.code ++ b.code;
  writes =
      λ o. ap g (a.writes o) ∙ b.writes (write_bytes a.code o) ∙ write_bytes-append a.code b.code o;
  reads = λ rest. rw append_assoc (
      Disassembles-append (a.code ++ (b.code ++ rest)) (b.code ++ rest) rest xs ys
        (a.reads (b.code ++ rest)) (b.reads rest));
  sized = omega (arith, length-append a.code b.code, a.sized, b.sized);
}

-- A routine for one instruction on a register below `n`. That the code decodes to the instruction
-- is checked by evaluation at every register; the operands that are no registers stay variables.
pub by_table :
    {emit : Out → Out} {i : Instruction} {size : ℕ} (n reg : ℕ) (code : ℕ → List ℕ)
    (raw : ℕ → Instruction)
    → reg < n
    → raw reg ≡ i
    → length (code reg) ≡ size
    → ((o : Out) → emit o ≡ write_bytes (code reg) o)
    → ((rest : List ℕ)
        → tabulate n (λ r. decode (code r ++ rest)) ≡ tabulate n (λ r. some (raw r, rest)))
    → Generates emit (i ∷ []) size
by_table n reg code raw in_range same sized writes table = record {
  code = code reg;
  writes = writes;
  reads = λ rest. (
    rest,
    tabulate_ext n (λ r. decode (code r ++ rest)) (λ r. some (raw r, rest)) reg (table rest)
          in_range
        ∙ ap (λ (x : Instruction). some (x, rest)) same,
    refl,
  );
  sized = sized;
}

-- NOPs are read as such.
pub Disassembles-nops : (n : ℕ) → Disassembles (replicate n 0x90) (replicate n nop) []
unfolding decode
Disassembles-nops zero = refl
Disassembles-nops (suc n) = (replicate n 0x90, refl, Disassembles-nops n)
