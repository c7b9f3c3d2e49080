-- ===== src/Translate/Branching.antt =====
-- `translate_tu` for a unit that ends with BEQ or BNE: its code, executed, does what the instructions of
-- the unit mean, and goes on at the unit that the branch leads to.
use vadm.Base.{
  ℕ, ◌+◌, ◌≡◌, refl, sym, ap, ap₂, ◌∙◌, arith, Bool, List, [], ◌∷◌, ◌++◌, length, ℤ, u32, ◌==◌,
  if◌then◌else◌,
}
use vadm.Base.Bytes.{
  Memory, write_bytes, read_bytes, read_bytes-write_bytes, read_bytes_ext, read_bytes-add,
}
use vadm.Base.Outcome.{Outcome}
use vadm.X86.{Instruction, Condition, equal, not_equal, jump8, jump_if, jump32}
use vadm.X86.Listing.{Disassembles, Disassembles-append}
use vadm.X86.Machine.{Processor, zero_flag, holds, jumps_to}
use vadm.Translate.State.{Machine, State}
use vadm.Translate.Handlers.{m68k_bcc}
use vadm.Translate.Links.{Linked}
use vadm.Translate.Unit.{Uninitialized}
use vadm.Translate.Runs.{opcode_at, behind, linked}
use vadm.Translate.Result.{at_start}
use vadm.Translate.Meaning.{M68k, Represents, Performs}
use vadm.Translate.Steps.{Steps, HasCode, output_of}
use vadm.Translate.Correct.{behind_jump}

-- Where BEQ and BNE go, by the zero flag of the 680x0.
abbrev pub branch_taken : Condition → ℕ → Bool
branch_taken equal z = z == 1
branch_taken not_equal z = z == 0

-- Behind the place of the stub at `x` stands a listing and then two jumps. From a state that represents
-- one of the 680x0 the listing runs through to one that represents what the instructions make of it,
-- and the jumps then lead to the first address if the branch is taken, and to the second if not.
pub record IsBranching (call : ℕ → Processor → Processor) (flags_of : ℕ → Processor → ℕ) (x : ℕ)
    (memory : Memory) (meaning : M68k → M68k) (zero : M68k → ℕ → ℕ) (c : Condition)
    (taken not_taken : ℕ) : Type 0 where
  pub listing : List Instruction
  pub size : ℕ
  pub to_taken : ℕ
  pub to_not_taken : ℕ
  pub reads_jump : Disassembles (read_bytes memory x 2) (jump8 0x7e ∷ []) []
  pub reads :
      Disassembles
        (read_bytes memory (x + 128) (size + 11))
        (listing ++ jump_if c to_taken ∷ jump32 to_not_taken ∷ [])
        []
  pub performs : Performs call flags_of listing meaning zero
  pub continues :
      (cpu : Processor) (r : M68k) (rep : Represents cpu r)
      → jumps_to c to_taken to_not_taken (x + 128 + size) (performs cpu r rep).after
        ≡ (if branch_taken c (zero r (zero_flag cpu)) then u32 taken else u32 not_taken)

module _ (call : ℕ → Processor → Processor) (flags_of : ℕ → Processor → ℕ) (malloc : ℕ → Bool)
    (translate_tu_addr : ℕ) (u : Uninitialized) (p_m68k_code : ℕ) (m : Machine) (x : ℕ) (s : State)
    (f : M68k → M68k) (z : M68k → ℕ → ℕ) (c : Condition)
    (has : HasCode call flags_of malloc translate_tu_addr u (at_start p_m68k_code x m) s f z)
    (jumps : Linked c
      (opcode_at s)
      (behind s)
      (m68k_bcc malloc translate_tu_addr (opcode_at s) (behind s))) where
  abbrev start : State
  start = at_start p_m68k_code x m

  abbrev memory_after : Memory
  memory_after = (linked x jumps.after).memory

  at_jumps : s.outpos ≡ x + 128 + length has.code
  at_jumps = has.position

  listing_there : read_bytes memory_after (x + 128) (length has.code) ≡ has.code
  listing_there =
      read_bytes_ext (length has.code) memory_after (write_bytes has.code (output_of start)).mem
        (x + 128)
        (λ q a b.
          behind_jump x q jumps.after (omega arith)
          ∙ jumps.before q (omega (arith, at_jumps))
          ∙ ap (λ (t : Memory). t q) has.memory)
      ∙ read_bytes-write_bytes has.code (output_of start)

  jumps_there :
      read_bytes memory_after (x + 128 + length has.code) 11
      ≡ read_bytes jumps.after.memory s.outpos 11
  jumps_there =
      read_bytes_ext 11 memory_after jumps.after.memory (x + 128 + length has.code)
        (λ q a b. behind_jump x q jumps.after (omega arith))
      ∙ ap (λ (p : ℕ). read_bytes jumps.after.memory p 11) (sym at_jumps)

  all_there :
      Disassembles
        (read_bytes memory_after (x + 128) (length has.code + 11))
        (has.listing ++ jump_if c jumps.to_taken ∷ jump32 jumps.to_not_taken ∷ [])
        []
  all_there =
      rw (read_bytes-add (length has.code) 11 (x + 128) memory_after, listing_there, jumps_there)
        (Disassembles-append (has.code ++ read_bytes jumps.after.memory s.outpos 11)
          (read_bytes jumps.after.memory s.outpos 11) [] has.listing
          (jump_if c jumps.to_taken ∷ jump32 jumps.to_not_taken ∷ [])
          (has.reads (read_bytes jumps.after.memory s.outpos 11)) jumps.reads)

  same_condition : (c : Condition) (b : ℕ) → holds c b ≡ branch_taken c b
  same_condition equal b = refl
  same_condition not_equal b = refl

  destination :
      (cpu : Processor) (r : M68k) (rep : Represents cpu r)
      → jumps_to c jumps.to_taken jumps.to_not_taken
          (x + 128 + length has.code)
          (has.performs cpu r rep).after
        ≡ (if branch_taken c (z r (zero_flag cpu)) then u32 jumps.taken else u32 jumps.not_taken)
  destination cpu r rep =
      rw ((has.performs cpu r rep).flag, same_condition c (z r (zero_flag cpu)))
        (ap₂ (λ (a b : ℕ). if branch_taken c (z r (zero_flag cpu)) then a else b)
          (ap (λ (p : ℕ). u32 (p + 6 + jumps.to_taken)) (sym at_jumps) ∙ jumps.taken_landing)
          (ap (λ (p : ℕ). u32 (p + 11 + jumps.to_not_taken)) (sym at_jumps)
            ∙ jumps.not_taken_landing))

  pub code-IsBranching :
      (jump : Disassembles (read_bytes memory_after x 2) (jump8 0x7e ∷ []) [])
      → IsBranching call flags_of x memory_after f z c jumps.taken jumps.not_taken
  code-IsBranching jump = record {
    listing = has.listing;
    size = length has.code;
    to_taken = jumps.to_taken;
    to_not_taken = jumps.to_not_taken;
    reads_jump = jump;
    reads = all_there;
    performs = has.performs;
    continues = destination;
  }

module _ (call : ℕ → Processor → Processor) (flags_of : ℕ → Processor → ℕ) (malloc : ℕ → Bool)
    (translate_tu_addr : ℕ) (u : Uninitialized) (p_m68k_code : ℕ) (m : Machine) (x : ℕ) (s : State)
    (c : Condition) where
  abbrev handler_call : Outcome (ℤ × State)
  handler_call = m68k_bcc malloc translate_tu_addr (opcode_at s) (behind s)
