-- ===== src/Translate/Correct.antt =====
-- `translate_tu` for a unit that ends with a return: the code that it generates, executed, does what the
-- instructions of the unit mean.
use vadm.Base.{
  ℕ, ◌+◌, ◌^◌, ◌<◌, ◌≤◌, ◌≡◌, refl, sym, ap, ap₂, ◌∙◌, inl, inr, arith, ◌⊎◌, ◌*◌, length-append,
  Bool, true, Bool-cases, Option, some, List, [], ◌∷◌, ◌++◌, append-nil, length, pos,
}
use vadm.Base.Bytes.{
  Memory, Out, write_byte, write_bytes, write_bytes-append, pos-write_bytes, write_bytes_outside,
  read_bytes, read_bytes-write_bytes, read_bytes_ext,
}
use vadm.Base.Outcome.{returns}
use vadm.X86.{Instruction, ret, jump8}
use vadm.X86.Listing.{Disassembles, Disassembles-append}
use vadm.X86.Machine.{Processor}
use vadm.TlCache.{tc_get_addr}
use vadm.Translate.State.{rts, OpcodeInfo, Machine, State, emit}
use vadm.Translate.Handlers.{m68k_rts}
use vadm.Translate.Table.{search_table, opcode_info_tbl}
use vadm.Translate.Listing.{return_code}
use vadm.Translate.Opcodes.{classify, init_opc_info_lookup_tbl_lem}
use vadm.Translate.Unit.{Uninitialized, call_handler, write_jump, with_table, translate_tu}
use vadm.Translate.Runs.{Handled, opcode_at, behind, returned, linked}
use vadm.Translate.Result.{at_start, translate_tu_complete}
use vadm.Translate.Meaning.{M68k, Performs}
use vadm.Translate.Steps.{
  KnowsTable, found_entry, Steps, HasCode, output_of, Steps-HasCode, Steps-Runs, Steps-length-le,
}

-- Behind the place of the stub at `x` stands a listing with a return at its end, and the listing performs
-- the meaning. The stub begins with a jump to it.
pub record IsTranslation (call : ℕ → Processor → Processor) (flags_of : ℕ → Processor → ℕ) (x : ℕ)
    (memory : Memory) (meaning : M68k → M68k) (zero : M68k → ℕ → ℕ) : Type 0 where
  pub listing : List Instruction
  pub size : ℕ
  pub reads_jump : Disassembles (read_bytes memory x 2) (jump8 0x7e ∷ []) []
  pub reads : Disassembles (read_bytes memory (x + 128) size) (listing ++ ret ∷ []) []
  pub performs : Performs call flags_of listing meaning zero

-- In the first call the table is built.
pub with_table-KnowsTable :
    (m : Machine) (p x : ℕ)
    → (m.initialized ≡ true
        → (opcode : ℕ) → opcode < 2 ^ 16
        → m.opc_info_lookup_tbl opcode ≡ search_table opcode opcode_info_tbl)
    → KnowsTable (at_start p x m)
unfolding with_table
with_table-KnowsTable m p x h opcode small = elim (Bool-cases m.initialized) [
  | inl e ↦ rw e (h e opcode small)
  | inr e ↦ rw e (init_opc_info_lookup_tbl_lem m.opc_info_lookup_tbl opcode small)
]

outside_jump : (x q : ℕ) (s : State) → (q < x) ⊎ (x + 2 ≤ q) → (linked x s).memory q ≡ s.memory q
unfolding write_jump write_byte write_bytes
outside_jump x q s h =
    write_bytes_outside (0xeb ∷ 0x7e ∷ []) (record { mem = s.memory; pos = x }) q h

same_memory : (m : Machine) → (with_table m).memory ≡ m.memory
unfolding with_table
same_memory m = elim (Bool-cases m.initialized) [ inl e ↦ rw e refl | inr e ↦ rw e refl ]

pub behind_jump : (x q : ℕ) (s : State) → x + 2 ≤ q → (linked x s).memory q ≡ s.memory q
behind_jump x q s h = outside_jump x q s (inr h)

module _ (call : ℕ → Processor → Processor) (flags_of : ℕ → Processor → ℕ) (malloc : ℕ → Bool)
    (translate_tu_addr : ℕ) (u : Uninitialized) (p_m68k_code : ℕ) (m : Machine) where
  module _ (x : ℕ) (s : State) (f : M68k → M68k) (z : M68k → ℕ → ℕ)
      (has : HasCode call flags_of malloc translate_tu_addr u
        (at_start p_m68k_code x m)
        s
        f
        z) where
    abbrev start : State
    start = at_start p_m68k_code x m

    abbrev end : State
    end = emit (write_byte 0xc3) (behind s)

    abbrev all_code : List ℕ
    all_code = has.code ++ return_code.code

    pub output_s : output_of s ≡ write_bytes has.code (output_of start)
    output_s =
        ap₂ (λ (mem : Memory) (p : ℕ). let o : Out = record { mem = mem; pos = p } in o) has.memory
          (has.position ∙ sym (pos-write_bytes has.code (output_of start)))

    end_memory : end.memory ≡ (write_bytes all_code (output_of start)).mem
    end_memory =
        (let written : end.memory ≡ (write_byte 0xc3 (output_of s)).mem = unfold emit in refl in
          written)
        ∙ ap (λ (o : Out). o.mem)
            (return_code.writes (output_of s)
              ∙ ap (write_bytes return_code.code) output_s
              ∙ write_bytes-append has.code return_code.code (output_of start))

    size_all : length all_code ≡ length has.code + 1
    size_all =
        length-append has.code return_code.code ∙ ap (λ k. length has.code + k) return_code.sized

    outside_code :
        (q size : ℕ)
        → length has.code + 129 ≤ size
        → (q < x) ⊎ (x + size ≤ q)
        → (linked x end).memory q ≡ m.memory q
    outside_code q size room h =
        outside_jump x q end (ground (arith, h, room))
        ∙ ap (λ (t : Memory). t q) end_memory
        ∙ write_bytes_outside all_code (output_of start) q (ground (arith, h, room, size_all))
        ∙ ap (λ (t : Memory). t q) (same_memory m)

    code_there : read_bytes (linked x end).memory (x + 128) (length all_code) ≡ all_code
    code_there =
        read_bytes_ext (length all_code) (linked x end).memory
          (write_bytes all_code (output_of start)).mem (x + 128)
          (λ q a b. behind_jump x q end (omega arith) ∙ ap (λ (t : Memory). t q) end_memory)
        ∙ read_bytes-write_bytes all_code (output_of start)

    reads_all :
        Disassembles
          (read_bytes (linked x end).memory (x + 128) (length all_code))
          (has.listing ++ ret ∷ [])
          []
    reads_all = rw code_there (
        Disassembles-append all_code return_code.code [] has.listing (ret ∷ [])
          (has.reads return_code.code) (rw append-nil at (return_code.reads [])))

    rts-Handled :
        opcode_at s ≡ 0x4e75 → KnowsTable start → Handled malloc translate_tu_addr u true s end
    unfolding call_handler m68k_rts
    rts-Handled is_rts knows =
        let (info, found, same, kind) =
          found_entry 0x4e75 rts (omega arith) (unfold classify in refl) in
        record {
          info = info;
          nbytes_used = pos 0;
          found =
              ap s.opc_info_lookup_tbl is_rts
              ∙ ap (λ (t : ℕ → Option OpcodeInfo). t 0x4e75) has.table
              ∙ knows 0x4e75 (omega arith)
              ∙ found;
          kind = kind;
          handled = rw same refl;
          succeeded = refl;
        }

  -- For a unit whose entry is the block `x` and which consists of `n` instructions whose translation
  -- performs them, and a return behind them, `translate_tu` returns the block, with any fuel above `n`;
  -- the block then begins with a jump over the stub, to code that runs, from any state of the x86
  -- processor that represents one of the 680x0, through to a return, in a state that represents what
  -- the `n` instructions together make of it. The table of the opcodes is that of the source, or has
  -- not been built.
  pub translate_tu_performs :
      (n fuel x : ℕ) (s : State) (f : M68k → M68k) (z : M68k → ℕ → ℕ)
      → tc_get_addr m.tlcache p_m68k_code ≡ returns (some x)
      → (m.initialized ≡ true
          → (opcode : ℕ) → opcode < 2 ^ 16
          → m.opc_info_lookup_tbl opcode ≡ search_table opcode opcode_info_tbl)
      → Steps call flags_of malloc translate_tu_addr u s n (at_start p_m68k_code x m) f z
      → opcode_at s ≡ 0x4e75
      → n < fuel
      → (after : Machine) × (translate_tu malloc translate_tu_addr u fuel p_m68k_code m
          ≡ returned (some x) after)
        × IsTranslation call flags_of x after.memory f z
        × ((q size : ℕ)
            → 129 + n * 8 ≤ size
            → (q < x) ⊎ (x + size ≤ q)
            → after.memory q ≡ m.memory q)
  translate_tu_performs n fuel x s f z entry table steps is_rts enough =
      let has : HasCode call flags_of malloc translate_tu_addr u (at_start p_m68k_code x m) s f z =
        Steps-HasCode call flags_of malloc translate_tu_addr u s (at_start p_m68k_code x m) n f z
          steps in
      let (translated, jump) =
        translate_tu_complete malloc translate_tu_addr u p_m68k_code m n fuel x (end x s f z has)
          entry
          (Steps-Runs call flags_of malloc translate_tu_addr u s (at_start p_m68k_code x m)
            (end x s f z has) n f z steps (with_table-KnowsTable m p_m68k_code x table)
            (rts-Handled x s f z has is_rts (with_table-KnowsTable m p_m68k_code x table)))
          enough in
      (
        linked x (end x s f z has),
        translated,
        record {
          listing = has.listing;
          size = length (all_code x s f z has);
          reads_jump = jump;
          reads = reads_all x s f z has;
          performs = has.performs;
        },
        λ q size room h.
            outside_code x s f z has q size
              (omega (
                arith,
                room,
                Steps-length-le call flags_of malloc translate_tu_addr u s
                    (at_start p_m68k_code x m) n f z steps,
              ))
              h,
      )
