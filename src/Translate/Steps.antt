-- ===== src/Translate/Steps.antt =====
-- Sequences of 680x0 instructions that the handlers translate one after the other.
use mathlib.Core.Path.{subst}
use mathlib.Core.Option
use vadm.Base.{
  ℕ, ◌≤◌, suc, ◌+◌, ◌*◌, ◌^◌, ◌<◌, ◌≡◌, refl, ap, ◌∙◌, inl, inr, arith, Bool, true, false,
  Bool-cases, Option, none, some, List, [], ◌∷◌, ◌++◌, All, ℤ, is_minus_one, length, length-append,
  append_assoc,
}
use vadm.Base.Bytes.{Out, write_bytes, write_bytes-append, pos-write_bytes}
use vadm.Base.Outcome.{returns}
use vadm.X86.{Instruction}
use vadm.X86.Listing.{Disassembles, Disassembles-append}
use vadm.X86.Machine.{Processor}
use vadm.Translate.State.{OpcodeHandler, rts, bcc, OpcodeInfo, State, emit, at_input}
use vadm.Translate.Table.{matches, search_table, opcode_info_tbl}
use vadm.Translate.Opcodes.{classify}
use vadm.Translate.Opcodes.Lines.{search_table-classify}
use vadm.Translate.Unit.{Uninitialized, call_handler}
use vadm.Translate.Runs.{Handled, Runs, last, next, opcode_at, behind}
use vadm.Translate.Register.{Emits}
use vadm.Translate.Meaning.{M68k, Performs, Performs-nil, Performs-append, flag_kept}
use vadm.Translate.Simulation.{Simulates}

abbrev is_terminal : OpcodeHandler → Bool
is_terminal rts = true
is_terminal bcc = true
is_terminal _ = false

search_table-All :
    (P : OpcodeInfo → Type 0) (opcode : ℕ) (table : List OpcodeInfo) (info : OpcodeInfo)
    → All P table
    → search_table opcode table ≡ some info
    → P info
unfolding search_table
search_table-All P opcode [] info h e = cc
search_table-All P opcode (x ∷ xs) info h e = elim (Bool-cases (matches opcode x)) [
  | inl fits ↦ let same : some x ≡ some info = rw fits at e in subst P (cc same) h.0
  | inr other ↦ search_table-All P opcode xs info h.1 (rw other at e)
]

-- The table is that of the source.
abbrev pub KnowsTable : State → Type 0
KnowsTable s =
    (opcode : ℕ)
    → opcode < 2 ^ 16
    → s.opc_info_lookup_tbl opcode ≡ search_table opcode opcode_info_tbl

handler_found :
    (h : OpcodeHandler) (r : Option OpcodeInfo)
    → Option.map (λ (i : OpcodeInfo). i.opc_handler) r ≡ some h
    → (info : OpcodeInfo) × (r ≡ some info) × (info.opc_handler ≡ h)
handler_found h none e = cc
handler_found h (some info) e = (info, refl, cc)

table_kinds : All (λ i. i.opc_terminal ≡ is_terminal i.opc_handler) opcode_info_tbl
table_kinds = (refl, (refl, (refl, (refl, (refl, (refl, (refl, (refl, (refl, (refl, tt))))))))))

-- The search finds an entry with the handler, and with the end of the unit for a return and a branch.
pub found_entry :
    (opcode : ℕ) (h : OpcodeHandler)
    → opcode < 2 ^ 16
    → classify opcode ≡ some h
    → (info : OpcodeInfo) × (search_table opcode opcode_info_tbl ≡ some info)
      × (info.opc_handler ≡ h)
      × (info.opc_terminal ≡ is_terminal h)
found_entry opcode h small e =
    let (info, found, same) =
      handler_found h (search_table opcode opcode_info_tbl)
        (search_table-classify opcode small ∙ e) in
    (
      info,
      found,
      same,
      search_table-All (λ i. i.opc_terminal ≡ is_terminal i.opc_handler) opcode opcode_info_tbl info
            table_kinds found
          ∙ ap is_terminal same,
    )

-- The memory, and the position that code is written at.
abbrev pub output_of : State → Out
output_of s = record { mem = s.memory; pos = s.outpos }

module _ (call : ℕ → Processor → Processor) (flags_of : ℕ → Processor → ℕ) (malloc : ℕ → Bool)
    (translate_tu_addr : ℕ) (u : Uninitialized) where
  -- The instruction at the input position does not end the unit, and what its handler writes performs
  -- it.
  pub record Translated (s : State) (meaning : M68k → M68k) (zero : M68k → ℕ → ℕ) : Type 0 where
    pub handler : OpcodeHandler
    pub position : ℕ
    pub nbytes : ℕ
    pub result : ℤ × State
    pub word : opcode_at s < 2 ^ 16
    pub known : classify (opcode_at s) ≡ some handler
    pub goes_on : is_terminal handler ≡ false
    pub called :
        call_handler malloc translate_tu_addr u handler (opcode_at s) (behind s) ≡ returns result
    pub simulates : Simulates call flags_of (behind s) position nbytes meaning zero result

  -- A number of instructions, with their meaning as a whole.
  pub data Steps (after : State) : ℕ → State → (M68k → M68k) → (M68k → ℕ → ℕ) → Type 0 where
    done : Steps after 0 after (λ r. r) flag_kept
    then_next :
        {n : ℕ} {s : State} {f g : M68k → M68k} {z z' : M68k → ℕ → ℕ} (i : Translated s f z)
        → Steps after n i.result.1 g z'
        → Steps after (suc n) s (λ r. g (f r)) (λ r b. z' (f r) (z r b))

  -- What the translation of the instructions leaves: their code behind that of the state before.
  pub record HasCode (s after : State) (meaning : M68k → M68k) (zero : M68k → ℕ → ℕ) : Type 0 where
    pub code : List ℕ
    pub listing : List Instruction
    pub memory : after.memory ≡ (write_bytes code (output_of s)).mem
    pub position : after.outpos ≡ s.outpos + length code
    pub table : after.opc_info_lookup_tbl ≡ s.opc_info_lookup_tbl
    pub cache : after.tlcache ≡ s.tlcache
    pub reads : (rest : List ℕ) → Disassembles (code ++ rest) listing rest
    pub performs : Performs call flags_of listing meaning zero

  module _ (s : State) (f : M68k → M68k) (z : M68k → ℕ → ℕ) (i : Translated s f z) where
    abbrev mid : State
    mid = i.result.1

    abbrev emitted :
        Emits (behind s) i.position i.nbytes i.simulates.listing i.simulates.size i.result
    emitted = i.simulates.emits

    mid_lem : mid ≡ emit emitted.run (at_input i.position (behind s))
    mid_lem = ap (λ (r : ℤ × State). r.1) emitted.same

    output_mid : output_of mid ≡ write_bytes emitted.generates.code (output_of s)
    output_mid =
        ap output_of mid_lem
        ∙ (let written : output_of (emit emitted.run (at_input i.position (behind s)))
                ≡ emitted.run (output_of s) =
              unfold emit in refl in
            written)
        ∙ emitted.generates.writes (output_of s)

    table_mid : mid.opc_info_lookup_tbl ≡ s.opc_info_lookup_tbl
    table_mid =
        ap (λ (t : State). t.opc_info_lookup_tbl) mid_lem
        ∙ (let same : (emit emitted.run (at_input i.position (behind s))).opc_info_lookup_tbl
                ≡ s.opc_info_lookup_tbl =
              unfold emit in refl in
            same)

    cache_mid : mid.tlcache ≡ s.tlcache
    cache_mid =
        ap (λ (t : State). t.tlcache) mid_lem
        ∙ (let same : (emit emitted.run (at_input i.position (behind s))).tlcache ≡ s.tlcache =
              unfold emit in refl in
            same)

    succeeded : is_minus_one i.result.0 ≡ false
    succeeded = ap (λ (r : ℤ × State). is_minus_one r.0) emitted.same

    Translated-Handled : KnowsTable s → Handled malloc translate_tu_addr u false s mid
    Translated-Handled knows =
        let (info, found, same, kind) = found_entry (opcode_at s) i.handler i.word i.known in
        record {
          info = info;
          nbytes_used = i.result.0;
          found = knows (opcode_at s) i.word ∙ found;
          kind = kind ∙ i.goes_on;
          handled = rw same i.called;
          succeeded = succeeded;
        }

    module _ (after : State) (g : M68k → M68k) (z' : M68k → ℕ → ℕ)
        (rest : HasCode mid after g z') where
      HasCode-cons : HasCode s after (λ r. g (f r)) (λ r b. z' (f r) (z r b))
      HasCode-cons = record {
        code = emitted.generates.code ++ rest.code;
        listing = i.simulates.listing ++ rest.listing;
        memory =
            rest.memory
            ∙ ap (λ (o : Out). (write_bytes rest.code o).mem) output_mid
            ∙ ap (λ (o : Out). o.mem)
                (write_bytes-append emitted.generates.code rest.code (output_of s));
        position = omega (
          arith,
          rest.position,
          ap (λ (o : Out). o.pos) output_mid,
          pos-write_bytes emitted.generates.code (output_of s),
          length-append emitted.generates.code rest.code,
        );
        table = rest.table ∙ table_mid;
        cache = rest.cache ∙ cache_mid;
        reads = λ more. rw append_assoc (
            Disassembles-append (emitted.generates.code ++ (rest.code ++ more)) (rest.code ++ more)
              more i.simulates.listing rest.listing (emitted.generates.reads (rest.code ++ more))
              (rest.reads more));
        performs =
            Performs-append call flags_of i.simulates.listing rest.listing f g z z'
              i.simulates.performs rest.performs;
      }

  pub Steps-HasCode :
      (after s : State) (n : ℕ) (f : M68k → M68k) (z : M68k → ℕ → ℕ)
      → Steps after n s f z
      → HasCode s after f z
  unfolding write_bytes
  Steps-HasCode after s n f z done = record {
    code = [];
    listing = [];
    memory = refl;
    position = omega arith;
    table = refl;
    cache = refl;
    reads = λ rest. refl;
    performs = Performs-nil call flags_of;
  }
  Steps-HasCode after s _ _ _ (then_next {n} {f} {g} {z} {z'} i rest) =
      HasCode-cons s f z i after g z' (Steps-HasCode after i.result.1 n g z' rest)

  -- The same instructions, with a return behind them, are a run of the loop of `translate_tu`.
  pub Steps-Runs :
      (after s end : State) (n : ℕ) (f : M68k → M68k) (z : M68k → ℕ → ℕ)
      → Steps after n s f z
      → KnowsTable s
      → Handled malloc translate_tu_addr u true after end
      → Runs malloc translate_tu_addr u n s end
  Steps-Runs after s end n f z done knows h = last h
  Steps-Runs after s end _ _ _ (then_next {n} {f} {g} {z} {z'} i rest) knows h =
      next (Translated-Handled s f z i knows) (
        Steps-Runs after i.result.1 end n g z' rest
          (λ opcode small.
            ap (λ (t : ℕ → Option OpcodeInfo). t opcode) (table_mid s f z i) ∙ knows opcode small)
          h)

  -- No instruction takes more than eight bytes of code.
  pub Steps-length-le :
      (after s : State) (n : ℕ) (f : M68k → M68k) (z : M68k → ℕ → ℕ) (steps : Steps after n s f z)
      → length (Steps-HasCode after s n f z steps).code ≤ n * 8
  unfolding Steps-HasCode HasCode-cons
  Steps-length-le after s n f z done = omega arith
  Steps-length-le after s _ _ _ (then_next {n} {f} {g} {z} {z'} i rest) = omega (
    arith,
    Steps-length-le after i.result.1 n g z' rest,
    length-append i.simulates.emits.generates.code
        (Steps-HasCode after i.result.1 n g z' rest).code,
    i.simulates.emits.generates.sized,
    i.simulates.short,
  )
