-- ===== src/Execute/Entries.antt =====
-- The entries of the jump tables: what stands in them for each function, and what each round of the loop
-- writes.
use Prim.Native.String.{String}
use vadm.Base.{
  ℕ, ◌+◌, ◌-◌, ◌^◌, ◌<◌, ◌≤◌, ◌≡◌, refl, sym, ap, ◌∙◌, arith, ◌==◌, ◌⊎◌, inl, inr, Bool-cases,
  Option, none, some, false, List, [], ◌∷◌, append-nil, All, if◌then◌else◌, u32, u64,
}
use vadm.Base.Bytes.{
  Memory, Out, store, write_byte, write_dword, write_bytes, read_bytes, read_bytes_ext,
  read_bytes-write_bytes, write_bytes_outside, le32, pos-write_bytes,
}
use vadm.Base.Outcome.{Outcome, returns, ◌>>=◌}
use vadm.X86.{decode, int_3, jump32, read_back32_lem}
use vadm.X86.Listing.{Disassembles}
use mathlib.Core.Path.{subst}
use vadm.Execute.Text.{codes}
use vadm.Execute.{FuncInfo, lib_jump_tbl_size, setup_entry, jump_table_loop}
use vadm.Execute.Moves.{IsSignature}
use vadm.Execute.Thunk.{IsThunk, thunk_listing, thunk_size, emit_thunk_for_func-IsThunk}

-- The entries up to the one with offset 0.
abbrev pub before_end : List FuncInfo → List FuncInfo
before_end [] = []
before_end (pfi ∷ rest) =
    let others : List FuncInfo = before_end rest in if pfi.offset == 0 then [] else pfi ∷ others

-- A table of functions: the offsets do not fall, an entry of an implemented function has room for its
-- jump, and its signature is well formed. `low` is the least offset that the first entry may have, and
-- `size` that of all thunks.
pub data IsTable (limit : ℕ) : ℕ → ℕ → List FuncInfo → Type 0 where
  end :
      {low : ℕ} {pfi : FuncInfo} {rest : List FuncInfo}
      → pfi.offset ≡ 0
      → IsTable limit low 0 (pfi ∷ rest)
  unimplemented :
      {low size : ℕ} {pfi : FuncInfo} {rest : List FuncInfo}
      → pfi.p_func ≡ none
      → 0 < pfi.offset
      → low ≤ pfi.offset
      → pfi.offset ≤ limit
      → IsTable limit pfi.offset size rest
      → IsTable limit low size (pfi ∷ rest)
  implemented :
      {low size : ℕ} {pfi : FuncInfo} {rest : List FuncInfo} (p_func : ℕ) (args : List ℕ)
      (result : ℕ)
      → pfi.p_func ≡ some p_func
      → IsSignature (codes pfi.p_arg_regs) args result
      → 0 < pfi.offset
      → low + 5 ≤ pfi.offset
      → pfi.offset ≤ limit
      → IsTable limit (pfi.offset + 1) size rest
      → IsTable limit low (thunk_size args result + size) (pfi ∷ rest)

module _ (log_func_name_addr : ℕ) (string_addr : String → ℕ) (nargs₀ regnum₀ p_lib_base : ℕ) where
  -- The end of the first table, from which the offsets count down.
  abbrev pub table_end : ℕ
  table_end = p_lib_base + lib_jump_tbl_size

  -- The entry of an implemented function is a jump to a thunk that lies below the entry.
  pub record JumpsToThunk (m : Memory) (pfi : FuncInfo) (p_func : ℕ) : Type 0 where
    pub args : List ℕ
    pub result : ℕ
    pub signature : IsSignature (codes pfi.p_arg_regs) args result
    pub thunk : ℕ
    pub displacement : ℕ
    pub reads_jump :
        Disassembles (read_bytes m (table_end - pfi.offset) 5) (jump32 displacement ∷ []) []
    pub landing : u32 (table_end - pfi.offset + 5 + displacement) ≡ u32 thunk
    pub reads_thunk :
        Disassembles
          (read_bytes m thunk (thunk_size args result))
          (thunk_listing log_func_name_addr (string_addr pfi.p_name) p_func args result)
          []
    pub from : p_lib_base ≤ thunk
    pub below : thunk + thunk_size args result ≤ table_end - pfi.offset

  abbrev pub IsEntryFor : Memory → FuncInfo → Option ℕ → Type 0
  IsEntryFor m pfi none = Disassembles (read_bytes m (table_end - pfi.offset) 1) (int_3 ∷ []) []
  IsEntryFor m pfi (some p_func) = JumpsToThunk m pfi p_func

  abbrev pub IsEntry : Memory → FuncInfo → Type 0
  IsEntry m pfi = IsEntryFor m pfi pfi.p_func

  -- What the loop does from a table on: it returns, and leaves what lies above the entry at `low`, what
  -- lies below the next thunk, and an interrupt in the entry at `low`.
  pub record Built (low : ℕ) (table : List FuncInfo) (p : Out) (result : Outcome Out) : Type 0 where
    pub final : Out
    pub result_returns : result ≡ returns final
    pub grows : p.pos ≤ final.pos
    pub above : (q : ℕ) → table_end < q + low → final.mem q ≡ p.mem q
    pub below : (q : ℕ) → q < p.pos → final.mem q ≡ p.mem q
    pub kept : p.mem (table_end - low) ≡ 0xcc → final.mem (table_end - low) ≡ 0xcc
    pub entries : All (IsEntry final.mem) (before_end table)

  abbrev pub build : List FuncInfo → Out → Outcome Out
  build table p = jump_table_loop log_func_name_addr string_addr nargs₀ regnum₀ p_lib_base table p

  module _ (pfi : FuncInfo) (low limit : ℕ) (table : List FuncInfo) (p : Out)
      (positive : 0 < pfi.offset) (inside : pfi.offset ≤ limit)
      (limited : limit ≤ lib_jump_tbl_size) where
    -- The address of the entry in the first table.
    abbrev entry : ℕ
    entry = table_end - pfi.offset

    nonzero : (pfi.offset == 0) ≡ false
    nonzero = ground (arith, positive)

    All-entries :
        (m : Memory)
        → IsEntry m pfi
        → All (IsEntry m) (before_end table)
        → All (IsEntry m) (before_end (pfi ∷ table))
    All-entries m h hs = rw nonzero (h, hs)

    abbrev pub interrupted : Out
    interrupted = record { mem = store entry 0xcc p.mem; pos = p.pos }

    module _ (null : pfi.p_func ≡ none) (ordered : low ≤ pfi.offset)
        (room : p.pos ≤ table_end - limit)
        (rest : Built pfi.offset table interrupted (build table interrupted)) where
      there : rest.final.mem entry ≡ 0xcc
      there = rest.kept (ground arith)

      interrupt-IsEntry : IsEntry rest.final.mem pfi
      unfolding read_bytes decode
      interrupt-IsEntry = rw (null, there) ([], refl, refl)

      untouched : (q : ℕ) → (table_end < q + low) ⊎ (q < p.pos) → interrupted.mem q ≡ p.mem q
      untouched q h = ground (arith, ordered, inside, limited, room, positive)

      kept_interrupt : p.mem (table_end - low) ≡ 0xcc → rest.final.mem (table_end - low) ≡ 0xcc
      kept_interrupt h = elim (Bool-cases (low == pfi.offset)) [
        | inl same ↦ let e : low ≡ pfi.offset = ground (arith, same) in rw e there
        | inr differs ↦
            rest.above (table_end - low) (ground (arith, ordered, differs))
            ∙ ground (arith, h, ordered, differs, inside, limited)
      ]

      pub Built-unimplemented : Built low (pfi ∷ table) p (build (pfi ∷ table) p)
      unfolding jump_table_loop
      Built-unimplemented = record {
        final = rest.final;
        result_returns = rw (nonzero, null) rest.result_returns;
        grows = rest.grows;
        above = λ q h. rest.above q (omega (arith, ordered)) ∙ untouched q (inl h);
        below = λ q h. rest.below q h ∙ untouched q (inr h);
        kept = kept_interrupt;
        entries = All-entries rest.final.mem interrupt-IsEntry rest.entries;
      }

    module _ (p_func : ℕ) (args : List ℕ) (result : ℕ) (func : pfi.p_func ≡ some p_func)
        (signature : IsSignature (codes pfi.p_arg_regs) args result)
        (ordered : low + 5 ≤ pfi.offset) (from : p_lib_base ≤ p.pos)
        (room : p.pos + thunk_size args result ≤ table_end - limit) where
      abbrev displacement : ℕ
      displacement = u32 (u64 (p.pos + 2 ^ 64 - u64 (entry + 5)))

      abbrev jump_code : List ℕ
      jump_code = 0xe9 ∷ le32 displacement

      abbrev at_entry : Out
      at_entry = record { mem = p.mem; pos = entry }

      abbrev jumped : Out
      jumped = record { mem = (write_bytes jump_code at_entry).mem; pos = p.pos }

      pub thunk :
          IsThunk log_func_name_addr string_addr nargs₀ regnum₀ pfi.p_name p_func pfi.p_arg_regs
            (thunk_listing log_func_name_addr (string_addr pfi.p_name) p_func args result)
            (thunk_size args result)
      thunk =
          emit_thunk_for_func-IsThunk log_func_name_addr string_addr nargs₀ regnum₀ pfi.p_name
            p_func pfi.p_arg_regs args result signature

      abbrev pub thunked : Out
      thunked = write_bytes thunk.generates.code jumped

      run_thunk : thunk.run jumped ≡ thunked
      run_thunk = thunk.generates.writes jumped

      pub behind : thunked.pos ≡ p.pos + thunk_size args result
      behind = omega (arith, pos-write_bytes thunk.generates.code jumped, thunk.generates.sized)

      beside_thunk : (q : ℕ) → (q < p.pos) ⊎ (table_end - limit ≤ q) → thunked.mem q ≡ jumped.mem q
      beside_thunk q h =
          write_bytes_outside thunk.generates.code jumped q
            (ground (arith, h, room, thunk.generates.sized))

      beside_jump : (q : ℕ) → (q < entry) ⊎ (entry + 5 ≤ q) → jumped.mem q ≡ p.mem q
      beside_jump q h = write_bytes_outside jump_code at_entry q h

      module _ (rest : Built (pfi.offset + 1) table thunked (build table thunked)) where
        above_entry : (q : ℕ) → table_end ≤ q + pfi.offset → rest.final.mem q ≡ thunked.mem q
        above_entry q h = rest.above q (omega (arith, h))

        jump_there : read_bytes rest.final.mem entry 5 ≡ jump_code
        jump_there =
            read_bytes_ext 5 rest.final.mem (write_bytes jump_code at_entry).mem entry (λ q a b.
              above_entry q (omega (arith, inside, limited))
              ∙ beside_thunk q (inr (omega (arith, inside))))
            ∙ read_bytes-write_bytes jump_code at_entry

        thunk_there :
            read_bytes rest.final.mem p.pos (thunk_size args result) ≡ thunk.generates.code
        thunk_there =
            read_bytes_ext (thunk_size args result) rest.final.mem thunked.mem p.pos
              (λ q a b. rest.below q (omega (arith, behind)))
            ∙ ap (read_bytes thunked.mem p.pos) (sym thunk.generates.sized)
            ∙ read_bytes-write_bytes thunk.generates.code jumped

        jump_reads : Disassembles jump_code (jump32 (u32 displacement) ∷ []) []
        unfolding decode
        jump_reads = rw (← read_back32_lem displacement) (_, refl, refl)

        jumps : JumpsToThunk rest.final.mem pfi p_func
        jumps = record {
          args = args;
          result = result;
          signature = signature;
          thunk = p.pos;
          displacement = u32 displacement;
          reads_jump = rw jump_there jump_reads;
          landing = omega arith;
          reads_thunk = rw thunk_there (rw append-nil at (thunk.generates.reads []));
          from = from;
          below = omega (arith, room, inside);
        }

        untouched_by_entry : (q : ℕ) → (table_end ≤ q + low) → rest.final.mem q ≡ p.mem q
        untouched_by_entry q h =
            above_entry q (omega (arith, ordered))
            ∙ beside_thunk q (inr (omega (arith, ordered, inside, limited)))
            ∙ beside_jump q (inr (omega (arith, ordered, inside, limited)))

        abbrev set_up : Option ℕ → Outcome Out
        set_up t = setup_entry log_func_name_addr string_addr nargs₀ regnum₀ entry pfi t p

        entry_done : set_up (some p_func) ≡ returns thunked
        unfolding write_byte write_dword write_bytes
        entry_done = thunk.result_returns jumped ∙ ap returns run_thunk

        pub Built-implemented : Built low (pfi ∷ table) p (build (pfi ∷ table) p)
        unfolding jump_table_loop
        Built-implemented = record {
          final = rest.final;
          result_returns = rw nonzero (
              ap (λ (t : Option ℕ). set_up t >>= build table) func
              ∙ ap (λ (o : Outcome Out). o >>= build table) entry_done
              ∙ rest.result_returns);
          grows = omega (arith, rest.grows, behind);
          above = λ q h. untouched_by_entry q (omega (arith, h));
          below = λ q h.
              rest.below q (omega (arith, behind))
              ∙ beside_thunk q (inl h)
              ∙ beside_jump q (inl (omega (arith, room, inside)));
          kept = λ h.
              untouched_by_entry (table_end - low) (omega (arith, ordered, inside, limited)) ∙ h;
          entries =
              All-entries rest.final.mem
                (subst (λ t. IsEntryFor rest.final.mem pfi t) (sym func) jumps) rest.entries;
        }
