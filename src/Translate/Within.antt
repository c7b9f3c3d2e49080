-- ===== src/Translate/Within.antt =====
-- What `translate_tu` writes for a unit that ends with a return stays in the block of the unit.
use vadm.Base.{ℕ, ◌+◌, ◌*◌, ◌^◌, ◌<◌, ◌≤◌, ◌≡◌, ◌⊎◌, Bool, true, some}
use vadm.Base.Outcome.{returns}
use vadm.X86.Machine.{Processor}
use vadm.TlCache.{tc_get_addr, max_code_block_size}
use vadm.Translate.State.{Machine, State}
use vadm.Translate.Table.{search_table, opcode_info_tbl}
use vadm.Translate.Unit.{Uninitialized, translate_tu}
use vadm.Translate.Runs.{opcode_at, returned}
use vadm.Translate.Result.{at_start}
use vadm.Translate.Meaning.{M68k}
use vadm.Translate.Program.{IsProgram, IsProgram-Steps}
use vadm.Translate.Correct.{translate_tu_performs}

-- Let a unit's entry be the block `x`, and let the unit consist of `n` instructions and a return. The
-- instructions are of these kinds: MOVEQ; SUBQ.L of 1 to 7 from a data register (not of 8, for which
-- the handler writes a subtraction of 0); TST.L of a data register; MOVE.L between data registers, from
-- an immediate value or an absolute address to a data register, and from a data register to an absolute
-- address; MOVEA.L of an immediate value or from an absolute address. An absolute address of 16 bits is
-- below 2^15. If 129 + 8 n is at most the size of a block, 1024, then `translate_tu` returns the block,
-- with any fuel above `n`, and no byte of the memory before the block or behind it has changed. The
-- table of the opcodes has not been built yet, or is that of the source.
pub translate_tu_within :
    (call : ℕ → Processor → Processor) (flags_of : ℕ → Processor → ℕ) (malloc : ℕ → Bool)
    (translate_tu_addr : ℕ) (u : Uninitialized) (p_m68k_code : ℕ) (m : Machine) (n fuel x : ℕ)
    (s : State) (f : M68k → M68k) (z : M68k → ℕ → ℕ)
    → tc_get_addr m.tlcache p_m68k_code ≡ returns (some x)
    → (m.initialized ≡ true
        → (opcode : ℕ) → opcode < 2 ^ 16
        → m.opc_info_lookup_tbl opcode ≡ search_table opcode opcode_info_tbl)
    → IsProgram call flags_of malloc translate_tu_addr u s n (at_start p_m68k_code x m) f z
    → opcode_at s ≡ 0x4e75
    → n < fuel
    → 129 + n * 8 ≤ max_code_block_size
    → (after : Machine) × (translate_tu malloc translate_tu_addr u fuel p_m68k_code m
        ≡ returned (some x) after)
      × ((q : ℕ) → (q < x) ⊎ (x + max_code_block_size ≤ q) → after.memory q ≡ m.memory q)
translate_tu_within call flags_of malloc translate_tu_addr u p_m68k_code m n fuel x s f z entry
      table program is_rts enough room =
    let (after, returned_block, _, outside) =
      translate_tu_performs call flags_of malloc translate_tu_addr u p_m68k_code m n fuel x s f z
        entry table
        (IsProgram-Steps call flags_of malloc translate_tu_addr u s (at_start p_m68k_code x m) n f z
          program)
        is_rts enough in
    (after, returned_block, λ q h. outside q max_code_block_size room h)
