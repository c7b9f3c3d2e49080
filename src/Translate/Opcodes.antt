-- ===== src/Translate/Opcodes.antt =====
-- The table of opcodes: what `translate_tu` finds in it for every opcode.
pub mod Lines
use mathlib.Core.Option
use vadm.Base.{
  ℕ, zero, suc, ◌+◌, ◌*◌, ◌/◌, ◌%◌, ◌^◌, ◌<◌, ◌≤◌, ◌≡◌, refl, ap, ◌∙◌, arith, ◌==◌, leb, ltb, ◌&&◌,
  ◌||◌, not, Bool, true, false, Bool-cases, Option, none, some, if◌then◌else◌,
}
use vadm.Base.Tables.{tabulate, tabulate_ext, tabulate_ext₂}
use vadm.Translate.State.{
  OpcodeHandler, rts, tst_32, jsr, subq_32, movea, moveq, bcc, move, OpcodeInfo,
}
use vadm.Translate.Table.{
  search_table, opcode_info_tbl, init_loop, init_opc_info_lookup_tbl, valid_ea_mode,
}

-- The classes of effective addresses of the 680x0 manual, by mode and register.
abbrev exists_ea : ℕ → ℕ → Bool
exists_ea mode reg = ltb mode 7 || leb reg 4

abbrev alterable : ℕ → ℕ → Bool
alterable mode reg = ltb mode 7 || leb reg 1

abbrev control : ℕ → ℕ → Bool
control mode reg = mode == 2 || mode == 5 || mode == 6 || (mode == 7 && leb reg 3)

abbrev is_data : ℕ → Bool
is_data mode = not (mode == 1)

-- The instruction of an opcode, as the manual gives it, restricted to those that the program
-- knows: by the line (bits 12 to 15), the register (9 to 11), the operation mode (6 to 8), the mode
-- (3 to 5) and the register (0 to 2) of the effective address.
unfoldable pub classify : ℕ → Option OpcodeHandler
classify opcode =
    let line : ℕ = opcode / 4096 in
    let upper : ℕ = opcode / 512 % 8 in
    let op_mode : ℕ = opcode / 64 % 8 in
    let mode : ℕ = opcode / 8 % 8 in
    let reg : ℕ = opcode % 8 in
    let move_to : Bool = is_data op_mode && alterable op_mode upper in
    if line == 1 && move_to && is_data mode && exists_ea mode reg
    then some move
    else if line == 2 && (op_mode == 1) && exists_ea mode reg
    then some movea
    else if (line == 2 || line == 3) && move_to && exists_ea mode reg
    then some move
    else if opcode == 0x4e75
    then some rts
    else if line == 4 && (upper == 5) && (op_mode == 2) && is_data mode && alterable mode reg
    then some tst_32
    else if line == 4 && (upper == 7) && (op_mode == 2) && control mode reg
    then some jsr
    else if line == 5 && (op_mode == 6) && alterable mode reg
    then some subq_32
    else if line == 6
    then some bcc
    else if line == 7 && ltb op_mode 4
    then some moveq
    else none

abbrev pub handler_of : ℕ → Option OpcodeHandler
handler_of opcode = Option.map (λ i. i.opc_handler) (search_table opcode opcode_info_tbl)

-- The table after the loop: each of the 65536 entries holds what the search finds.
init_loop_lem :
    (n o : ℕ) (tbl : ℕ → Option OpcodeInfo) (i : ℕ)
    → init_loop n o tbl i
      ≡ (if leb o i && ltb i (o + n) then search_table i opcode_info_tbl else tbl i)
unfolding init_loop
init_loop_lem zero o tbl i = ground arith
init_loop_lem (suc n) o tbl i =
    init_loop_lem n (o + 1) (λ j. if j == o then search_table o opcode_info_tbl else tbl j) i
    ∙ ground arith

-- After the loop, each of the 65536 entries holds what the search finds for its opcode.
pub init_opc_info_lookup_tbl_lem :
    (tbl : ℕ → Option OpcodeInfo) (opcode : ℕ)
    → opcode < 2 ^ 16
    → init_opc_info_lookup_tbl tbl opcode ≡ search_table opcode opcode_info_tbl
unfolding init_opc_info_lookup_tbl
init_opc_info_lookup_tbl_lem tbl opcode h = init_loop_lem 0x10000 0 tbl opcode ∙ ground arith
