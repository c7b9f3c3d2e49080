-- ===== src/Translate/Table.antt =====
-- translate.c: the table of opcodes and the search through it.
use vadm.Base.{
  ℕ, zero, suc, ◌+◌, ◌/◌, ◌^◌, ◌&&◌, Bool, true, false, not, Option, none, some, List, [], ◌∷◌,
  ◌==◌, ltb, bit_and, bit_or, if◌then◌else◌,
}
use vadm.Translate.State.{
  OpcodeHandler, rts, tst_32, jsr, subq_32, movea, moveq, bcc, move, OpcodeInfo,
}

abbrev is_move : OpcodeHandler → Bool
is_move move = true
is_move _ = false

abbrev has : ℕ → ℕ → Bool
has mask bit = not (bit_and mask bit == 0)

-- The cases 0x00 to 0x37 stand in rows of eight, which end where `ltb` tests.
unfoldable pub valid_ea_mode : ℕ → ℕ → Bool
valid_ea_mode opcode mask =
    let mode : ℕ = bit_and opcode 0x3f in
    if mask == 0
    then true
    else if ltb mode 0x08
    then has mask 0x800
    else if ltb mode 0x10
    then has mask 0x400
    else if ltb mode 0x18
    then has mask 0x200
    else if ltb mode 0x20
    then has mask 0x100
    else if ltb mode 0x28
    then has mask 0x080
    else if ltb mode 0x30
    then has mask 0x040
    else if ltb mode 0x38
    then has mask 0x020
    else if mode == 0x38
    then has mask 0x010
    else if mode == 0x39
    then has mask 0x008
    else if mode == 0x3a
    then has mask 0x002
    else if mode == 0x3b
    then has mask 0x001
    else if mode == 0x3c
    then has mask 0x004
    else false

abbrev pub entry : OpcodeHandler → ℕ → ℕ → ℕ → Bool → OpcodeInfo
entry h mask match ea_mask terminal = record {
  opc_handler = h;
  opc_mask = mask;
  opc_match = match;
  opc_ea_mask = ea_mask;
  opc_terminal = terminal;
}

abbrev pub opcode_info_tbl : List OpcodeInfo
opcode_info_tbl =
    entry rts 0xffff 0x4e75 0x000 true
    ∷ entry tst_32 0xffc0 0x4a80 0xbf8 false
    ∷ entry jsr 0xffc0 0x4e80 0x27b false
    ∷ entry subq_32 0xf1c0 0x5180 0xff8 false
    ∷ entry movea 0xf1c0 0x2040 0xfff false
    ∷ entry moveq 0xf100 0x7000 0x000 false
    ∷ entry bcc 0xf000 0x6000 0x000 true
    ∷ entry move 0xf000 0x1000 0xbff false
    ∷ entry move 0xf000 0x3000 0xfff false
    ∷ entry move 0xf000 0x2000 0xfff false
    ∷ []

-- The destination mode of a move, with the parts in the order of the source mode.
abbrev destination : ℕ → ℕ
destination opcode = bit_or (bit_and (opcode / 2 ^ 9) 7) (bit_and (opcode / 2 ^ 3) 0x38)

-- The tests of the loop body: the entry fits the opcode.
abbrev pub matches : ℕ → OpcodeInfo → Bool
matches opcode info =
    if bit_and opcode info.opc_mask == info.opc_match
    then (if is_move info.opc_handler && not (valid_ea_mode (destination opcode) 0xbf8)
        then false
        else valid_ea_mode opcode info.opc_ea_mask)
    else false

-- The inner loop: the first entry that fits, or NULL.
unfoldable pub search_table : ℕ → List OpcodeInfo → Option OpcodeInfo
search_table opcode [] = none
search_table opcode (info ∷ rest) =
    let found : Option OpcodeInfo = search_table opcode rest in
    if matches opcode info then some info else found

-- The outer loop, `n` rounds of which are left from `opcode` on.
unfoldable pub init_loop : ℕ → ℕ → (ℕ → Option OpcodeInfo) → ℕ → Option OpcodeInfo
init_loop zero opcode tbl = tbl
init_loop (suc n) opcode tbl =
    init_loop n (opcode + 1)
      (λ i. if i == opcode then search_table opcode opcode_info_tbl else tbl i)

unfoldable pub init_opc_info_lookup_tbl : (ℕ → Option OpcodeInfo) → ℕ → Option OpcodeInfo
init_opc_info_lookup_tbl tbl = init_loop 0x10000 0 tbl
