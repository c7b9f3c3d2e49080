-- ===== src/Codegen/Encoding.antt =====
-- What the routines of codegen.c generate: their bytes, and the instructions that these decode to.
use vadm.Base.{
  ℕ, ◌+◌, ◌-◌, ◌*◌, ◌%◌, ◌<◌, ◌≡◌, refl, ap, ◌∙◌, inl, inr, some, List, [], ◌∷◌, ◌++◌, arith, ltb,
  leb, ◌&&◌, ◌==◌, if◌then◌else◌, u8, u32, u64, bit_or, Bool-cases, length,
}
use vadm.Base.Bytes.{write_byte, write_dword, write_qword, write_bytes, le32, le64}
use vadm.Base.Tables.{tabulate, tabulate_ext, tabulate_ext₂}
use vadm.X86.{
  Width, bits32, bits64, decode, push, pop, mov_reg, mov_imm, read_back32, read_back64,
  read_back32_lem, read_back64_lem,
}
use vadm.X86.Listing.{Generates}
use vadm.Codegen.{emit_push_reg, emit_pop_reg, emit_move_reg_to_reg, emit_move_imm_to_reg}

-- The hardware number of a register of the enumerations of codegen.h.
abbrev pub hardware : ℕ → ℕ
hardware reg = (reg + 8) % 16

abbrev one_byte_opcode : ℕ → ℕ → List ℕ
one_byte_opcode op reg = if ltb reg 8 then 0x41 ∷ u8 (op + reg) ∷ [] else u8 (op + (reg - 8)) ∷ []

module _ (reg : ℕ) (in_range : reg < 16) where
  decode_push :
      (rest : List ℕ) → decode (one_byte_opcode 0x50 reg ++ rest) ≡ some (push (hardware reg), rest)
  unfolding decode tabulate
  decode_push rest =
      tabulate_ext 16 (λ r. decode (one_byte_opcode 0x50 r ++ rest))
        (λ r. some (push (hardware r), rest)) reg refl in_range

  decode_pop :
      (rest : List ℕ) → decode (one_byte_opcode 0x58 reg ++ rest) ≡ some (pop (hardware reg), rest)
  unfolding decode tabulate
  decode_pop rest =
      tabulate_ext 16 (λ r. decode (one_byte_opcode 0x58 r ++ rest))
        (λ r. some (pop (hardware r), rest)) reg refl in_range

  -- For every register, `emit_push_reg` writes the two or one bytes of PUSH of that register.
  pub emit_push_reg-Generates :
      Generates (λ o. emit_push_reg o reg) (push (hardware reg) ∷ []) (if ltb reg 8 then 2 else 1)
  unfolding emit_push_reg write_byte write_bytes
  emit_push_reg-Generates = record {
    code = one_byte_opcode 0x50 reg;
    writes = λ o. elim (Bool-cases (ltb reg 8)) [ inl e ↦ rw e | inr e ↦ rw e ];
    reads = λ rest. (rest, decode_push rest, refl);
    sized = ground arith;
  }

  -- For every register, `emit_pop_reg` writes the two or one bytes of POP of that register.
  pub emit_pop_reg-Generates :
      Generates (λ o. emit_pop_reg o reg) (pop (hardware reg) ∷ []) (if ltb reg 8 then 2 else 1)
  unfolding emit_pop_reg write_byte write_bytes
  emit_pop_reg-Generates = record {
    code = one_byte_opcode 0x58 reg;
    writes = λ o. elim (Bool-cases (ltb reg 8)) [ inl e ↦ rw e | inr e ↦ rw e ];
    reads = λ rest. (rest, decode_pop rest, refl);
    sized = ground arith;
  }

abbrev prefix_bytes : ℕ → List ℕ
prefix_bytes p = if p == 0 then [] else u8 p ∷ []

abbrev move_prefix : ℕ → ℕ → ℕ → ℕ
move_prefix src dst mode =
    let prefix₀ : ℕ = if mode == 1 then 0x48 else 0 in
    let prefix₁ : ℕ = if ltb src 8 then bit_or prefix₀ 0x44 else prefix₀ in
    if ltb dst 8 then bit_or prefix₁ 0x41 else prefix₁

abbrev low_digits : ℕ → ℕ
low_digits reg = if ltb reg 8 then reg else reg - 8

abbrev move_code : ℕ → ℕ → ℕ → List ℕ
move_code mode src dst =
    prefix_bytes (move_prefix src dst mode)
    ++ 0x89 ∷ u8 (bit_or (bit_or 0xc0 (low_digits src * 8)) (low_digits dst)) ∷ []

abbrev pub width : ℕ → Width
width mode = if mode == 1 then bits64 else bits32

module _ (mode src dst : ℕ) (is_mode : mode < 2) (hs : src < 16) (hd : dst < 16) where
  decode_move :
      (rest : List ℕ)
      → decode (move_code mode src dst ++ rest)
        ≡ some (mov_reg (width mode) (hardware src) (hardware dst), rest)
  unfolding decode tabulate
  decode_move rest =
      tabulate_ext₂ 16 16 (λ s d. decode (move_code mode s d ++ rest))
        (λ s d. some (mov_reg (width mode) (hardware s) (hardware d), rest)) src dst
        (tabulate_ext 2
          (λ m. tabulate 16 (λ s. tabulate 16 (λ d. decode (move_code m s d ++ rest))))
          (λ m.
            tabulate 16
              (λ s. tabulate 16 (λ d. some (mov_reg (width m) (hardware s) (hardware d), rest))))
          mode refl is_mode)
        hs hd

  abbrev move_size : ℕ
  move_size = if mode == 0 && leb 8 src && leb 8 dst then 2 else 3

  length-move_code : length (move_code mode src dst) ≡ move_size
  unfolding tabulate
  length-move_code =
      tabulate_ext₂ 16 16 (λ s d. length (move_code mode s d))
        (λ s d. if mode == 0 && leb 8 s && leb 8 d then 2 else 3) src dst
        (tabulate_ext 2 (λ m. tabulate 16 (λ s. tabulate 16 (λ d. length (move_code m s d))))
          (λ m. tabulate 16 (λ s. tabulate 16 (λ d. if m == 0 && leb 8 s && leb 8 d then 2 else 3)))
          mode refl is_mode)
        hs hd

  -- For every pair of registers and both modes, `emit_move_reg_to_reg` writes MOV with the source
  -- in the first and the destination in the second place, of the width that the mode names.
  pub emit_move_reg_to_reg-Generates :
      Generates
        (λ o. emit_move_reg_to_reg o src dst mode)
        (mov_reg (width mode) (hardware src) (hardware dst) ∷ [])
        move_size
  unfolding emit_move_reg_to_reg write_byte write_bytes
  emit_move_reg_to_reg-Generates = record {
    code = move_code mode src dst;
    writes = λ o. elim (Bool-cases (move_prefix src dst mode == 0)) [ inl e ↦ rw e | inr e ↦ rw e ];
    reads = λ rest. (rest, decode_move rest, refl);
    sized = length-move_code;
  }

abbrev imm_prefix : ℕ → ℕ → ℕ
imm_prefix reg mode =
    let prefix₀ : ℕ = if mode == 1 then 0x48 else 0 in
    if ltb reg 8 then bit_or prefix₀ 0x44 else prefix₀

abbrev imm_bytes : ℕ → ℕ → List ℕ
imm_bytes mode value = if mode == 1 then le64 value else le32 (u32 value)

abbrev imm_code : ℕ → ℕ → ℕ → List ℕ
imm_code mode value reg =
    prefix_bytes (imm_prefix reg mode) ++ (u8 (0xb8 + low_digits reg) ∷ imm_bytes mode value)

-- The immediate value, cut off to the width.
abbrev pub immediate : ℕ → ℕ → ℕ
immediate mode value = if mode == 1 then u64 value else u32 value

abbrev read_back : ℕ → ℕ → ℕ
read_back mode value = if mode == 1 then read_back64 value else read_back32 (u32 value)

read_back_lem : (mode value : ℕ) → read_back mode value ≡ immediate mode value
read_back_lem mode value = ground (arith, read_back64_lem value, read_back32_lem (u32 value))

module _ (mode value reg : ℕ) (is_mode : mode < 2) (in_range : reg < 16) where
  decode_imm :
      (rest : List ℕ)
      → decode (imm_code mode value reg ++ rest)
        ≡ some (mov_imm (width mode) (reg % 8) (read_back mode value), rest)
  unfolding decode tabulate
  decode_imm rest =
      tabulate_ext₂ 2 16 (λ m r. decode (imm_code m value r ++ rest))
        (λ m r. some (mov_imm (width m) (r % 8) (read_back m value), rest)) mode reg refl is_mode
        in_range

  abbrev imm_size : ℕ
  imm_size = (if mode == 1 then 9 else 5) + (if mode == 0 && leb 8 reg then 0 else 1)

  length-imm_code : length (imm_code mode value reg) ≡ imm_size
  unfolding tabulate
  length-imm_code =
      tabulate_ext₂ 2 16 (λ m r. length (imm_code m value r))
        (λ m r. (if m == 1 then 9 else 5) + (if m == 0 && leb 8 r then 0 else 1)) mode reg refl
        is_mode in_range

  -- For every register, both modes and every value, `emit_move_imm_to_reg` writes a MOV of the
  -- value, cut off to the width, to the hardware register `reg % 8`. That is the register asked for
  -- if it is one of EAX..EDI; for R8D..R15D it is the one 8 below, since the code sets REX.R and not
  -- REX.B.
  pub emit_move_imm_to_reg-Generates :
      Generates
        (λ o. emit_move_imm_to_reg o value reg mode)
        (mov_imm (width mode) (reg % 8) (immediate mode value) ∷ [])
        imm_size
  unfolding emit_move_imm_to_reg write_byte write_dword write_qword write_bytes
  emit_move_imm_to_reg-Generates = record {
    code = imm_code mode value reg;
    writes = λ o. elim (Bool-cases (mode == 1)) [
      | inl wide ↦ elim (Bool-cases (ltb reg 8)) [ inl e ↦ rw (wide, e) | inr e ↦ rw (wide, e) ]
      | inr narrow ↦ elim (Bool-cases (ltb reg 8)) [
        | inl e ↦ rw (narrow, e)
        | inr e ↦ rw (narrow, e)
      ]
    ];
    reads = λ rest. (
      rest,
      decode_imm rest
          ∙ ap (λ (v : ℕ). some (mov_imm (width mode) (reg % 8) v, rest))
              (read_back_lem mode value),
      refl,
    );
    sized = length-imm_code;
  }
