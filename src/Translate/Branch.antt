-- ===== src/Translate/Branch.antt =====
-- The handler of the conditional branches: two units are set up, and two jumps lead to them.
use vadm.Base.{
  ℕ, ◌+◌, ◌-◌, ◌/◌, ◌%◌, ◌^◌, ◌<◌, ◌≤◌, ◌≡◌, refl, ap, ap₂, ◌∙◌, inl, arith, some, List, [], ◌∷◌,
  ◌++◌, u32, u64, sign_extend, bit_field,
}
use vadm.Base.Bytes.{
  Memory, Out, write_byte, write_dword, write_bytes, write_bytes_outside, read_bytes,
  read_bytes-add, read_bytes-write_bytes, read_bytes_ext, le32,
}
use vadm.X86.{Condition, equal, not_equal, decode, jump_if, jump32, read_back32_lem}
use vadm.X86.Listing.{Disassembles}
use vadm.Translate.State.{State, emit, at_input}
use vadm.Translate.Handlers.{branch_offset, branch_opcode, relative, write_jumps}

-- The position of the branch target: the offset counts from behind the opcode.
abbrev pub branch_target : ℕ → State → ℕ
branch_target opcode s =
    let (offset, nbytes_used) = branch_offset opcode s in
    u64 (s.inpos + nbytes_used + sign_extend 32 64 offset + 2 ^ 64 - nbytes_used)

-- BNE has condition 6, BEQ condition 7.
abbrev pub condition_field : ℕ → ℕ
condition_field opcode = opcode / 2 ^ 8 % 2 ^ 4

abbrev pub condition_code : Condition → ℕ
condition_code equal = 0x84
condition_code not_equal = 0x85

abbrev pub condition_number : Condition → ℕ
condition_number equal = 7
condition_number not_equal = 6

pub branch_opcode_lem :
    (c : Condition) (opcode : ℕ)
    → condition_field opcode ≡ condition_number c
    → branch_opcode opcode ≡ some (condition_code c)
unfolding branch_opcode
branch_opcode_lem equal opcode h = ground (arith, bit_field 4 8 opcode)
branch_opcode_lem not_equal opcode h = ground (arith, bit_field 4 8 opcode)

-- The eleven bytes of the two jumps.
abbrev pub jumps_code : Condition → ℕ → ℕ → List ℕ
jumps_code c a b = 0x0f ∷ condition_code c ∷ le32 a ++ 0xe9 ∷ le32 b

pub jumps_code-Disassembles :
    (c : Condition) (a b : ℕ)
    → Disassembles (jumps_code c a b) (jump_if c (u32 a) ∷ jump32 (u32 b) ∷ []) []
unfolding decode
jumps_code-Disassembles equal a b =
    rw (← read_back32_lem a, ← read_back32_lem b) (_, refl, (_, refl, refl))
jumps_code-Disassembles not_equal a b =
    rw (← read_back32_lem a, ← read_back32_lem b) (_, refl, (_, refl, refl))

-- The state when the first unit is set up: the first two bytes are written, and the input stands
-- behind the offset.
abbrev pub before_units : Condition → ℕ → State → State
before_units c opcode s =
    emit (λ o. write_byte (condition_code c) (write_byte 0x0f o))
      (at_input (s.inpos + (branch_offset opcode s).1) s)

-- The eleven bytes, if the first two stand there when the rest is written.
module _ (c : Condition) (taken not_taken p : ℕ) (m m' : Memory) where
  abbrev pub opcode_written : Out
  opcode_written = write_byte (condition_code c) (write_byte 0x0f (record { mem = m; pos = p }))

  abbrev jumps_written : Out
  jumps_written = write_jumps taken not_taken (record { mem = m'; pos = p + 1 + 1 })

  abbrev pub to_first : ℕ
  to_first = relative taken (p + 1 + 1) 4

  abbrev pub to_second : ℕ
  to_second = relative not_taken (p + 1 + 1 + 1 + 1 + 1 + 1) 5

  -- What stands before the jumps stays.
  pub jumps_before : (q : ℕ) → q < p → jumps_written.mem q ≡ m' q
  unfolding write_byte write_dword write_bytes
  jumps_before q h =
      write_bytes_outside (le32 to_first ++ 0xe9 ∷ le32 to_second)
        (record { mem = m'; pos = p + 1 + 1 }) q (inl (omega arith))

  pub jumps_read :
      ((q : ℕ) → p ≤ q → q < p + 2 → m' q ≡ opcode_written.mem q)
      → read_bytes jumps_written.mem p 11 ≡ jumps_code c to_first to_second
  unfolding write_byte write_dword write_bytes
  jumps_read same =
      read_bytes-add 2 9 p jumps_written.mem
      ∙ ap₂ ◌++◌ (read_bytes_ext 2 jumps_written.mem opcode_written.mem p kept ∙ opcode_back c) (
          ap (λ (q : ℕ). read_bytes jumps_written.mem q 9) two
          ∙ read_bytes-write_bytes jump_bytes (record { mem = m'; pos = p + 1 + 1 }))
    where
      two : p + 2 ≡ p + 1 + 1
      two = omega arith

      jump_bytes : List ℕ
      jump_bytes = le32 to_first ++ 0xe9 ∷ le32 to_second

      kept : (q : ℕ) → p ≤ q → q < p + 2 → jumps_written.mem q ≡ opcode_written.mem q
      kept q a b =
          write_bytes_outside (le32 to_first ++ 0xe9 ∷ le32 to_second)
            (record { mem = m'; pos = p + 1 + 1 }) q (inl (omega arith))
          ∙ same q a b

      opcode_back :
          (c : Condition)
          → read_bytes
              (write_byte (condition_code c) (write_byte 0x0f (record { mem = m; pos = p }))).mem
              p
              2
            ≡ 0x0f ∷ condition_code c ∷ []
      opcode_back equal = read_bytes-write_bytes (0x0f ∷ 0x84 ∷ []) (record { mem = m; pos = p })
      opcode_back not_equal =
          read_bytes-write_bytes (0x0f ∷ 0x85 ∷ []) (record { mem = m; pos = p })
