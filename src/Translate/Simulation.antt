-- ===== src/Translate/Simulation.antt =====
-- The handlers of the instructions on registers against the meaning of the 680x0 instructions.
pub mod Moves
use mathlib.Core.Path.{subst}
use vadm.Base.{
  ℕ, ◌+◌, ◌-◌, ◌*◌, ◌/◌, ◌%◌, ◌^◌, ◌<◌, ◌≤◌, ◌≡◌, ◌≢◌, refl, sym, ap, ◌∙◌, ◌⊎◌, inl, inr, arith,
  ◌==◌, Bool, true, false, Bool-cases, List, [], ◌∷◌, ◌++◌, if◌then◌else◌, ℤ, u8, u32, sign_extend,
  bit_and, bit_and_self,
}
use vadm.Base.Bytes.{Memory, Out}
use vadm.X86.{Instruction, bits32, sub_imm, mov_imm, mov_reg, load, save, alu_imm8, test_reg}
use vadm.X86.Listing.{Generates}
use vadm.X86.Machine.{
  Processor, through, set_reg, zero_flag, with_zero_flag, flagged, fetch32, save32, step, execute,
}
use vadm.Translate.State.{State}
use vadm.Translate.Operand.{Operand, read_word, read_dword}
use vadm.Translate.Handlers.{m68k_moveq, m68k_subq_32, m68k_tst_32, m68k_move, m68k_movea}
use vadm.Translate.Listing.{dreg, areg}
use vadm.Translate.Fields.{ea_field, reg_field, size_field, move_size_field}
use vadm.Translate.Register.{Emits, m68k_moveq-Emits, m68k_subq_32-Emits, m68k_tst_32-Emits}
use vadm.Translate.Move.{relocated}
use vadm.Translate.Moves.{
  MovesAs, dreg_to_dreg, imm_to_dreg, mem_to_dreg, dreg_to_mem, MovesAddressAs, mem_to_areg,
  word_to_areg, imm_to_areg, m68k_move-Emits, m68k_movea-Emits,
}
use vadm.Translate.Meaning.{
  M68k, set_data, set_address, Represents, set_data-Represents, set_address-Represents,
  zero_flag-set, Performed, Performs, flag_kept, tells_zero, quick_value,
}

-- The new value of the data register in SUBQ.L.
abbrev pub difference : ℕ → M68k → ℕ
difference opcode r = u32 (r.d (ea_field opcode) + 2 ^ 32 - quick_value (reg_field opcode))

module _ (call : ℕ → Processor → Processor) (flags_of : ℕ → Processor → ℕ) where
  -- The handler returns `n`, leaves the input position `p`, and writes code that decodes to a listing
  -- which, executed, performs the instruction; the code takes eight bytes at most.
  pub record Simulates (s : State) (p n : ℕ) (meaning : M68k → M68k) (zero : M68k → ℕ → ℕ)
      (result : ℤ × State) : Type 0 where
    pub listing : List Instruction
    pub size : ℕ
    pub short : size ≤ 8
    pub emits : Emits s p n listing size result
    pub performs : Performs call flags_of listing meaning zero

  pub Performs-data :
      (i : Instruction) (n : ℕ) (v : Processor → ℕ)
      → n < 8
      → ((cpu : Processor) → step call flags_of i cpu ≡ through (set_reg (dreg n) (v cpu) cpu))
      → (w : M68k → ℕ) → ((cpu : Processor) (r : M68k) → Represents cpu r → u32 (v cpu) ≡ w r)
      → Performs call flags_of (i ∷ []) (λ r. set_data n (w r) r) flag_kept
  unfolding execute
  Performs-data i n v small does w same cpu r rep = record {
    after = set_reg (dreg n) (v cpu) cpu;
    runs = rw (does cpu) refl;
    represents =
        subst (λ (x : ℕ). Represents (set_reg (dreg n) (v cpu) cpu) (set_data n x r))
          (same cpu r rep) (set_data-Represents cpu r n (v cpu) small rep);
    flag = refl;
  }

  pub Performs-address :
      (i : Instruction) (n : ℕ) (v : Processor → ℕ)
      → n < 8
      → ((cpu : Processor) → step call flags_of i cpu ≡ through (set_reg (areg n) (v cpu) cpu))
      → (w : M68k → ℕ) → ((cpu : Processor) (r : M68k) → Represents cpu r → u32 (v cpu) ≡ w r)
      → Performs call flags_of (i ∷ []) (λ r. set_address n (w r) r) flag_kept
  unfolding execute
  Performs-address i n v small does w same cpu r rep = record {
    after = set_reg (areg n) (v cpu) cpu;
    runs = rw (does cpu) refl;
    represents =
        subst (λ (x : ℕ). Represents (set_reg (areg n) (v cpu) cpu) (set_address n x r))
          (same cpu r rep) (set_address-Represents cpu r n (v cpu) small rep);
    flag = refl;
  }

  -- What the handler of MOVEQ writes puts the value, sign-extended from 8 to 32 bits, into the data
  -- register, and changes no other register, nor the memory, nor the zero flag.
  pub m68k_moveq-Simulates :
      (opcode : ℕ) (s : State)
      → Simulates s s.inpos 0
          (set_data (reg_field opcode) (sign_extend 8 32 (opcode % 2 ^ 8)))
          flag_kept
          (m68k_moveq opcode s)
  m68k_moveq-Simulates opcode s = record {
    listing = mov_imm bits32 (dreg (reg_field opcode)) value ∷ [];
    size = 6;
    short = omega arith;
    emits = m68k_moveq-Emits opcode s;
    performs =
        Performs-data (mov_imm bits32 (dreg (reg_field opcode)) value) (reg_field opcode)
          (λ cpu. u32 value) (omega arith) (λ cpu. unfold step in refl) (λ r. value)
          (λ cpu r rep. fits);
  }
    where
      value : ℕ
      value = sign_extend 8 32 (opcode % 2 ^ 8)

      fits : u32 (u32 value) ≡ value
      fits = ground arith

  flags_changed :
      (x : ℕ) (cpu : Processor) (r : M68k)
      → Represents cpu r
      → Represents (flagged call flags_of x cpu) r
  flags_changed x cpu r rep = record {
    data_registers = rep.data_registers;
    address_registers = rep.address_registers;
    memory = rep.memory;
  }

  Performs-sub :
      (n q : ℕ)
      → n < 8
      → q < 8
      → q ≢ 0
      → Performs call flags_of
          (alu_imm8 sub_imm bits32 (dreg n) q ∷ [])
          (λ r. set_data n (u32 (r.d n + 2 ^ 32 - quick_value q)) r)
          (tells_zero (λ r. u32 (r.d n + 2 ^ 32 - quick_value q)))
  unfolding execute step
  Performs-sub n q small byte nonzero cpu r rep = record {
    after = set_reg (dreg n) x (flagged call flags_of x cpu);
    runs = refl;
    represents =
        subst
          (λ (y : ℕ).
            Represents (set_reg (dreg n) x (flagged call flags_of x cpu)) (set_data n y r))
          (let twice : u32 x ≡ x = omega arith in twice ∙ same)
          (set_data-Represents (flagged call flags_of x cpu) r n x small
            (flags_changed x cpu r rep));
    flag = zero_flag-set (flags_of x cpu) (x == 0) ∙ rw same refl;
  }
    where
      x : ℕ
      x = u32 (u32 (cpu.regs (dreg n)) + 2 ^ 32 - u32 (sign_extend 8 32 q))

      same : x ≡ u32 (r.d n + 2 ^ 32 - quick_value q)
      same = ground (arith, rep.data_registers n, byte, nonzero)

  Performs-test :
      (n : ℕ)
      → n < 8
      → Performs call flags_of
          (test_reg bits32 (dreg n) (dreg n) ∷ [])
          (λ r. r)
          (tells_zero (λ r. r.d n))
  unfolding execute step
  Performs-test n small cpu r rep = record {
    after = flagged call flags_of x cpu;
    runs = refl;
    represents = flags_changed x cpu r rep;
    flag = zero_flag-set (flags_of x cpu) (x == 0) ∙ rw same refl;
  }
    where
      x : ℕ
      x = bit_and (u32 (cpu.regs (dreg n))) (u32 (cpu.regs (dreg n)))

      same : x ≡ r.d n
      same = bit_and_self 32 (u32 (cpu.regs (dreg n))) (omega arith) ∙ rep.data_registers n small

  module _ (op : Operand) (opcode : ℕ) (s : State) (long : size_field opcode ≡ 2)
      (is_dreg : ea_field opcode < 8) where
    -- For an operand Dn and a field that is not 0, what the handler of SUBQ.L writes subtracts the
    -- field from the data register, modulo 2^32, and sets the zero flag if the difference is 0; it
    -- changes no other register, nor the memory.
    pub m68k_subq_32-Simulates :
        reg_field opcode ≢ 0
        → Simulates s s.inpos 0
            (λ r. set_data (ea_field opcode) (difference opcode r) r)
            (tells_zero (difference opcode))
            (m68k_subq_32 op opcode s)
    m68k_subq_32-Simulates nonzero = record {
      listing = alu_imm8 sub_imm bits32 (dreg (ea_field opcode)) (reg_field opcode) ∷ [];
      size = 4;
      short = omega arith;
      emits = m68k_subq_32-Emits op opcode s long is_dreg;
      performs = Performs-sub (ea_field opcode) (reg_field opcode) is_dreg (omega arith) nonzero;
    }

    -- For an operand Dn, what the handler of TST.L writes sets the zero flag if the data register holds
    -- 0; it changes no register, nor the memory.
    pub m68k_tst_32-Simulates :
        Simulates s s.inpos 0
          (λ r. r)
          (tells_zero (λ r. r.d (ea_field opcode)))
          (m68k_tst_32 op opcode s)
    m68k_tst_32-Simulates = record {
      listing = test_reg bits32 (dreg (ea_field opcode)) (dreg (ea_field opcode)) ∷ [];
      size = 3;
      short = omega arith;
      emits = m68k_tst_32-Emits op opcode s long is_dreg;
      performs = Performs-test (ea_field opcode) is_dreg;
    }
