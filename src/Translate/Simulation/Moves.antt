-- ===== src/Translate/Simulation/Moves.antt =====
-- The handlers of MOVE and MOVEA against the meaning of these instructions.
use mathlib.Core.Path.{subst}
use vadm.Base.{
  ℕ, Bool, true, false, ◌^◌, ◌<◌, ◌≤◌, ◌≡◌, refl, ap₂, ◌∙◌, arith, [], ◌∷◌, u32, sign_extend,
}
use vadm.Base.Bytes.{Memory}
use vadm.X86.{Instruction, bits32, mov_imm, mov_reg, load, save}
use vadm.X86.Machine.{Processor, fetch32, save32, save32-u32, step, execute}
use vadm.Translate.State.{State}
use vadm.Translate.Operand.{Operand, read_word, read_dword}
use vadm.Translate.Handlers.{m68k_move, m68k_movea}
use vadm.Translate.Listing.{dreg, areg}
use vadm.Translate.Fields.{ea_field, reg_field, move_size_field}
use vadm.Translate.Move.{relocated}
use vadm.Translate.Moves.{
  MovesAs, dreg_to_dreg, imm_to_dreg, mem_to_dreg, dreg_to_mem, word_to_dreg, dreg_to_word,
  MovesAddressAs, mem_to_areg, word_to_areg, imm_to_areg, m68k_move-Emits, m68k_movea-Emits,
}
use vadm.Translate.Simulation.{Simulates, Performs-data, Performs-address}
use vadm.Translate.Meaning.{M68k, set_data, set_address, Performs, flag_kept}

address_lem : (w : ℕ) → w < 2 ^ 15 → u32 (relocated w) ≡ relocated (sign_extend 16 32 w)
address_lem w h = ground (arith, h)

sign_lem : (w : ℕ) → w < 2 ^ 15 → u32 w ≡ sign_extend 16 32 w
sign_lem w h = ground (arith, h)

-- The long word at an address, as x86 reads it: with the least significant byte first.
abbrev pub long_at : M68k → ℕ → ℕ
long_at r a = u32 (fetch32 r.mem a)

module _ (s : State) (opcode : ℕ) where
  -- What MOVE.L and MOVEA.L mean, by the classes of their operands.
  abbrev pub move_meaning :
      {p nbytes size : ℕ} {i : Instruction} → MovesAs s opcode p nbytes i size → M68k → M68k
  move_meaning (dreg_to_dreg is_dreg is_to) r =
      set_data (reg_field opcode) (r.d (ea_field opcode)) r
  move_meaning (imm_to_dreg is_imm is_to) r =
      set_data (reg_field opcode) (u32 (read_dword s.memory s.inpos)) r
  move_meaning (mem_to_dreg is_mem is_to) r =
      set_data (reg_field opcode) (long_at r (u32 (read_dword s.memory s.inpos))) r
  move_meaning (dreg_to_mem is_dreg is_absolute is_long) r = record r {
    mem = save32 (u32 (read_dword s.memory s.inpos)) (r.d (ea_field opcode)) r.mem;
  }
  move_meaning (word_to_dreg is_mem is_to) r =
      set_data (reg_field opcode) (long_at r (sign_extend 16 32 (read_word s.memory s.inpos))) r
  move_meaning (dreg_to_word is_dreg is_absolute is_short) r = record r {
    mem = save32 (sign_extend 16 32 (read_word s.memory s.inpos)) (r.d (ea_field opcode)) r.mem;
  }

  -- An operand of MOVE.L is a 16-bit address.
  abbrev pub has_word :
      {p nbytes size : ℕ} {i : Instruction} → MovesAs s opcode p nbytes i size → Bool
  has_word (word_to_dreg is_mem is_to) = true
  has_word (dreg_to_word is_dreg is_absolute is_short) = true
  has_word _ = false

  abbrev pub movea_meaning :
      {p nbytes size : ℕ} {i : Instruction} → MovesAddressAs s opcode p nbytes i size → M68k → M68k
  movea_meaning (mem_to_areg is_mem) r =
      set_address (reg_field opcode) (long_at r (u32 (relocated (read_dword s.memory s.inpos)))) r
  movea_meaning (word_to_areg is_mem) r =
      set_address (reg_field opcode)
        (long_at r (relocated (sign_extend 16 32 (read_word s.memory s.inpos)))) r
  movea_meaning (imm_to_areg is_imm) r =
      set_address (reg_field opcode) (u32 (read_dword s.memory s.inpos)) r

-- The code of a move takes eight bytes at most.
moves_size-le :
    (s : State) (opcode : ℕ) {p nbytes size : ℕ} {i : Instruction}
    → MovesAs s opcode p nbytes i size
    → size ≤ 8
moves_size-le s opcode (dreg_to_dreg is_dreg is_to) = omega arith
moves_size-le s opcode (imm_to_dreg is_imm is_to) = omega arith
moves_size-le s opcode (mem_to_dreg is_mem is_to) = omega arith
moves_size-le s opcode (dreg_to_mem is_dreg is_absolute is_long) = omega arith
moves_size-le s opcode (word_to_dreg is_mem is_to) = omega arith
moves_size-le s opcode (dreg_to_word is_dreg is_absolute is_short) = omega arith

moves_address_size-le :
    (s : State) (opcode : ℕ) {p nbytes size : ℕ} {i : Instruction}
    → MovesAddressAs s opcode p nbytes i size
    → size ≤ 8
moves_address_size-le s opcode (mem_to_areg is_mem) = omega arith
moves_address_size-le s opcode (word_to_areg is_mem) = omega arith
moves_address_size-le s opcode (imm_to_areg is_imm) = omega arith

module _ (call : ℕ → Processor → Processor) (flags_of : ℕ → Processor → ℕ) where
  Performs-save :
      (n a : ℕ)
      → n < 8
      → Performs call flags_of
          (save (dreg n) a ∷ [])
          (λ r. record r { mem = save32 a (r.d n) r.mem })
          flag_kept
  unfolding execute step
  Performs-save n a small cpu r rep = record {
    after = record cpu { mem = save32 a (cpu.regs (dreg n)) cpu.mem };
    runs = refl;
    represents = record {
      data_registers = rep.data_registers;
      address_registers = rep.address_registers;
      memory =
          save32-u32 a (cpu.regs (dreg n)) cpu.mem
          ∙ ap₂ (λ (v : ℕ) (mem : Memory). save32 a v mem) (rep.data_registers n small) rep.memory;
    };
    flag = refl;
  }

  module _ (s : State) (opcode : ℕ) where
    move-Performs :
        {p nbytes size : ℕ} {i : Instruction} (moves : MovesAs s opcode p nbytes i size)
        → (has_word s opcode moves ≡ true → read_word s.memory s.inpos < 2 ^ 15)
        → Performs call flags_of (i ∷ []) (move_meaning s opcode moves) flag_kept
    move-Performs (dreg_to_dreg is_dreg is_to) positive =
        Performs-data call flags_of
          (mov_reg bits32 (dreg (ea_field opcode)) (dreg (reg_field opcode))) (reg_field opcode)
          (λ cpu. u32 (cpu.regs (dreg (ea_field opcode)))) (omega arith)
          (λ cpu. unfold step in refl) (λ r. r.d (ea_field opcode))
          (λ cpu r rep. omega (arith, rep.data_registers (ea_field opcode) is_dreg))
    move-Performs (imm_to_dreg is_imm is_to) positive =
        Performs-data call flags_of
          (mov_imm bits32 (dreg (reg_field opcode)) (u32 (read_dword s.memory s.inpos)))
          (reg_field opcode) (λ cpu. u32 (u32 (read_dword s.memory s.inpos))) (omega arith)
          (λ cpu. unfold step in refl) (λ r. u32 (read_dword s.memory s.inpos))
          (λ cpu r rep. omega arith)
    move-Performs (mem_to_dreg is_mem is_to) positive =
        Performs-data call flags_of
          (load (dreg (reg_field opcode)) (u32 (read_dword s.memory s.inpos))) (reg_field opcode)
          (λ cpu. fetch32 cpu.mem (u32 (read_dword s.memory s.inpos))) (omega arith)
          (λ cpu. unfold step in refl) (λ r. long_at r (u32 (read_dword s.memory s.inpos)))
          (λ cpu r rep. rw rep.memory refl)
    move-Performs (dreg_to_mem is_dreg is_absolute is_long) positive =
        Performs-save (ea_field opcode) (u32 (read_dword s.memory s.inpos)) is_dreg
    move-Performs (word_to_dreg is_mem is_to) positive =
        Performs-data call flags_of
          (load (dreg (reg_field opcode)) (u32 (read_word s.memory s.inpos))) (reg_field opcode)
          (λ cpu. fetch32 cpu.mem (u32 (read_word s.memory s.inpos))) (omega arith)
          (λ cpu. unfold step in refl)
          (λ r. long_at r (sign_extend 16 32 (read_word s.memory s.inpos)))
          (λ cpu r rep. rw (rep.memory, sign_lem (read_word s.memory s.inpos) (positive refl)) refl)
    move-Performs (dreg_to_word is_dreg is_absolute is_short) positive =
        subst
          (λ (a : ℕ).
            Performs call flags_of
              (save (dreg (ea_field opcode)) (u32 (read_word s.memory s.inpos)) ∷ [])
              (λ r. record r { mem = save32 a (r.d (ea_field opcode)) r.mem }) flag_kept)
          (sign_lem (read_word s.memory s.inpos) (positive refl))
          (Performs-save (ea_field opcode) (u32 (read_word s.memory s.inpos)) is_dreg)

    pub m68k_move-Simulates :
        (src dst : Operand) (p nbytes size : ℕ) (instruction : Instruction)
        → move_size_field opcode ≡ 2
        → (moves : MovesAs s opcode p nbytes instruction size)
        → (has_word s opcode moves ≡ true → read_word s.memory s.inpos < 2 ^ 15)
        → Simulates call flags_of s p nbytes
            (move_meaning s opcode moves)
            flag_kept
            (m68k_move src dst opcode s)
    m68k_move-Simulates src dst p nbytes size instruction long moves positive = record {
      listing = instruction ∷ [];
      size = size;
      short = moves_size-le s opcode moves;
      emits = m68k_move-Emits s opcode src dst p nbytes size instruction long moves;
      performs = move-Performs moves positive;
    }

    movea-Performs :
        {p nbytes size : ℕ} {i : Instruction} (moves : MovesAddressAs s opcode p nbytes i size)
        → (ea_field opcode ≡ 0x38 → read_word s.memory s.inpos < 2 ^ 15)
        → Performs call flags_of (i ∷ []) (movea_meaning s opcode moves) flag_kept
    movea-Performs (mem_to_areg is_mem) positive =
        Performs-address call flags_of
          (load (areg (reg_field opcode)) (u32 (relocated (read_dword s.memory s.inpos))))
          (reg_field opcode)
          (λ cpu. fetch32 cpu.mem (u32 (relocated (read_dword s.memory s.inpos)))) (omega arith)
          (λ cpu. unfold step in refl)
          (λ r. long_at r (u32 (relocated (read_dword s.memory s.inpos))))
          (λ cpu r rep. rw rep.memory refl)
    movea-Performs (word_to_areg is_mem) positive =
        Performs-address call flags_of
          (load (areg (reg_field opcode)) (u32 (relocated (read_word s.memory s.inpos))))
          (reg_field opcode) (λ cpu. fetch32 cpu.mem (u32 (relocated (read_word s.memory s.inpos))))
          (omega arith) (λ cpu. unfold step in refl)
          (λ r. long_at r (relocated (sign_extend 16 32 (read_word s.memory s.inpos))))
          (λ cpu r rep.
            rw (rep.memory, address_lem (read_word s.memory s.inpos) (positive is_mem)) refl)
    movea-Performs (imm_to_areg is_imm) positive =
        Performs-address call flags_of
          (mov_imm bits32 (areg (reg_field opcode)) (u32 (read_dword s.memory s.inpos)))
          (reg_field opcode) (λ cpu. u32 (u32 (read_dword s.memory s.inpos))) (omega arith)
          (λ cpu. unfold step in refl) (λ r. u32 (read_dword s.memory s.inpos))
          (λ cpu r rep. omega arith)

    pub m68k_movea-Simulates :
        (op : Operand) (p nbytes size : ℕ) (instruction : Instruction)
        → move_size_field opcode ≡ 2
        → (moves : MovesAddressAs s opcode p nbytes instruction size)
        → (ea_field opcode ≡ 0x38 → read_word s.memory s.inpos < 2 ^ 15)
        → Simulates call flags_of s p nbytes
            (movea_meaning s opcode moves)
            flag_kept
            (m68k_movea op opcode s)
    m68k_movea-Simulates op p nbytes size instruction long moves positive = record {
      listing = instruction ∷ [];
      size = size;
      short = moves_address_size-le s opcode moves;
      emits = m68k_movea-Emits s opcode op p nbytes size instruction long moves;
      performs = movea-Performs moves positive;
    }
