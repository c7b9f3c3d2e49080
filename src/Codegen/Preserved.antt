-- ===== src/Codegen/Preserved.antt =====
-- Which registers the saved state holds, against the calling convention of x86-64 Linux.
use vadm.Base.{ℕ, ◌<◌, ◌≡◌, refl, List, [], ◌∷◌, ◌++◌, map, ◌==◌, ◌||◌, not, leb, Bool, false}
use vadm.Base.Tables.{tabulate, tabulate_ext}
use vadm.X86.{Instruction, push, pushfq}
use vadm.X86.Listing.{Generates}
use vadm.Codegen.{emit_save_program_state}
use vadm.Codegen.Stub.{state_registers, emit_save_program_state-Generates}

-- A called function preserves RBX, RSP, RBP and R12 to R15; any other register may be changed.
abbrev pub may_change : ℕ → Bool
may_change reg = not (reg == 3 || reg == 4 || reg == 5 || leb 12 reg)

-- The listing pushes the register.
pub is_pushed : ℕ → List Instruction → Bool
is_pushed reg [] = false
is_pushed reg (push r ∷ rest) = reg == r || is_pushed reg rest
is_pushed reg (_ ∷ rest) = is_pushed reg rest

-- `emit_save_program_state` writes a listing that pushes a register exactly if a called function may
-- change it.
pub emit_save_program_state_covers :
    (listing : List Instruction) × Generates emit_save_program_state listing 14
    × ((reg : ℕ) → reg < 16 → is_pushed reg listing ≡ may_change reg)
unfolding is_pushed tabulate
emit_save_program_state_covers = (
  map push state_registers ++ pushfq ∷ [],
  emit_save_program_state-Generates,
  λ reg in_range.
      tabulate_ext 16 (λ r. is_pushed r (map push state_registers ++ pushfq ∷ [])) may_change reg
        refl in_range,
)
