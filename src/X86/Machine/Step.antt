-- ===== src/X86/Machine/Step.antt =====
-- The state of the processor, the effect of one instruction, and straight-line execution.
use vadm.Base.{
  ℕ, zero, suc, ◌+◌, ◌-◌, ◌*◌, ◌/◌, ◌%◌, ◌^◌, ◌<◌, ◌≤◌, ◌≡◌, refl, ap, ap₂, ◌∙◌, fun_ext, ◌⊎◌, inl,
  arith, List, [], ◌∷◌, ◌++◌, ◌==◌, Bool, replicate, if◌then◌else◌, u8, u32, u64, sign_extend,
  bit_and,
}
use vadm.Base.Bytes.{Memory, store}
use vadm.X86.{
  Width, Alu, Condition, equal, not_equal, Instruction, bits32, bits64, add_imm, and_imm, sub_imm,
  mov_reg, mov_imm, load, save, push, pop, pushfq, popfq, nop, ret, int_3, alu_imm8, alu_imm32,
  test_reg, call_reg, jump_if, jump8, jump32, from_le32, read_back32_lem,
}

-- The 64-bit registers by their hardware numbers, RFLAGS, and the bytes of the memory.
pub record Processor : Type 0 where
  pub regs : ℕ → ℕ
  pub flags : ℕ
  pub mem : Memory

abbrev pub rsp_of : Processor → ℕ
rsp_of m = m.regs 4

abbrev pub set_reg : ℕ → ℕ → Processor → Processor
set_reg r v m = record m { regs = store r v m.regs }

-- The number that the four or eight bytes from an address on stand for.
unfoldable pub fetch32 : Memory → ℕ → ℕ
fetch32 mem a = from_le32 (mem a) (mem (a + 1)) (mem (a + 2)) (mem (a + 3))

unfoldable pub fetch64 : Memory → ℕ → ℕ
unfolding fetch32
fetch64 mem a = fetch32 mem a + fetch32 mem (a + 4) * 2 ^ 32

unfoldable pub save32 : ℕ → ℕ → Memory → Memory
save32 a v mem =
    store (a + 3) (u8 (v / 2 ^ 24))
      (store (a + 2) (u8 (v / 2 ^ 16)) (store (a + 1) (u8 (v / 2 ^ 8)) (store a (u8 v) mem)))

unfoldable pub save64 : ℕ → ℕ → Memory → Memory
unfolding save32
save64 a v mem = save32 (a + 4) (v / 2 ^ 32) (save32 a v mem)

abbrev pub cut : Width → ℕ → ℕ
cut bits32 v = u32 v
cut bits64 v = u64 v

abbrev pub immediate8 : Width → ℕ → ℕ
immediate8 bits32 v = sign_extend 8 32 v
immediate8 bits64 v = sign_extend 8 64 v

abbrev pub immediate32 : Width → ℕ → ℕ
immediate32 bits32 v = v
immediate32 bits64 v = sign_extend 32 64 v

abbrev modulus : Width → ℕ
modulus bits32 = 2 ^ 32
modulus bits64 = 2 ^ 64

abbrev pub alu_result : Alu → Width → ℕ → ℕ → ℕ
alu_result add_imm w a b = cut w (a + b)
alu_result and_imm w a b = bit_and (cut w a) (cut w b)
alu_result sub_imm w a b = cut w (cut w a + modulus w - cut w b)

-- Bit 6 of RFLAGS is the zero flag. The other flags that an operation sets are the parameter.
abbrev pub with_zero_flag : ℕ → Bool → ℕ
with_zero_flag flags z = flags / 2 ^ 7 * 2 ^ 7 + (if z then 2 ^ 6 else 0) + flags % 2 ^ 6

abbrev pub zero_flag : Processor → ℕ
zero_flag m = m.flags / 2 ^ 6 % 2

-- Whether a conditional jump is taken.
abbrev pub holds : Condition → ℕ → Bool
holds equal z = z == 1
holds not_equal z = z == 0

-- Where a conditional jump at an address and a jump behind it lead, in the low 32 bits: a displacement
-- counts from behind the jump, which takes six bytes and five.
abbrev pub jumps_to : Condition → ℕ → ℕ → ℕ → Processor → ℕ
jumps_to c taken not_taken p m =
    if holds c (zero_flag m) then u32 (p + 6 + taken) else u32 (p + 11 + not_taken)

pub data Run : Type 0 where
  -- Behind the last instruction.
  through : Processor → Run
  -- At the address that RET has popped.
  returned : ℕ → Processor → Run
  -- Stopped by an interrupt, or at a jump, which a listing does not follow.
  stopped : Run

infixl 5 ◌>>=◌
abbrev pub ◌>>=◌ : Run → (Processor → Run) → Run
through m >>= k = k m
returned a m >>= k = returned a m
stopped >>= k = stopped

abbrev pub push_value : ℕ → Processor → Processor
push_value v m =
    let sp : ℕ = u64 (rsp_of m + 2 ^ 64 - 8) in
    record { regs = store 4 sp m.regs; flags = m.flags; mem = save64 sp v m.mem }

abbrev pub popped : Processor → Processor
popped m = set_reg 4 (u64 (rsp_of m + 8)) m

assoc : (r : Run) (f g : Processor → Run) → (r >>= λ m. f m >>= g) ≡ ((r >>= f) >>= g)
assoc (through m) f g = refl
assoc (returned a m) f g = refl
assoc stopped f g = refl

module _ (call : ℕ → Processor → Processor) (flags_of : ℕ → Processor → ℕ) where
  abbrev pub flagged : ℕ → Processor → Processor
  flagged v m = record m { flags = with_zero_flag (flags_of v m) (v == 0) }

  unfoldable pub step : Instruction → Processor → Run
  step (mov_reg w src dst) m = through (set_reg dst (cut w (m.regs src)) m)
  step (mov_imm w r v) m = through (set_reg r (cut w v) m)
  step (load r a) m = through (set_reg r (fetch32 m.mem a) m)
  step (save r a) m = through (record m { mem = save32 a (m.regs r) m.mem })
  step (push r) m = through (push_value (m.regs r) m)
  step (pop r) m = through (set_reg r (fetch64 m.mem (rsp_of m)) (popped m))
  step pushfq m = through (push_value m.flags m)
  step popfq m = through (record (popped m) { flags = fetch64 m.mem (rsp_of m) })
  step nop m = through m
  step ret m = returned (fetch64 m.mem (rsp_of m)) (popped m)
  step int_3 m = stopped
  step (alu_imm8 a w r v) m =
      let x : ℕ = alu_result a w (m.regs r) (immediate8 w v) in through (set_reg r x (flagged x m))
  step (alu_imm32 a w r v) m =
      let x : ℕ = alu_result a w (m.regs r) (immediate32 w v) in through (set_reg r x (flagged x m))
  step (test_reg w r s) m = through (flagged (bit_and (cut w (m.regs r)) (cut w (m.regs s))) m)
  step (call_reg r) m = through (call (m.regs r) m)
  step (jump_if c d) m = stopped
  step (jump8 d) m = stopped
  step (jump32 d) m = stopped

  unfoldable pub execute : List Instruction → Processor → Run
  execute [] m = through m
  execute (i ∷ is) m = step i m >>= execute is

  pub execute-append :
      (xs ys : List Instruction) (m : Processor)
      → execute (xs ++ ys) m ≡ (execute xs m >>= execute ys)
  unfolding execute
  execute-append [] ys m = refl
  execute-append (x ∷ xs) ys m =
      ap (λ (k : Processor → Run). step x m >>= k) (fun_ext (execute-append xs ys))
      ∙ assoc (step x m) (execute xs) (execute ys)

  -- One listing after another, and one instruction before a listing.
  pub runs_append :
      (xs ys : List Instruction) (m m' : Processor) {r : Run}
      → execute xs m ≡ through m'
      → execute ys m' ≡ r
      → execute (xs ++ ys) m ≡ r
  runs_append xs ys m m' h k = execute-append xs ys m ∙ rw h k

  pub runs_cons :
      (i : Instruction) (is : List Instruction) (m m' : Processor) {r : Run}
      → step i m ≡ through m'
      → execute is m' ≡ r
      → execute (i ∷ is) m ≡ r
  unfolding execute
  runs_cons i is m m' h k = rw h k

  pub runs_nops : (n : ℕ) (m : Processor) → execute (replicate n nop) m ≡ through m
  unfolding execute step
  runs_nops zero m = refl
  runs_nops (suc n) m = runs_nops n m

pub save32_outside : (a v q : ℕ) (mem : Memory) → (q < a) ⊎ (a + 4 ≤ q) → save32 a v mem q ≡ mem q
unfolding save32
save32_outside a v q mem h = ground arith

pub fetch32_ext :
    (a : ℕ) (mem mem' : Memory)
    → ((q : ℕ) → a ≤ q → q < a + 4 → mem q ≡ mem' q)
    → fetch32 mem a ≡ fetch32 mem' a
unfolding fetch32
fetch32_ext a mem mem' h = omega (
  arith,
  h a (omega arith) (omega arith),
  h (a + 1) (omega arith) (omega arith),
  h (a + 2) (omega arith) (omega arith),
  h (a + 3) (omega arith) (omega arith),
)

-- What is stored is fetched, and a store elsewhere is not seen.
pub fetch32-save32 : (a v : ℕ) (mem : Memory) → fetch32 (save32 a v mem) a ≡ u32 v
unfolding fetch32 save32
fetch32-save32 a v mem = rw (b0, b1, b2, b3) (read_back32_lem v)
  where
    b0 : save32 a v mem a ≡ u8 v
    b0 = ground arith

    b1 : save32 a v mem (a + 1) ≡ u8 (v / 2 ^ 8)
    b1 = ground arith

    b2 : save32 a v mem (a + 2) ≡ u8 (v / 2 ^ 16)
    b2 = ground arith

    b3 : save32 a v mem (a + 3) ≡ u8 (v / 2 ^ 24)
    b3 = ground arith

-- Only the low 32 bits are stored.
pub save32-u32 : (a v : ℕ) (mem : Memory) → save32 a v mem ≡ save32 a (u32 v) mem
unfolding save32
save32-u32 a v mem = rw (b0, b1, b2, b3) refl
  where
    b0 : u8 v ≡ u8 (u32 v)
    b0 = omega arith

    b1 : u8 (v / 2 ^ 8) ≡ u8 (u32 v / 2 ^ 8)
    b1 = omega arith

    b2 : u8 (v / 2 ^ 16) ≡ u8 (u32 v / 2 ^ 16)
    b2 = omega arith

    b3 : u8 (v / 2 ^ 24) ≡ u8 (u32 v / 2 ^ 24)
    b3 = omega arith

pub save64_outside : (a v q : ℕ) (mem : Memory) → (q < a) ⊎ (a + 8 ≤ q) → save64 a v mem q ≡ mem q
unfolding save64
save64_outside a v q mem h =
    ground (arith, save32_outside (a + 4) (v / 2 ^ 32) q (save32 a v mem), save32_outside a v q mem)

pub fetch64_ext :
    (a : ℕ) (mem mem' : Memory)
    → ((q : ℕ) → a ≤ q → q < a + 8 → mem q ≡ mem' q)
    → fetch64 mem a ≡ fetch64 mem' a
unfolding fetch64
fetch64_ext a mem mem' h =
    ap₂ (λ (x y : ℕ). x + y * 2 ^ 32) (fetch32_ext a mem mem' λ q x y. h q x (omega arith))
      (fetch32_ext (a + 4) mem mem' λ q x y. h q (omega arith) (omega arith))

pub fetch64-save64 : (a v : ℕ) (mem : Memory) → fetch64 (save64 a v mem) a ≡ u64 v
unfolding fetch64 save64
fetch64-save64 a v mem = omega (arith, low, fetch32-save32 a v mem, high)
  where
    low : fetch32 (save32 (a + 4) (v / 2 ^ 32) (save32 a v mem)) a ≡ fetch32 (save32 a v mem) a
    low =
        fetch32_ext a (save32 (a + 4) (v / 2 ^ 32) (save32 a v mem)) (save32 a v mem)
          λ q x y. save32_outside (a + 4) (v / 2 ^ 32) q (save32 a v mem) (inl y)

    high : fetch32 (save32 (a + 4) (v / 2 ^ 32) (save32 a v mem)) (a + 4) ≡ u32 (v / 2 ^ 32)
    high = fetch32-save32 (a + 4) (v / 2 ^ 32) (save32 a v mem)
