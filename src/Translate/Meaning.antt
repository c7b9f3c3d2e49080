-- ===== src/Translate/Meaning.antt =====
-- What the 680x0 instructions of a translated unit mean, as the manual of the processor describes it, and
-- how a state of the x86 processor represents one of the 680x0: the specification of the translation. It
-- models no code of the repository. It departs from the manual where the source departs throughout: a long
-- word in the memory has its least significant byte first, MOVEA.L from address 4 reads `ABS_EXEC_BASE`,
-- and MOVE and MOVEQ leave the zero flag as it is. No other flag is in it.
use vadm.Base.{
  ℕ, ◌/◌, ◌%◌, ◌^◌, ◌<◌, ◌≡◌, refl, ap, ◌∙◌, arith, ◌==◌, Bool, true, false, List, [], ◌++◌,
  if◌then◌else◌, u32,
}
use vadm.Base.Bytes.{Memory, store}
use vadm.Base.Tables.{tabulate, tabulate_ext₂}
use vadm.X86.{Instruction}
use vadm.X86.Machine.{Processor, through, set_reg, zero_flag, with_zero_flag, execute, runs_append}
use vadm.Translate.Listing.{dreg, areg}

-- The data and address registers, with 32 bits each, and the bytes of the memory.
pub record M68k : Type 0 where
  pub d : ℕ → ℕ
  pub a : ℕ → ℕ
  pub mem : Memory

abbrev pub set_data : ℕ → ℕ → M68k → M68k
set_data n v r = record r { d = store n v r.d }

abbrev pub set_address : ℕ → ℕ → M68k → M68k
set_address n v r = record r { a = store n v r.a }

-- The zero flag stays as it is.
abbrev pub flag_kept : M68k → ℕ → ℕ
flag_kept r z = z

-- The number that SUBQ subtracts: its field of three bits, in which 0 stands for 8.
abbrev pub quick_value : ℕ → ℕ
quick_value field = if field == 0 then 8 else field

-- The zero flag tells whether the new value of the data register is 0.
abbrev pub tells_zero : (M68k → ℕ) → M68k → ℕ → ℕ
tells_zero value r z = if value r == 0 then 1 else 0

-- The low halves of R8 to R15 hold the data registers, and those of the others the address
-- registers, with A4 and A7 swapped. The memory is the same.
pub record Represents (cpu : Processor) (r : M68k) : Type 0 where
  pub data_registers : (n : ℕ) → n < 8 → u32 (cpu.regs (dreg n)) ≡ r.d n
  pub address_registers : (n : ℕ) → n < 8 → u32 (cpu.regs (areg n)) ≡ r.a n
  pub memory : cpu.mem ≡ r.mem

areg_below : (n : ℕ) → n < 8 → areg n < 8
areg_below n h = ground (arith, h)

areg_same : (n k : ℕ) → n < 8 → k < 8 → (areg n == areg k) ≡ (n == k)
unfolding tabulate
areg_same n k hn hk = tabulate_ext₂ 8 8 (λ n k. areg n == areg k) (λ n k. n == k) n k refl hn hk

u32_choice :
    (b : Bool) (v x y : ℕ) → u32 x ≡ y → u32 (if b then v else x) ≡ (if b then u32 v else y)
u32_choice true v x y h = refl
u32_choice false v x y h = h

module _ (cpu : Processor) (r : M68k) (n v : ℕ) (small : n < 8) (rep : Represents cpu r) where
  pub set_data-Represents : Represents (set_reg (dreg n) v cpu) (set_data n (u32 v) r)
  set_data-Represents = record {
    data_registers = λ k h. ground (arith, rep.data_registers k h);
    address_registers = λ k h. ground (arith, rep.address_registers k h, areg_below k h);
    memory = rep.memory;
  }

  pub set_address-Represents : Represents (set_reg (areg n) v cpu) (set_address n (u32 v) r)
  set_address-Represents = record {
    data_registers = λ k h. ground (arith, rep.data_registers k h, areg_below n small);
    address_registers = λ k h.
        rw (areg_same n k small h)
          (u32_choice (n == k) v (cpu.regs (areg k)) (r.a k) (rep.address_registers k h));
    memory = rep.memory;
  }

pub zero_flag-set :
    (flags : ℕ) (z : Bool) → with_zero_flag flags z / 2 ^ 6 % 2 ≡ (if z then 1 else 0)
zero_flag-set flags true = omega arith
zero_flag-set flags false = omega arith

module _ (call : ℕ → Processor → Processor) (flags_of : ℕ → Processor → ℕ) where
  -- From a state that represents one of the 680x0, the listing runs through to one that represents
  -- what the 680x0 makes of it; the zero flag becomes what the second function says.
  pub record Performed (listing : List Instruction) (meaning : M68k → M68k) (zero : M68k → ℕ → ℕ)
      (cpu : Processor) (r : M68k) : Type 0 where
    pub after : Processor
    pub runs : execute call flags_of listing cpu ≡ through after
    pub represents : Represents after (meaning r)
    pub flag : zero_flag after ≡ zero r (zero_flag cpu)

  abbrev pub Performs : List Instruction → (M68k → M68k) → (M68k → ℕ → ℕ) → Type 0
  Performs listing meaning zero =
      (cpu : Processor) (r : M68k) → Represents cpu r → Performed listing meaning zero cpu r

  pub Performs-nil : Performs [] (λ r. r) flag_kept
  unfolding execute
  Performs-nil cpu r rep = record { after = cpu; runs = refl; represents = rep; flag = refl }

  -- One listing behind another performs both, one after the other.
  pub Performs-append :
      (xs ys : List Instruction) (f g : M68k → M68k) (z z' : M68k → ℕ → ℕ)
      → Performs xs f z
      → Performs ys g z'
      → Performs (xs ++ ys) (λ r. g (f r)) (λ r b. z' (f r) (z r b))
  Performs-append xs ys f g z z' p q cpu r rep = record {
    after = second.after;
    runs = runs_append call flags_of xs ys cpu first.after first.runs second.runs;
    represents = second.represents;
    flag = second.flag ∙ ap (z' (f r)) first.flag;
  }
    where
      first : Performed xs f z cpu r
      first = p cpu r rep

      second : Performed ys g z' first.after (f r)
      second = q first.after (f r) first.represents
