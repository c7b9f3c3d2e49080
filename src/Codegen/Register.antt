-- ===== src/Codegen/Register.antt =====
-- codegen.h: the register numbers of enum m68k_registers and enum x86_64_registers (the 32-bit
-- enumeration has the same numbers), and the register tables of codegen.c.
use vadm.Base.{ℕ, List, [], ◌∷◌}

-- enum m68k_registers: D0..D7 are 0..7 and A0..A7 are 8..15.
abbrev pub d0 : ℕ
d0 = 0

abbrev pub d1 : ℕ
d1 = 1

abbrev pub d2 : ℕ
d2 = 2

abbrev pub d3 : ℕ
d3 = 3

abbrev pub a0 : ℕ
a0 = 8

abbrev pub a1 : ℕ
a1 = 9

abbrev pub a2 : ℕ
a2 = 10

abbrev pub a4 : ℕ
a4 = 12

abbrev pub a6 : ℕ
a6 = 14

-- enum x86_64_registers: R8..R15 are 0..7.
abbrev pub rax : ℕ
rax = 8

abbrev pub rcx : ℕ
rcx = 9

abbrev pub rdx : ℕ
rdx = 10

abbrev pub rbx : ℕ
rbx = 11

abbrev pub rsp : ℕ
rsp = 12

abbrev pub rbp : ℕ
rbp = 13

abbrev pub rsi : ℕ
rsi = 14

abbrev pub rdi : ℕ
rdi = 15

-- The registers that AmigaOS preserves and that the program has to save itself.
abbrev pub amigaos_regs_to_preserve : List ℕ
amigaos_regs_to_preserve = d2 ∷ d3 ∷ a2 ∷ a4 ∷ a6 ∷ []

-- The 680x0 register numbers' x86 registers; A4 and A7 are swapped, so that A7 is the stack pointer.
abbrev pub x86_reg_for_m68k_reg : List ℕ
x86_reg_for_m68k_reg =
    0 ∷ 1 ∷ 2 ∷ 3 ∷ 4 ∷ 5 ∷ 6 ∷ 7 ∷ rax ∷ rcx ∷ rdx ∷ rbx ∷ rdi ∷ rbp ∷ rsi ∷ rsp ∷ []

-- The registers for the arguments of functions in the x86-64 ABI.
abbrev pub x86_regs_for_func_args : List ℕ
x86_regs_for_func_args = rdi ∷ rsi ∷ rdx ∷ rcx ∷ 0 ∷ 1 ∷ []
