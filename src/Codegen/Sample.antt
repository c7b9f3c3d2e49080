-- ===== src/Codegen/Sample.antt =====
-- A state of the processor and a called function that keeps to the calling convention, for the tests.
use vadm.Base.{ℕ, ◌^◌, ◌<◌, refl, arith, ◌==◌, if◌then◌else◌}
use vadm.X86.Machine.{Processor, set_reg}
use vadm.Codegen.Calls.{KeepsConvention}

-- The stack pointer is not on a 16-byte boundary.
abbrev pub cpu : Processor
cpu = record { regs = λ r. if r == 4 then 0x7ffe_0008 else 5; flags = 0x246; mem = λ q. 0 }

abbrev pub stack_top : ℕ
stack_top = 0x7fff_0000

-- Every function returns 7 in RAX, and does no more.
abbrev pub seven : ℕ → Processor → Processor
seven f m = set_reg 0 7 m

abbrev pub flags_set : ℕ → Processor → ℕ
flags_set v m = m.flags

pub seven-KeepsConvention : (f : ℕ) → KeepsConvention seven f stack_top
seven-KeepsConvention f = record {
  registers = λ m r aligned small no_change. ground (arith, no_change);
  frames = λ m q aligned above below. refl;
}

pub cpu_words : (q : ℕ) → cpu.regs q < 2 ^ 64
cpu_words q = ground arith
