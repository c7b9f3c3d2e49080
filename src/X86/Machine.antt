-- ===== src/X86/Machine.antt =====
-- What the x86-64 instructions of the generated code do when they are executed, as the manuals describe
-- it: the registers, the flags and the memory of the process. It models no code of the repository. A
-- called function is a parameter, which gives the state behind its return.
mod Step
mod Stack
unfoldable pub use Step.*
unfoldable pub use Stack.*
