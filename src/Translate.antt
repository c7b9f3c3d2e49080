-- ===== src/Translate.antt =====
-- translate.c and translate.h: the translation of 680x0 to x86-64 code.
pub mod State
pub mod Operand
pub mod Encode
pub mod Setup
pub mod Handlers
pub mod Table
pub mod Unit
pub mod Listing
pub mod Registers
pub mod Fields
pub mod Register
pub mod Move
pub mod Moves
pub mod LibraryCall
pub mod Meaning
pub mod Simulation
pub mod Opcodes
pub mod Stub
pub mod Entering
pub mod Entries
pub mod Success
pub mod Branch
pub mod Links
pub mod Runs
pub mod Result
pub mod Steps
pub mod Correct
pub mod Program
pub mod Within
pub mod Branching
mod Tests
