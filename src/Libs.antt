-- ===== src/Libs.antt =====
-- libs/: the tables of the library functions, and the opening of a library.
pub mod Dos
pub mod Exec
pub mod Tables
pub mod Signatures
pub mod Open
pub mod Start
mod Tests
