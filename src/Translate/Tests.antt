-- ===== src/Translate/Tests.antt =====
-- The translator at concrete programs.
mod Programs
mod Instructions
mod Units
mod Execution
mod Loop
