-- ===== src/Tests.antt =====
-- Runs at concrete inputs, and the theorems at inputs that meet their hypotheses.
mod Lexing
mod Texts
mod Parsing
mod Checking
mod Dumping
