-- ===== src/Semantic.antt =====
-- src/frontend/semantic.cpp: names, types, mutability, constants, returns and definite assignment.
pub mod Signatures
pub mod Types
pub mod Tables
pub mod State
pub mod Scopes
pub mod Elements
pub mod Merge
pub mod Constants
pub mod Operators
pub mod Calls
pub mod Expressions
pub mod Locals
pub mod Stores
pub mod Statements
pub mod Items
pub mod Reports
pub mod Bits
pub mod Folding
pub mod Reads
pub mod Fitting
pub mod Frame
pub mod Paths
pub mod Returns
pub mod Offsets
pub mod Numerals
