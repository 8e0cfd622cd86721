-- ===== src/Parser.antt =====
-- include/nexc/frontend/parser.h and src/frontend/parser.cpp: tokens to the syntax tree, by
-- recursive descent.
pub mod Cursor
pub mod Types
pub mod Expressions
pub mod Statements
pub mod Items
pub mod Progress
pub mod ExpressionsEnd
pub mod TypesEnd
pub mod StatementsEnd
pub mod BlocksEnd
pub mod Termination
pub mod Grouping
