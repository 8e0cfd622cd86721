-- ===== src/Lexer.antt =====
-- include/nexc/frontend/lexer.h and src/frontend/lexer.cpp: bytes to tokens.
-- Cursor, Trivia, Literals and Scan model the code; Grammar describes the tokens without a cursor,
-- and the other modules compare the code with that description.
pub mod Cursor
pub mod Trivia
pub mod Literals
pub mod Scan
pub mod Grammar
pub mod Loops
pub mod TriviaSound
pub mod SymbolSound
pub mod LiteralSound
pub mod StringSound
pub mod Sound
