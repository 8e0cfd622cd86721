-- ===== src/StringLiteral.antt =====
-- include/nexc/frontend/string_literal_decode.h and src/frontend/string_literal_decode.cpp: the
-- bytes that a string literal stands for, and the placeholders of a format string.
pub mod Decode
pub mod Format
pub mod FormatShape
pub mod RoundTrip
pub mod Lexed
