-- ===== src/Lexer/Trivia.antt =====
-- `Lexer::skipWhitespaceAndComments`.
use nexc.Prelude.{ℕ, zero, suc, Bool, not, ◌&&◌, ◌||◌, ◌==◌, if◌then◌else◌}
use nexc.Lexer.Cursor.{
  Lexer, is_at_end, peek, skip, error_from, remaining, advance_while, advance_over,
}

pub data Round : Type 0 where
  again : Lexer → Round
  finished : Lexer → Round

abbrev pub is_blank : ℕ → Bool
is_blank c = c == b' ' || c == b'\t' || c == b'\n' || c == b'\r'

abbrev pub not_newline : ℕ → Bool
not_newline c = not (c == b'\n')

abbrev pub not_closing : Lexer → Bool
not_closing l = not (peek l 0 == b'*' && peek l 1 == b'/')

unfoldable pub skip_block_comment : Lexer → Round
unfolding advance_while
skip_block_comment l =
    let opened = skip (skip l) in
    let closed = advance_while not_closing (remaining opened) opened in
    if is_at_end closed
    then finished (error_from closed l.current "unterminated block comment")
    else again (skip (skip closed))

-- One round of the loop.
unfoldable pub trivia_round : Lexer → Round
unfolding skip_block_comment advance_while
trivia_round l =
    if is_at_end l
    then finished l
    else if is_blank (peek l 0)
    then again (skip l)
    else if peek l 0 == b'/' && peek l 1 == b'/'
    then again (advance_over not_newline l)
    else if peek l 0 == b'/' && peek l 1 == b'*'
    then skip_block_comment l
    else finished l

unfoldable pub trivia_loop : ℕ → Lexer → Lexer
unfolding trivia_round
trivia_loop zero l = l
trivia_loop (suc fuel) l = elim (trivia_round l) [
  | again l' ↦ trivia_loop fuel l'
  | finished l' ↦ l'
]

-- Every round but the last reads a byte, so what is left to read is fuel enough.
unfoldable pub skip_whitespace_and_comments : Lexer → Lexer
unfolding trivia_loop
skip_whitespace_and_comments l = trivia_loop (remaining l) l
