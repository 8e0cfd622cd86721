-- ===== src/Token.antt =====
-- include/nexc/frontend/token.h and src/frontend/token.cpp: the kinds of token, their names, the
-- keywords, and the dump of a token.
pub mod Keywords
pub mod Names
use nexc.Prelude.{ℕ, Bool, ◌||◌, ◌++◌, String, Bytes, codes, same, ◌==◌, if◌then◌else◌}
use nexc.Diagnostic.Render.{decimal, decimal_onto}
use nexc.Source.{SourceSpan, SourceFile, slice}

pub data TokenKind : Type 0 where
  end_of_file identifier integer_literal float_literal string_literal kw_bool kw_break : TokenKind
  kw_const kw_continue kw_else kw_false kw_for kw_fn kw_if kw_let kw_mut kw_return : TokenKind
  kw_true kw_void kw_while plus minus star slash percent bang tilde equal equal_equal : TokenKind
  bang_equal less less_equal less_less greater greater_equal greater_greater amp amp_amp : TokenKind
  pipe pipe_pipe caret arrow left_paren right_paren left_bracket right_bracket left_brace :
      TokenKind
  right_brace comma semicolon colon : TokenKind

-- The value of the enumerator, which `==` compares.
unfoldable pub ordinal : TokenKind → ℕ
ordinal end_of_file = 0
ordinal identifier = 1
ordinal integer_literal = 2
ordinal float_literal = 3
ordinal string_literal = 4
ordinal kw_bool = 5
ordinal kw_break = 6
ordinal kw_const = 7
ordinal kw_continue = 8
ordinal kw_else = 9
ordinal kw_false = 10
ordinal kw_for = 11
ordinal kw_fn = 12
ordinal kw_if = 13
ordinal kw_let = 14
ordinal kw_mut = 15
ordinal kw_return = 16
ordinal kw_true = 17
ordinal kw_void = 18
ordinal kw_while = 19
ordinal plus = 20
ordinal minus = 21
ordinal star = 22
ordinal slash = 23
ordinal percent = 24
ordinal bang = 25
ordinal tilde = 26
ordinal equal = 27
ordinal equal_equal = 28
ordinal bang_equal = 29
ordinal less = 30
ordinal less_equal = 31
ordinal less_less = 32
ordinal greater = 33
ordinal greater_equal = 34
ordinal greater_greater = 35
ordinal amp = 36
ordinal amp_amp = 37
ordinal pipe = 38
ordinal pipe_pipe = 39
ordinal caret = 40
ordinal arrow = 41
ordinal left_paren = 42
ordinal right_paren = 43
ordinal left_bracket = 44
ordinal right_bracket = 45
ordinal left_brace = 46
ordinal right_brace = 47
ordinal comma = 48
ordinal semicolon = 49
ordinal colon = 50

abbrev pub is_kind : TokenKind → TokenKind → Bool
is_kind a b = ordinal a == ordinal b

pub record Token : Type 0 where
  pub kind : TokenKind
  pub span : SourceSpan

unfoldable pub token_kind_name : TokenKind → String
token_kind_name end_of_file = "EndOfFile"
token_kind_name identifier = "Identifier"
token_kind_name integer_literal = "IntegerLiteral"
token_kind_name float_literal = "FloatLiteral"
token_kind_name string_literal = "StringLiteral"
token_kind_name kw_bool = "KwBool"
token_kind_name kw_break = "KwBreak"
token_kind_name kw_const = "KwConst"
token_kind_name kw_continue = "KwContinue"
token_kind_name kw_else = "KwElse"
token_kind_name kw_false = "KwFalse"
token_kind_name kw_for = "KwFor"
token_kind_name kw_fn = "KwFn"
token_kind_name kw_if = "KwIf"
token_kind_name kw_let = "KwLet"
token_kind_name kw_mut = "KwMut"
token_kind_name kw_return = "KwReturn"
token_kind_name kw_true = "KwTrue"
token_kind_name kw_void = "KwVoid"
token_kind_name kw_while = "KwWhile"
token_kind_name plus = "Plus"
token_kind_name minus = "Minus"
token_kind_name star = "Star"
token_kind_name slash = "Slash"
token_kind_name percent = "Percent"
token_kind_name bang = "Bang"
token_kind_name tilde = "Tilde"
token_kind_name equal = "Equal"
token_kind_name equal_equal = "EqualEqual"
token_kind_name bang_equal = "BangEqual"
token_kind_name less = "Less"
token_kind_name less_equal = "LessEqual"
token_kind_name less_less = "LessLess"
token_kind_name greater = "Greater"
token_kind_name greater_equal = "GreaterEqual"
token_kind_name greater_greater = "GreaterGreater"
token_kind_name amp = "Amp"
token_kind_name amp_amp = "AmpAmp"
token_kind_name pipe = "Pipe"
token_kind_name pipe_pipe = "PipePipe"
token_kind_name caret = "Caret"
token_kind_name arrow = "Arrow"
token_kind_name left_paren = "LeftParen"
token_kind_name right_paren = "RightParen"
token_kind_name left_bracket = "LeftBracket"
token_kind_name right_bracket = "RightBracket"
token_kind_name left_brace = "LeftBrace"
token_kind_name right_brace = "RightBrace"
token_kind_name comma = "Comma"
token_kind_name semicolon = "Semicolon"
token_kind_name colon = "Colon"

unfoldable pub keyword_kind : Bytes → TokenKind
unfolding same
keyword_kind text =
    if same text (codes "bool")
    then kw_bool
    else if same text (codes "break")
    then kw_break
    else if same text (codes "const")
    then kw_const
    else if same text (codes "continue")
    then kw_continue
    else if same text (codes "else")
    then kw_else
    else if same text (codes "false")
    then kw_false
    else if same text (codes "for")
    then kw_for
    else if same text (codes "fn")
    then kw_fn
    else if same text (codes "if")
    then kw_if
    else if same text (codes "let")
    then kw_let
    else if same text (codes "mut")
    then kw_mut
    else if same text (codes "return")
    then kw_return
    else if same text (codes "true")
    then kw_true
    else if same text (codes "void")
    then kw_void
    else if same text (codes "while")
    then kw_while
    else identifier

unfoldable pub dump_token : SourceFile → Token → Bytes
unfolding token_kind_name ordinal slice decimal_onto
dump_token source token =
    codes (token_kind_name token.kind)
    ++ (codes " ["
        ++ (decimal token.span.start
            ++ (codes ", "
                ++ (decimal token.span.end
                    ++ (codes ")"
                        ++ ((if is_kind token.kind identifier
                                || is_kind token.kind integer_literal
                                || is_kind token.kind float_literal
                                || is_kind token.kind string_literal
                              then codes " `" ++ (slice source token.span ++ codes "`")
                              else codes "")
                            ++ codes "\n"))))))
