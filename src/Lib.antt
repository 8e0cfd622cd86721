-- ===== src/Lib.antt =====
-- Verification of the front end of nexc, the compiler of the nex language (C++; the files are
-- include/nexc/frontend/*.h and src/frontend/*.cpp).
--
-- The stages hand values to each other: a SourceFile holds the text, the Lexer turns it into
-- tokens that carry only a kind and a byte range, the Parser turns these into the syntax tree,
-- the SemanticAnalyzer checks the tree, and every stage reports to one DiagnosticBag, which is
-- printed against the SourceFile at the end. String literals keep their spelling; it is decoded,
-- and for the print functions split at its placeholders, where the meaning is wanted.
--
-- Files:
--   Prelude         shared tests, lists over the native numbers, byte strings
--   Source          source.h, source.cpp: SourceFile, slice, lineColumn
--   Diagnostic      diagnostic.h, diagnostic.cpp: DiagnosticBag, and in Render its printing, of which
--                   Position, Newlines and Caret say where the caret stands
--   Token           token.h, token.cpp: TokenKind, tokenKindName, keywordKind, dumpToken
--   Lexer           lexer.h, lexer.cpp: Cursor has the state and the cursor, Trivia
--                   skipWhitespaceAndComments, Literals the literals and identifiers, Scan lexToken
--                   and tokenize; Grammar is the lexical grammar without a cursor
--   Syntax          ast.h: the syntax tree; in Dump ast.cpp: Text has AstDumper, Dot AstDotDumper;
--                   below these Outline, Tree, Escape, Whole and Missing are about the views
--   Parser          parser.h, parser.cpp: Cursor has the state and the token cursor, Types parseType,
--                   Expressions, Statements and Items the other routines; Progress, TypesEnd,
--                   ExpressionsEnd, StatementsEnd, BlocksEnd and Termination are about how the routines move
--                   the cursor, Grouping is about operator precedence
--   Semantic        semantic.h, semantic.cpp: Types has the types and what is asked of them, Tables the
--                   maps and sets, State the state of AnalyzerImpl, the monad of its routines and
--                   lookupValue, Scopes scopes, locals and the checks of a read, Elements the masks of
--                   array elements, Merge the joins behind if and loops, Constants literals and
--                   analyzeConstantArithmetic, Operators analyzeUnaryExpr and analyzeBinaryExpr, Calls and
--                   Expressions analyzeExpr, analyzeCallExpr and analyzeFormatPrintCall, Locals, Stores
--                   and Statements analyzeStmt, Items collectItems, analyzeFunction and analyze; Bits
--                   and Folding are about constant arithmetic, Numerals about parseUnsignedInteger, Offsets
--                   about constIndicesToFlatOffset, Signatures about collectItems, Reports, Reads and Fitting about
--                   expressions, Frame about what statements leave as it is, Paths and Returns about
--                   how function bodies end
--   StringLiteral   string_literal_decode.h, string_literal_decode.cpp: Decode
--                   decodeStringLiteralContent, Format parseFormatString
--   Tests           runs at concrete inputs, some of them golden files of the repository
--
-- Conventions. A text is the list of its bytes. A member function takes the object and returns it
-- anew beside its result. A while loop is a recursion on fuel; where the fuel is what is left to
-- read, it cannot run out before the loop's own test fails, since each round reads at least one
-- byte. A function that could run out returns an Option, and a routine of the parser an Outcome.
-- The parser's fuel bounds the depth of its calls and the turns of its loops: at most eight calls
-- are open before a further token is read. Offsets are unbounded, except where the source subtracts
-- two of them and the difference could wrap. The parser's machine stack is not bounded.
-- The routines of the analyzer are functions of its state by structural recursion on the tree, with
-- no fuel; where a routine ends in a call or in parts, the parts are arguments of a rule that runs
-- them. Its maps and sets are lists without repetition of keys, and the innermost scope is first.
-- The code folds some unordered containers, where the model takes one order; the results do not
-- hold an order. Values of constants are natural numbers with the wrap-around of 64 bits written
-- out. A body or an arm that is missing stands in the tree only behind an error of the parser,
-- where the driver does not run the analyzer.
-- The dumps, which the driver runs behind errors too, have no outcome where they follow a null
-- pointer. The counter of the nodes of the DOT view is not bounded.
-- strtof and strtod are a parameter: how much of a text they read, whether they report a range
-- error, and whether the result is finite.
-- std::upper_bound, std::from_chars, std::stoull, find and rfind are modelled by what the standard says of them.
--
-- Not modelled: the IR, and the MLIR and LLVM text, which come after the stages above; the command
-- line driver, which is input and output, and the C runtime.
pub mod Prelude
pub mod Source
pub mod Diagnostic
pub mod Token
pub mod Lexer
pub mod StringLiteral
pub mod Syntax
pub mod Parser
pub mod Semantic
pub mod Tests
