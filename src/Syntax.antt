-- ===== src/Syntax.antt =====
-- include/nexc/frontend/ast.h: the syntax tree. A class hierarchy is a data type with a constructor
-- for each class; a `unique_ptr` that may be null is an Option, or its copy in the mutual block.
pub mod Dump
use nexc.Prelude.{ℕ, Bool, Option, List, Bytes}
use nexc.Source.{SourceSpan}
use nexc.Token.{TokenKind}

pub data BuiltinTypeKind : Type 0 where
  i8 i16 i32 i64 u8 u16 u32 u64 f32 f64 bool str void invalid : BuiltinTypeKind

pub record TypeSyntax : Type 0 where
  pub kind : BuiltinTypeKind
  pub array_dimensions : List ℕ
  pub pointer_depth : ℕ
  pub span : SourceSpan

pub record ParameterSyntax : Type 0 where
  pub name : Bytes
  pub name_span : SourceSpan
  pub type : TypeSyntax
  pub span : SourceSpan

mutual
  pub data Expr : Type 0 where
    integer_literal : SourceSpan → Bytes → Expr
    float_literal : SourceSpan → Bytes → Expr
    bool_literal : SourceSpan → Bool → Expr
    string_literal : SourceSpan → Bytes → Expr
    name : SourceSpan → Bytes → Expr
    call : SourceSpan → Expr → Exprs → Expr
    unary : SourceSpan → TokenKind → Expr → Expr
    binary : SourceSpan → Expr → TokenKind → Expr → Expr
    paren : SourceSpan → Expr → Expr
    array_literal : SourceSpan → Exprs → Expr
    index : SourceSpan → Expr → Expr → Expr

  pub data Exprs : Type 0 where
    no_exprs : Exprs
    and_expr : Expr → Exprs → Exprs

unfoldable pub expr_span : Expr → SourceSpan
expr_span (Expr.integer_literal s _) = s
expr_span (Expr.float_literal s _) = s
expr_span (bool_literal s _) = s
expr_span (Expr.string_literal s _) = s
expr_span (name s _) = s
expr_span (call s _ _) = s
expr_span (unary s _ _) = s
expr_span (binary s _ _ _) = s
expr_span (paren s _) = s
expr_span (array_literal s _) = s
expr_span (index s _ _) = s

mutual
  pub data Stmt : Type 0 where
    block : SourceSpan → Stmts → Stmt
    let_stmt : SourceSpan → Bool → Bytes → SourceSpan → TypeSyntax → Option Expr → Stmt
    assign : SourceSpan → Expr → Expr → Stmt
    return_stmt : SourceSpan → Option Expr → Stmt
    if_stmt : SourceSpan → Expr → MaybeStmt → MaybeStmt → Stmt
    while_stmt : SourceSpan → Expr → MaybeStmt → Stmt
    for_stmt : SourceSpan → MaybeStmt → Option Expr → MaybeStmt → MaybeStmt → Stmt
    call_stmt : SourceSpan → Expr → Stmt
    break_stmt : SourceSpan → Stmt
    continue_stmt : SourceSpan → Stmt

  pub data Stmts : Type 0 where
    no_stmts : Stmts
    and_stmt : Stmt → Stmts → Stmts

  pub data MaybeStmt : Type 0 where
    null : MaybeStmt
    present : Stmt → MaybeStmt

unfoldable pub stmt_span : Stmt → SourceSpan
stmt_span (block s _) = s
stmt_span (let_stmt s _ _ _ _ _) = s
stmt_span (assign s _ _) = s
stmt_span (return_stmt s _) = s
stmt_span (if_stmt s _ _ _) = s
stmt_span (while_stmt s _ _) = s
stmt_span (for_stmt s _ _ _ _) = s
stmt_span (call_stmt s _) = s
stmt_span (break_stmt s) = s
stmt_span (continue_stmt s) = s

pub data Item : Type 0 where
  function_decl : SourceSpan → Bytes → SourceSpan → List ParameterSyntax → TypeSyntax → Stmt → Item
  const_decl : SourceSpan → Bytes → SourceSpan → TypeSyntax → Expr → Item

pub record TranslationUnit : Type 0 where
  pub items : List Item
