-- ===== src/Syntax/Dump/Text/Outline.antt =====
-- The indentation of the text view.
use nexc.Prelude.{
  ℕ, ◌+◌, ◌-◌, ◌≤◌, ◌≡◌, refl, sym, ap, ◌∙◌, Option, none, some, List, [], ◌∷◌, ◌++◌, append_assoc,
  append-nil, Bytes, String, codes, arith,
}
use nexc.Syntax.Dump.{◌then◌, nothing}
use nexc.Syntax.Dump.Text.{TextLine, AstDumper, Printing, line, indented, header}

-- Lines of at least the indentation `low`: the first has at most `high`, and each other is at most
-- one level deeper than the line before it.
pub data Outline (low : ℕ) : ℕ → List TextLine → Type 0 where
  no_line : {high : ℕ} → Outline low high []
  next_line :
      {high : ℕ} (l : TextLine) {ls : List TextLine}
      → low ≤ l.indent
      → l.indent ≤ high
      → Outline low (l.indent + 2) ls
      → Outline low high (l ∷ ls)

Outline-widen :
    {low low' high high' : ℕ} {ls : List TextLine}
    → low' ≤ low
    → high ≤ high'
    → Outline low high ls
    → Outline low' high' ls
Outline-widen h k no_line = no_line
Outline-widen h k (next_line l a b rest) =
    next_line l (omega arith) (omega arith) (Outline-widen h (omega arith) rest)

Outline-append :
    {low high : ℕ} {xs ys : List TextLine}
    → low ≤ high
    → Outline low high xs
    → Outline low low ys
    → Outline low high (xs ++ ys)
Outline-append h no_line o = Outline-widen (omega arith) h o
Outline-append h (next_line l a b rest) o = next_line l a b (Outline-append (omega arith) rest o)

-- What is printed stands behind the lines so far, is an outline whose first line is deeper by
-- `more` at most, and leaves the indentation as it was.
pub data Printed (more : ℕ) (d : AstDumper) : Option AstDumper → Type 0 where
  printed :
      {d' : AstDumper} (ls : List TextLine)
      → d'.out ≡ d.out ++ ls
      → d'.indent ≡ d.indent
      → Outline d.indent (d.indent + more) ls
      → Printed more d (some d')

pub record Prints (more : ℕ) (p : Printing) : Type 0 where
  pub prints : (d : AstDumper) → Printed more d (p d)

pub line-Prints : (text : Bytes) → Prints 0 (line text)
unfolding line
line-Prints text = record {
  prints = λ d.
      printed (record { indent = d.indent; text = text } ∷ []) refl refl
        (next_line _ (omega arith) (omega arith) no_line);
}

pub nothing-Prints : (more : ℕ) → Prints more nothing
unfolding nothing
nothing-Prints more = record { prints = λ d. printed [] (sym (append-nil d.out)) refl no_line }

deeper-Printed :
    (d : AstDumper) {o : Option AstDumper}
    → Printed 0 (record { out = d.out; indent = d.indent + 2 }) o
    → Printed 2 d
        (elim o [ none ↦ none | some d' ↦ some (record { out = d'.out; indent = d'.indent - 2 }) ])
deeper-Printed d (printed ls same back outline) =
    printed ls same (omega arith) (Outline-widen (omega arith) (omega arith) outline)

pub indented-Prints : {p : Printing} → Prints 0 p → Prints 2 (indented p)
unfolding indented
indented-Prints p = record { prints = λ d. deeper-Printed d (p.prints _) }

after-Printed :
    (d d' : AstDumper) (ls : List TextLine) {o : Option AstDumper}
    → d'.out ≡ d.out ++ ls
    → d'.indent ≡ d.indent
    → Outline d.indent (d.indent + 0) ls
    → Printed 0 d' o
    → Printed 0 d o
after-Printed d d' ls same back outline (printed more same' back' outline') =
    printed (ls ++ more) (same' ∙ ap (λ x. x ++ more) same ∙ append_assoc d.out ls more)
      (back' ∙ back)
      (Outline-append (omega arith) outline (Outline-widen (omega arith) (omega arith) outline'))

then-Printed :
    (d : AstDumper) {o : Option AstDumper} {k : Printing}
    → Printed 0 d o
    → Prints 0 k
    → Printed 0 d (elim o [ none ↦ none | some d' ↦ k d' ])
then-Printed d (printed {d'} ls same back outline) k =
    after-Printed d d' ls same back outline (k.prints d')

pub then-Prints : {f k : Printing} → Prints 0 f → Prints 0 k → Prints 0 (f then k)
unfolding ◌then◌
then-Prints f k = record { prints = λ d. then-Printed d (f.prints d) k }

titled-Printed :
    (text : Bytes) (d : AstDumper) {o : Option AstDumper}
    → Printed 2
        (record {
          out = d.out ++ (record { indent = d.indent; text = text } ∷ []);
          indent = d.indent;
        })
        o
    → Printed 0 d o
titled-Printed text d (printed ls same back outline) =
    printed (record { indent = d.indent; text = text } ∷ ls)
      (same ∙ append_assoc d.out (record { indent = d.indent; text = text } ∷ []) ls) back
      (next_line _ (omega arith) (omega arith) outline)

pub titled-Prints : (text : Bytes) {p : Printing} → Prints 2 p → Prints 0 (line text then p)
unfolding ◌then◌ line
titled-Prints text p = record { prints = λ d. titled-Printed text d (p.prints _) }

pub header-Prints : (text : String) {p : Printing} → Prints 0 p → Prints 0 (header text p)
unfolding header
header-Prints text p = titled-Prints (codes text) (indented-Prints p)
