-- ===== src/Syntax/Dump/Missing.antt =====
-- The dumps of a file of which a part is missing.
use nexc.Prelude.{◌≡◌, false, none}
use nexc.Syntax.{TranslationUnit}
use nexc.Syntax.Dump.{are_whole_items}
use nexc.Syntax.Dump.Fails.{stops}
use nexc.Syntax.Dump.Text.{print_unit, dump_ast}
use nexc.Syntax.Dump.Dot.{dump_unit, dump_ast_dot}
use nexc.Syntax.Dump.Text.Missing as TextMissing
use nexc.Syntax.Dump.Dot.Missing as DotMissing

-- Of a file of which a part is missing neither view has an outcome: the dump follows the null
-- pointer.
pub dumps-missing :
    (unit : TranslationUnit)
    → are_whole_items unit.items ≡ false
    → (dump_ast unit ≡ none) × (dump_ast_dot unit ≡ none)
unfolding dump_ast print_unit dump_ast_dot dump_unit
dumps-missing unit h = (
  stops _
      ((TextMissing.header-Fails "TranslationUnit" (TextMissing.items-Fails unit.items h)).fails _),
  stops _ ((DotMissing.parent-Fails _ (λ root. DotMissing.items-Fails root unit.items h)).fails _),
)
