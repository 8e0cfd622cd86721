-- ===== src/StringLiteral/FormatShape.antt =====
-- What `parseFormatString` returns when it succeeds.
use nexc.Prelude.{
  ℕ, zero, suc, ◌+◌, ◌-◌, ◌≤◌, ◌<◌, not, Option, none, some, List, [], ◌∷◌, ◌++◌, String, ◌≡◌, ◌≢◌,
  refl, length, Bytes, drop, get_or, leb, ltb, ◌==◌, if_both, arith, subst, length-append,
}
use nexc.Source.{substr}
use nexc.StringLiteral.Format.{
  HoleKind, plain, float_fixed, FormatHole, FormatParts, Parsed, parsed, invalid, Attempt, hole,
  other, error, skip_digits, digits_end, brace_cursor, opens_precision, closes, opens_base,
  precision_hole, try_precision, base_kind, base_hole, try_base, or_else, attempt_at, format_loop,
  parse_format_string,
}

-- A hole has a precision exactly if it is of the fixed form, and then one of at most 18.
abbrev pub IsHole : FormatHole → Type 0
IsHole h = elim h.precision [
  | none ↦ h.kind ≢ float_fixed
  | some n ↦ (h.kind ≡ float_fixed) × (n ≤ 18)
]

abbrev pub AllHoles : List FormatHole → Type 0
AllHoles [] = Unit
AllHoles (h ∷ hs) = IsHole h × AllHoles hs

-- An attempt at `i` gives a well-formed hole that ends further on, or none.
data IsAttempt (i : ℕ) : Attempt → Type 0 where
  good : {h : FormatHole} {next : ℕ} → IsHole h → i < next → IsAttempt i (hole h next)
  nothing : IsAttempt i other
  bad : {message : String} → IsAttempt i (error message)

AllHoles-append :
    (hs : List FormatHole) (h : FormatHole) → AllHoles hs → IsHole h → AllHoles (hs ++ h ∷ [])
AllHoles-append [] h a p = (p, tt)
AllHoles-append (g ∷ hs) h a p = (a.0, AllHoles-append hs h a.1 p)

precision_hole-IsAttempt :
    (text : Bytes) (i : ℕ) (o : Option ℕ) (cursor : ℕ)
    → i ≤ cursor
    → IsAttempt i (precision_hole o cursor)
unfolding precision_hole
precision_hole-IsAttempt text i none cursor h = bad
precision_hole-IsAttempt text i (some n) cursor h =
    if_both (IsAttempt i) (ltb 18 n) (λ e. bad) λ e. good (refl, ground arith) (omega arith)

le-skip_digits : (fuel : ℕ) (text : Bytes) (cursor : ℕ) → cursor ≤ skip_digits fuel text cursor
unfolding skip_digits
le-skip_digits zero text cursor = omega arith
le-skip_digits (suc fuel) text cursor = ground (arith, le-skip_digits fuel text (cursor + 1))

le-brace_cursor : (text : Bytes) (i : ℕ) → i ≤ brace_cursor text i
unfolding brace_cursor digits_end
le-brace_cursor text i = ground (arith, le-skip_digits (length text) text (i + 3))

try_precision-IsAttempt : (text : Bytes) (i : ℕ) → IsAttempt i (try_precision text i)
unfolding try_precision
try_precision-IsAttempt text i =
    let cursor = brace_cursor text i in
    if_both (IsAttempt i) (opens_precision text i)
      (λ _.
        if_both (IsAttempt i) (digits_end text i == i + 3) (λ _. bad)
          λ _.
            if_both (IsAttempt i) (closes text cursor)
              (λ _. precision_hole-IsAttempt text i _ cursor (le-brace_cursor text i)) λ _. nothing)
      λ _. nothing

base_hole-IsAttempt :
    (text : Bytes) (k : HoleKind) (i : ℕ) → k ≢ float_fixed → IsAttempt i (base_hole k i)
base_hole-IsAttempt text plain i ne = nothing
base_hole-IsAttempt text _ i ne = good ne (omega arith)

base_kind-ne-float_fixed : (c : ℕ) → base_kind c ≢ float_fixed
unfolding base_kind
base_kind-ne-float_fixed c e = ground arith

try_base-IsAttempt : (text : Bytes) (i : ℕ) → IsAttempt i (try_base text i)
unfolding try_base
try_base-IsAttempt text i =
    if_both (IsAttempt i) (opens_base text i)
      (λ _.
        base_hole-IsAttempt text (base_kind (get_or text (i + 2) 0)) i
          (base_kind-ne-float_fixed (get_or text (i + 2) 0)))
      λ _. nothing

or_else-IsAttempt :
    (text : Bytes) (i : ℕ) (a b : Attempt)
    → IsAttempt i a
    → IsAttempt i b
    → IsAttempt i (or_else a b)
or_else-IsAttempt text i (hole h next) b p q = p
or_else-IsAttempt text i other b p q = q
or_else-IsAttempt text i (error message) b p q = p

attempt_at-IsAttempt : (text : Bytes) (i : ℕ) → IsAttempt i (attempt_at text i)
unfolding attempt_at
attempt_at-IsAttempt text i =
    if_both (IsAttempt i) (closes text (i + 1)) (λ _. good (λ e. cc) (omega arith))
      λ _.
        or_else-IsAttempt text i (try_precision text i) _ (try_precision-IsAttempt text i)
          (or_else-IsAttempt text i (try_base text i) _ (try_base-IsAttempt text i) bad)

abbrev pub IsBalanced : FormatParts → Type 0
IsBalanced parts = (length parts.literals ≡ length parts.holes) × AllHoles parts.holes

abbrev IsShaped : Parsed → Type 0
IsShaped (parsed parts) = (length parts.literals ≡ length parts.holes + 1) × AllHoles parts.holes
IsShaped (invalid message) = Unit

finish-IsShaped :
    (parts : FormatParts) (rest : Bytes)
    → IsBalanced parts
    → IsShaped (parsed (record parts { literals = parts.literals ++ rest ∷ [] }))
finish-IsShaped parts rest (same, all) =
    (omega (arith, length-append parts.literals (rest ∷ [])), all)

-- The two ways to go on from a brace.
at_brace-IsShaped :
    (text : Bytes) (i start : ℕ) (parts : FormatParts) (go : ℕ → FormatParts → Parsed)
    (further : Parsed) (a : Attempt)
    → IsAttempt i a
    → IsBalanced parts
    → ((next : ℕ) (p : FormatParts) → IsBalanced p → IsShaped (go next p))
    → IsShaped further
    → IsShaped (elim a [
      | hole h next ↦ go next (record {
        literals = parts.literals ++ substr text start (i - start) ∷ [];
        holes = parts.holes ++ h ∷ [];
      })
      | other ↦ further
      | error message ↦ invalid message
    ])
at_brace-IsShaped text i start parts go further (hole h next) (good a _) (same, all) ih rest =
    ih next _ (
      omega (
        arith,
        length-append parts.literals (substr text start (i - start) ∷ []),
        length-append parts.holes (h ∷ []),
      ),
      AllHoles-append parts.holes h all a,
    )
at_brace-IsShaped text i start parts go further other a b ih rest = rest
at_brace-IsShaped text i start parts go further (error message) a b ih rest = tt

format_loop-IsShaped :
    (fuel : ℕ) (text : Bytes) (start i : ℕ) (parts : FormatParts)
    → IsBalanced parts
    → IsShaped (format_loop fuel text start i parts)
unfolding format_loop
format_loop-IsShaped zero text start i parts b = finish-IsShaped parts (drop start text) b
format_loop-IsShaped (suc fuel) text start i parts b =
    let further = format_loop-IsShaped fuel text start (i + 1) parts b in
    if_both IsShaped (leb (length text) i) (λ _. finish-IsShaped parts (drop start text) b)
      λ _.
        if_both IsShaped (not (get_or text i 0 == b'{')) (λ _. further)
          λ _.
            at_brace-IsShaped text i start parts (λ next p. format_loop fuel text next next p) _
              (attempt_at text i) (attempt_at-IsAttempt text i) b
              (λ next p. format_loop-IsShaped fuel text next next p) further

-- A format string that is accepted has one literal more than it has holes, and its holes are well
-- formed: a precision stands in those of the fixed form and in no other, and is at most 18.
pub parse_format_string-IsShaped :
    (text : Bytes) {parts : FormatParts}
    → parse_format_string text ≡ parsed parts
    → (length parts.literals ≡ length parts.holes + 1) × AllHoles parts.holes
unfolding parse_format_string
parse_format_string-IsShaped text e =
    subst IsShaped e (
      format_loop-IsShaped (length text) text 0 0 (record { literals = []; holes = [] }) (refl, tt))
