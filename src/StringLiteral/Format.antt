-- ===== src/StringLiteral/Format.antt =====
-- `parseFormatString` and `splitFormatString`.
use nexc.Prelude.{
  ℕ, zero, suc, ◌+◌, ◌-◌, ◌*◌, ◌^◌, Bool, not, ◌&&◌, Option, none, some, List, [], ◌∷◌, ◌++◌,
  String, length, get_or, drop, Bytes, ltb, leb, ◌==◌, if◌then◌else◌,
}
use nexc.Source.{substr}

pub data HoleKind : Type 0 where
  plain float_fixed hex_lower hex_upper binary : HoleKind

pub record FormatHole : Type 0 where
  pub kind : HoleKind
  pub precision : Option ℕ

pub record FormatParts : Type 0 where
  pub literals : List Bytes
  pub holes : List FormatHole

-- `true` with the parts, or `false` with the message; the parts are then reset.
pub data Parsed : Type 0 where
  parsed : FormatParts → Parsed
  invalid : String → Parsed

abbrev pub is_digit : ℕ → Bool
is_digit c = leb b'0' c && leb c b'9'

-- `while (cursor < decoded.size() && digit) ++cursor;`
unfoldable pub skip_digits : ℕ → Bytes → ℕ → ℕ
skip_digits zero text cursor = cursor
skip_digits (suc fuel) text cursor =
    let rest = skip_digits fuel text (cursor + 1) in
    if ltb cursor (length text) && is_digit (get_or text cursor 0) then rest else cursor

-- The value of a run of digits, as `std::from_chars` reads it.
unfoldable pub digits_value : ℕ → Bytes → ℕ
digits_value acc [] = acc
digits_value acc (c ∷ cs) = digits_value (acc * 10 + (c - b'0')) cs

-- `std::from_chars` into an `unsigned` over digits only: `none` is `result_out_of_range`.
unfoldable pub from_chars : Bytes → Option ℕ
unfolding digits_value
from_chars text = let value = digits_value 0 text in if ltb value (2 ^ 32) then some value else none

-- What one pass of the loop body does at a `{`: a hole that ends in front of `next`, no hole of the
-- form that is tried, or an error.
pub data Attempt : Type 0 where
  hole : FormatHole → ℕ → Attempt
  other : Attempt
  error : String → Attempt

-- `{:.N}` and `{:.Nf}`, with the brace at `i`.
unfoldable pub precision_hole : Option ℕ → ℕ → Attempt
precision_hole none cursor =
    error "invalid format string: float precision must be an integer from 0 to 18"
precision_hole (some precision) cursor =
    if ltb 18 precision
    then error "invalid format string: float precision must be an integer from 0 to 18"
    else hole (record { kind = float_fixed; precision = some precision }) (cursor + 1)

-- Where the digits of a precision end, for the brace at `i`.
unfoldable pub digits_end : Bytes → ℕ → ℕ
digits_end text i = skip_digits (length text) text (i + 3)

-- The cursor behind the digits and an optional `f`.
unfoldable pub brace_cursor : Bytes → ℕ → ℕ
brace_cursor text i =
    let cursor = digits_end text i in
    if ltb cursor (length text) && get_or text cursor 0 == b'f' then cursor + 1 else cursor

abbrev pub opens_precision : Bytes → ℕ → Bool
opens_precision text i =
    ltb (i + 3) (length text) && get_or text (i + 1) 0 == b':' && get_or text (i + 2) 0 == b'.'

abbrev pub closes : Bytes → ℕ → Bool
closes text cursor = ltb cursor (length text) && get_or text cursor 0 == b'}'

unfoldable pub try_precision : Bytes → ℕ → Attempt
try_precision text i =
    let cursor = brace_cursor text i in
    let end = if get_or text (cursor - 1) 0 == b'f' then cursor - 1 else cursor in
    if opens_precision text i
    then (if digits_end text i == i + 3
        then error "invalid format string: expected precision digits after `{:.`"
        else if closes text cursor
        then precision_hole (from_chars (substr text (i + 3) (end - (i + 3)))) cursor
        else other)
    else other

unfoldable pub base_kind : ℕ → HoleKind
base_kind c =
    if c == b'x'
    then hex_lower
    else if c == b'X'
    then hex_upper
    else if c == b'b'
    then binary
    else plain

abbrev pub base_hole : HoleKind → ℕ → Attempt
base_hole plain i = other
base_hole kind i = hole (record { kind = kind; precision = none }) (i + 4)

-- `{:x}`, `{:X}` and `{:b}`.
abbrev pub opens_base : Bytes → ℕ → Bool
opens_base text i =
    ltb (i + 3) (length text) && get_or text (i + 1) 0 == b':' && get_or text (i + 3) 0 == b'}'

unfoldable pub try_base : Bytes → ℕ → Attempt
try_base text i =
    if opens_base text i then base_hole (base_kind (get_or text (i + 2) 0)) i else other

abbrev pub or_else : Attempt → Attempt → Attempt
or_else other rest = rest
or_else attempt rest = attempt

unfoldable pub attempt_at : Bytes → ℕ → Attempt
attempt_at text i =
    if closes text (i + 1)
    then hole (record { kind = plain; precision = none }) (i + 2)
    else or_else (try_precision text i) (
        or_else (try_base text i) (
          error
            "invalid format string: expected `{}`, `{:.N}`, `{:.Nf}`, `{:x}`, `{:X}`, or `{:b}` placeholder"))

-- The loop at index `i`; the literal in front of the next hole begins at `start`.
unfoldable pub format_loop : ℕ → Bytes → ℕ → ℕ → FormatParts → Parsed
format_loop zero text start i parts =
    parsed (record parts { literals = parts.literals ++ drop start text ∷ [] })
format_loop (suc fuel) text start i parts =
    let further = format_loop fuel text start (i + 1) parts in
    let at_brace : Parsed = elim (attempt_at text i) [
      | hole h next ↦ format_loop fuel text next next (record {
        literals = parts.literals ++ substr text start (i - start) ∷ [];
        holes = parts.holes ++ h ∷ [];
      })
      | other ↦ further
      | error message ↦ invalid message
    ] in
    if leb (length text) i
    then parsed (record parts { literals = parts.literals ++ drop start text ∷ [] })
    else if not (get_or text i 0 == b'{')
    then further
    else at_brace

-- Each round raises the index, so the length is fuel enough.
unfoldable pub parse_format_string : Bytes → Parsed
parse_format_string text = format_loop (length text) text 0 0 (record { literals = []; holes = [] })

-- `true` with the literals, or `false` with none and the message.
unfoldable pub split_format_string : Bytes → (Bool × List Bytes × String)
split_format_string text = elim (parse_format_string text) [
  | parsed parts ↦ (Bool.true, parts.literals, "")
  | invalid message ↦ (Bool.false, [], message)
]
