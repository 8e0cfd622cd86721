-- ===== src/StringLiteral/Decode.antt =====
-- `decodeStringLiteralContent`.
use nexc.Prelude.{
  ℕ, zero, suc, ◌+◌, ◌-◌, not, ◌||◌, Option, none, some, [], ◌∷◌, ◌++◌, String, length, get_or,
  Bytes, ltb, leb, ◌==◌, if◌then◌else◌,
}

-- `true` with the decoded bytes, or `false` with the message and the bytes decoded before it.
pub data Decoded : Type 0 where
  decoded : Bytes → Decoded
  malformed : String → Bytes → Decoded

-- The switch on the byte behind a backslash.
unfoldable pub unescape : ℕ → Option ℕ
unescape c =
    if c == b'"'
    then some b'"'
    else if c == b'\\'
    then some b'\\'
    else if c == b'n'
    then some b'\n'
    else if c == b't'
    then some b'\t'
    else if c == b'r'
    then some b'\r'
    else none

-- The loop at index `i`, with `out` decoded so far. Every round raises the index, so the length is
-- fuel enough.
unfoldable pub decode_loop : ℕ → Bytes → ℕ → Bytes → Decoded
decode_loop zero raw i out = decoded out
decode_loop (suc fuel) raw i out =
    let c = get_or raw i 0 in
    let plain = decode_loop fuel raw (i + 1) (out ++ c ∷ []) in
    let escaped : Decoded = elim (unescape (get_or raw (i + 1) 0)) [
      | some b ↦ decode_loop fuel raw (i + 2) (out ++ b ∷ [])
      | none ↦ malformed "unsupported string escape sequence" out
    ] in
    if not (ltb (i + 1) (length raw))
    then decoded out
    else if not (c == b'\\')
    then plain
    else if leb (length raw) (i + 2)
    then malformed "string literal ended inside an escape sequence" out
    else escaped

unfoldable pub decode_string_literal_content : Bytes → Decoded
decode_string_literal_content raw =
    if ltb (length raw) 2
      || not (get_or raw 0 0 == b'"')
      || not (get_or raw (length raw - 1) 0 == b'"')
    then malformed "string literal must be enclosed in double quotes" []
    else decode_loop (length raw) raw 1 []
