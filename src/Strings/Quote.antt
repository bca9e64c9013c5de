-- ===== src/Strings/Quote.antt =====
-- `EscapeForSQL`, `QuoteForSQL` and `QuoteIdentifier` of src/utils/string_utils.cpp, read back by
-- the lexical rules of MySQL for string literals and quoted identifiers.
pub mod ReadBack
use gh_ost_cpp.Base.{◌==◌, if◌then◌else◌, Bytes, codes, ℕ, Option, none, some, [], ◌∷◌, ◌++◌}

-- what the loop of `EscapeForSQL` appends for one character
escape_char : ℕ → Bytes
escape_char c =
    if c == b'\''
    then codes "''"
    else if c == b'"'
    then b'\\' ∷ b'"' ∷ []
    else if c == b'\\'
    then b'\\' ∷ b'\\' ∷ []
    else if c == 10
    then codes "\\n"
    else if c == 13
    then codes "\\r"
    else if c == 9
    then codes "\\t"
    else if c == 0
    then codes "\\0"
    else c ∷ []

escape_onto : Bytes → Bytes → Bytes
unfolding escape_char
escape_onto result [] = result
escape_onto result (c ∷ s) = escape_onto (result ++ escape_char c) s

unfoldable pub escape_for_sql : Bytes → Bytes
unfolding escape_onto
escape_for_sql s = escape_onto [] s

unfoldable pub quote_for_sql : Bytes → ℕ → Bytes
unfolding escape_for_sql
quote_for_sql s quote = (quote ∷ [] ++ escape_for_sql s) ++ quote ∷ []

identifier_onto : ℕ → Bytes → Bytes → Bytes
identifier_onto quote result [] = result
identifier_onto quote result (c ∷ s) =
    identifier_onto quote (if c == quote then result ++ quote ∷ quote ∷ [] else result ++ c ∷ []) s

unfoldable pub quote_identifier : Bytes → ℕ → Bytes
unfolding identifier_onto
quote_identifier identifier quote = identifier_onto quote (quote ∷ []) identifier ++ quote ∷ []

-- MySQL's rule for the character behind a backslash.
abbrev pub unescaped : ℕ → ℕ
unescaped c =
    if c == b'n'
    then 10
    else if c == b'r'
    then 13
    else if c == b't'
    then 9
    else if c == b'0'
    then 0
    else if c == b'b'
    then 8
    else if c == b'Z'
    then 26
    else c

abbrev pub cons_value : ℕ → Option (Bytes × Bytes) → Option (Bytes × Bytes)
cons_value c none = none
cons_value c (some (v, rest)) = some (c ∷ v, rest)

-- MySQL reads the inside of a literal in single quotes: two quotes are one, a backslash escapes, and
-- a single quote ends it. The value and what follows the literal; `none` if it does not end.
unfoldable pub literal_body : Bytes → Option (Bytes × Bytes)
literal_body [] = none
literal_body (c ∷ []) = if c == b'\'' then some ([], []) else none
literal_body (c ∷ d ∷ s) =
    let two = literal_body s in
    let one = literal_body (d ∷ s) in
    if c == b'\\'
    then cons_value (unescaped d) two
    else if c == b'\''
    then (if d == b'\'' then cons_value b'\'' two else some ([], d ∷ s))
    else cons_value c one

-- a whole literal: an opening quote and the rest
unfoldable pub literal : Bytes → Option (Bytes × Bytes)
unfolding literal_body
literal [] = none
literal (c ∷ s) = if c == b'\'' then literal_body s else none

-- MySQL reads a quoted identifier: two quotes are one, and a single quote ends it.
unfoldable pub identifier_body : ℕ → Bytes → Option (Bytes × Bytes)
identifier_body quote [] = none
identifier_body quote (c ∷ []) = if c == quote then some ([], []) else none
identifier_body quote (c ∷ d ∷ s) =
    let two = identifier_body quote s in
    let one = identifier_body quote (d ∷ s) in
    if c == quote
    then (if d == quote then cons_value quote two else some ([], d ∷ s))
    else cons_value c one

unfoldable pub identifier : ℕ → Bytes → Option (Bytes × Bytes)
unfolding identifier_body
identifier quote [] = none
identifier quote (c ∷ s) = if c == quote then identifier_body quote s else none
