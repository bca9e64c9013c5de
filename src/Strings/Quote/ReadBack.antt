-- ===== src/Strings/Quote/ReadBack.antt =====
-- What the quoting functions write, MySQL reads back as one token with the text quoted as its value.
use gh_ost_cpp.Base.{
  ◌==◌, if◌then◌else◌, ==_refl, Bool-cases, Bytes, ℕ, ◌≡◌, refl, sym, ap, ◌∙◌, ◌≢◌, inl, inr, false,
  some, [], ◌∷◌, ◌++◌, append-nil, append_assoc, arith,
}
use gh_ost_cpp.Strings.Quote.{
  escape_char, escape_onto, escape_for_sql, quote_for_sql, identifier_onto, quote_identifier,
  unescaped, cons_value, literal_body, literal, identifier_body, identifier,
}

abbrev escaped : Bytes → Bytes
escaped [] = []
escaped (c ∷ s) = escape_char c ++ escaped s

escape_onto-escaped : (s result : Bytes) → escape_onto result s ≡ result ++ escaped s
unfolding escape_onto
escape_onto-escaped [] result = sym (append-nil result)
escape_onto-escaped (c ∷ s) result =
    escape_onto-escaped s (result ++ escape_char c)
    ∙ append_assoc result (escape_char c) (escaped s)

literal_body_plain :
    (c : ℕ) (t : Bytes)
    → (c == b'\\') ≡ false
    → (c == b'\'') ≡ false
    → literal_body (c ∷ t) ≡ cons_value c (literal_body t)
unfolding literal_body
literal_body_plain c [] h k = ground arith
literal_body_plain c (d ∷ t) h k = ground arith

literal_body_quotes :
    (t : Bytes) → literal_body (b'\'' ∷ b'\'' ∷ t) ≡ cons_value b'\'' (literal_body t)
unfolding literal_body
literal_body_quotes t = refl

literal_body_escape :
    (d : ℕ) (t : Bytes) → literal_body (b'\\' ∷ d ∷ t) ≡ cons_value (unescaped d) (literal_body t)
unfolding literal_body
literal_body_escape d t = refl

literal_body-escape_char :
    (c : ℕ) (t : Bytes) → literal_body (escape_char c ++ t) ≡ cons_value c (literal_body t)
unfolding escape_char
literal_body-escape_char c t = ground (
  arith,
  literal_body_plain c t,
  literal_body_quotes t,
  literal_body_escape b'"' t,
  literal_body_escape b'\\' t,
  literal_body_escape b'n' t,
  literal_body_escape b'r' t,
  literal_body_escape b't' t,
  literal_body_escape b'0' t,
)

-- A text goes on with a byte other than `q`, or is at its end.
abbrev pub GoesOn : ℕ → Bytes → Type 0
GoesOn q [] = Unit {0}
GoesOn q (c ∷ s) = c ≢ q

literal_body_end :
    (rest : Bytes) → GoesOn b'\'' rest → literal_body (b'\'' ∷ rest) ≡ some ([], rest)
unfolding literal_body
literal_body_end [] h = refl
literal_body_end (d ∷ rest) h = ground arith

literal_body-escaped :
    (s rest : Bytes) → GoesOn b'\'' rest → literal_body (escaped s ++ b'\'' ∷ rest) ≡ some (s, rest)
literal_body-escaped [] rest h = literal_body_end rest h
literal_body-escaped (c ∷ s) rest h = rw append_assoc (
    literal_body-escape_char c (escaped s ++ b'\'' ∷ rest)
    ∙ ap (cons_value c) (literal_body-escaped s rest h))

-- Whatever bytes a text holds, MySQL reads what `QuoteForSQL` makes of it, in single quotes, as one
-- string literal with that text as its value, and the statement goes on behind it. What follows must
-- not begin with a quote.
pub literal-quote_for_sql :
    (s rest : Bytes) → GoesOn b'\'' rest → literal (quote_for_sql s b'\'' ++ rest) ≡ some (s, rest)
unfolding literal quote_for_sql escape_for_sql
literal-quote_for_sql s rest h =
    rw (escape_onto-escaped s [], append_assoc (escaped s) (b'\'' ∷ []) rest)
      (literal_body-escaped s rest h)

abbrev doubled : ℕ → Bytes → Bytes
doubled q [] = []
doubled q (c ∷ s) = if c == q then q ∷ q ∷ doubled q s else c ∷ doubled q s

identifier_onto-doubled :
    (q : ℕ) (s result : Bytes) → identifier_onto q result s ≡ result ++ doubled q s
unfolding identifier_onto
identifier_onto-doubled q [] result = sym (append-nil result)
identifier_onto-doubled q (c ∷ s) result = elim (Bool-cases (c == q)) [
  | inl same ↦ rw same (
      identifier_onto-doubled q s (result ++ q ∷ q ∷ [])
      ∙ append_assoc result (q ∷ q ∷ []) (doubled q s))
  | inr other ↦
      rw other (
        identifier_onto-doubled q s (result ++ c ∷ []) ∙ append_assoc result (c ∷ []) (doubled q s))
]

identifier_body_plain :
    (q c : ℕ) (t : Bytes)
    → (c == q) ≡ false
    → identifier_body q (c ∷ t) ≡ cons_value c (identifier_body q t)
unfolding identifier_body
identifier_body_plain q c [] h = ground arith
identifier_body_plain q c (d ∷ t) h = ground arith

identifier_body_end :
    (q : ℕ) (rest : Bytes) → GoesOn q rest → identifier_body q (q ∷ rest) ≡ some ([], rest)
unfolding identifier_body
identifier_body_end q [] h = ground arith
identifier_body_end q (d ∷ rest) h = ground arith

identifier_body_pair :
    (q : ℕ) (t : Bytes) → identifier_body q (q ∷ q ∷ t) ≡ cons_value q (identifier_body q t)
unfolding identifier_body
identifier_body_pair q t = ground arith

identifier_body-doubled :
    (q : ℕ) (s rest : Bytes)
    → GoesOn q rest
    → identifier_body q (doubled q s ++ q ∷ rest) ≡ some (s, rest)
identifier_body-doubled q [] rest h = identifier_body_end q rest h
identifier_body-doubled q (c ∷ s) rest h =
    let ih = identifier_body-doubled q s rest h in
    ground (
      arith,
      ih,
      identifier_body_pair q (doubled q s ++ q ∷ rest),
      identifier_body_plain q c (doubled q s ++ q ∷ rest),
    )

-- MySQL reads a quoted identifier as one token whose value is the identifier quoted, whatever bytes
-- it holds, also the quote itself. What follows must not begin with a quote.
pub identifier-quote_identifier :
    (q : ℕ) (s rest : Bytes)
    → GoesOn q rest
    → identifier q (quote_identifier s q ++ rest) ≡ some (s, rest)
unfolding identifier quote_identifier
identifier-quote_identifier q s rest h =
    rw (identifier_onto-doubled q s (q ∷ []), append_assoc (doubled q s) (q ∷ []) rest, ==_refl q)
      (identifier_body-doubled q s rest h)
