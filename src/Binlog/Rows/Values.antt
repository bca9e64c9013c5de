-- ===== src/Binlog/Rows/Values.antt =====
-- The values of a row as MySQL reads them in the statement.
use gh_ost_cpp.Base.{
  length, Bytes, codes, ℕ, zero, suc, ◌<◌, ◌≡◌, refl, ap, ◌∙◌, Option, none, some, List, [], ◌∷◌,
  ◌++◌, append_assoc, arith,
}
use gh_ost_cpp.Strings.Quote.{literal, quote_for_sql}
use gh_ost_cpp.Strings.Quote.ReadBack.{GoesOn, literal-quote_for_sql}
use gh_ost_cpp.Sql.Builder.Names.{expect, then_read, after}
use gh_ost_cpp.Binlog.Rows.{BinlogRowData, value_to_sql, values_to_sql, to_insert_values_sql}

-- The keyword NULL, or a string literal.
unfoldable pub read_value : Bytes → Option (Option Bytes × Bytes)
read_value s = elim (expect (codes "NULL") s) [
  | some rest ↦ some (none, rest)
  | none ↦ then_read (literal s) (λ v rest. some (some v, rest))
]

-- Values with commas between them up to the closing parenthesis, at most as many as the fuel.
unfoldable pub read_items : ℕ → Bytes → Option (List (Option Bytes) × Bytes)
read_items zero s = none
read_items (suc n) s = then_read (read_value s) (λ v rest. elim (expect (codes ", ") rest) [
  | some rest ↦ then_read (read_items n rest) (λ vs rest. some (v ∷ vs, rest))
  | none ↦ after (expect (codes ")") rest) (λ rest. some (v ∷ [], rest))
])

abbrev pub or_items : ℕ → Bytes → Option Bytes → Option (List (Option Bytes) × Bytes)
or_items fuel s (some rest) = some ([], rest)
or_items fuel s none = read_items fuel s

-- A list of values in parentheses, `()` the empty one.
unfoldable pub read_values : ℕ → Bytes → Option (List (Option Bytes) × Bytes)
read_values fuel s =
    after (expect (codes "(") s) (λ rest. or_items fuel rest (expect (codes ")") rest))

literal-value_to_sql :
    (v rest : Bytes) → GoesOn b'\'' rest → literal (value_to_sql (some v) ++ rest) ≡ some (v, rest)
unfolding value_to_sql quote_for_sql
literal-value_to_sql v rest h = literal-quote_for_sql v rest h

read_value-value_to_sql :
    (v : Option Bytes) (rest : Bytes)
    → GoesOn b'\'' rest
    → read_value (value_to_sql v ++ rest) ≡ some (v, rest)
unfolding read_value value_to_sql
read_value-value_to_sql none rest h = refl
read_value-value_to_sql (some v) rest h =
    ap (λ o. then_read o (λ v rest. some (some v, rest))) (literal-value_to_sql v rest h)

read_items_last :
    (v : Option Bytes) (n : ℕ) (rest : Bytes)
    → read_items (suc n) (value_to_sql v ++ (codes ")" ++ rest)) ≡ some (v ∷ [], rest)
unfolding read_items
read_items_last v n rest = rw (read_value-value_to_sql v (codes ")" ++ rest) (ground arith)) refl

read_items_more :
    (v : Option Bytes) (vs : List (Option Bytes)) (n : ℕ) (s rest : Bytes)
    → read_items n s ≡ some (vs, rest)
    → read_items (suc n) (value_to_sql v ++ (codes ", " ++ s)) ≡ some (v ∷ vs, rest)
unfolding read_items
read_items_more v vs n s rest e =
    rw (read_value-value_to_sql v (codes ", " ++ s) (ground arith), e) refl

values_to_sql_more :
    (v w : Option Bytes) (ws : List (Option Bytes)) (s : Bytes)
    → values_to_sql (v ∷ w ∷ ws) ++ s
      ≡ value_to_sql v ++ (codes ", " ++ (values_to_sql (w ∷ ws) ++ s))
unfolding values_to_sql
values_to_sql_more v w ws s = simp append_assoc

values_to_sql_last :
    (v : Option Bytes) (s : Bytes) → values_to_sql (v ∷ []) ++ s ≡ value_to_sql v ++ s
unfolding values_to_sql
values_to_sql_last v s = simp append_assoc

read_items-values_to_sql :
    (v : Option Bytes) (vs : List (Option Bytes)) (fuel : ℕ) (rest : Bytes)
    → length vs < fuel
    → read_items fuel (values_to_sql (v ∷ vs) ++ (codes ")" ++ rest)) ≡ some (v ∷ vs, rest)
read_items-values_to_sql v vs zero rest f = ground arith
read_items-values_to_sql v [] (suc n) rest f =
    rw (values_to_sql_last v (codes ")" ++ rest)) (read_items_last v n rest)
read_items-values_to_sql v (w ∷ ws) (suc n) rest f =
    rw (values_to_sql_more v w ws (codes ")" ++ rest)) (
      read_items_more v (w ∷ ws) n (values_to_sql (w ∷ ws) ++ (codes ")" ++ rest)) rest
        (read_items-values_to_sql w ws n rest (omega arith)))

values_to_sql_nil : values_to_sql [] ≡ []
unfolding values_to_sql
values_to_sql_nil = refl

-- the text of some value does not begin with a closing parenthesis
no_parenthesis :
    (v : Option Bytes) (vs : List (Option Bytes)) (s : Bytes)
    → expect (codes ")") (values_to_sql (v ∷ vs) ++ s) ≡ none
unfolding values_to_sql value_to_sql
no_parenthesis none vs s = refl
no_parenthesis (some v) vs s = refl

-- MySQL reads the values of an INSERT as the values of the row, NULL where there is none, in order
-- and whatever bytes they hold.
pub read_values-to_insert_values_sql :
    (row : BinlogRowData) (rest : Bytes)
    → read_values (length row.after_values) (to_insert_values_sql row ++ rest)
      ≡ some (row.after_values, rest)
unfolding read_values to_insert_values_sql
read_values-to_insert_values_sql row rest = by_values row.after_values
  where
    by_values :
        (vs : List (Option Bytes))
        → read_values (length vs) ((codes "(" ++ (values_to_sql vs ++ codes ")")) ++ rest)
          ≡ some (vs, rest)
    by_values [] = rw values_to_sql_nil refl
    by_values (v ∷ vs) = rw append_assoc (
        ap (or_items (suc (length vs)) (values_to_sql (v ∷ vs) ++ (codes ")" ++ rest)))
          (no_parenthesis v vs (codes ")" ++ rest))
        ∙ read_items-values_to_sql v vs (suc (length vs)) rest (omega arith))
