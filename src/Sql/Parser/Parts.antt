-- ===== src/Sql/Parser/Parts.antt =====
-- The operations of an ALTER, cut at their commas, and when `Parse` succeeds.
use gh_ost_cpp.Base.{
  ◌==◌, ==_iff, Bool-cases, is_empty, all, Bytes, codes, ℕ, zero, suc, ◌≡◌, refl, ap, ◌∙◌, ◌↔◌, inl,
  inr, Bool, true, false, not, ◌&&◌, List, [], ◌∷◌, ◌++◌, map, append-nil, append_assoc, arith,
}
use gh_ost_cpp.Strings.Trim.{trim}
use gh_ost_cpp.Strings.Split.{join, joined, join-cons}
use gh_ost_cpp.Mysql.Structure.{ColumnType}
use gh_ost_cpp.Sql.Types.{
  AlterStatement, is_valid_iff, is_rename_table, is_valid, get_validation_errors, has_rename_table,
}
use gh_ost_cpp.Sql.Operation.{parse_operation}
use gh_ost_cpp.Sql.Parser.{
  AlterTableParser, push_part, parts_from, operation_parts, parse_operations, parse,
}

-- The text has no comma outside parentheses, and closes as many as it opens.
abbrev is_part : ℕ → ℕ → Bytes → Bool
is_part opened closed [] = opened == closed
is_part opened closed (c ∷ s) = elim (c == b'(') [
  | true ↦ is_part (suc opened) closed s
  | false ↦ elim (c == b')') [
    | true ↦ is_part opened (suc closed) s
    | false ↦ not (c == b',' && opened == closed) && is_part opened closed s
  ]
]

-- The text of one operation.
abbrev pub is_operation : Bytes → Bool
is_operation p = not (is_empty p) && is_part 0 0 p

is_part_shift : (o c : ℕ) (s : Bytes) → is_part (suc o) (suc c) s ≡ is_part o c s
is_part_shift o c [] = ground arith
is_part_shift o c (x ∷ s) =
    ground (arith, is_part_shift (suc o) c s, is_part_shift o (suc c) s, is_part_shift o c s)

is_part_balanced : (k : ℕ) (s : Bytes) → is_part k k s ≡ is_part 0 0 s
is_part_balanced zero s = refl
is_part_balanced (suc k) s = is_part_shift k k s ∙ is_part_balanced k s

-- One character of a part.
parts_from_char :
    (o c x : ℕ) (p : Bytes)
    → is_part o c (x ∷ p) ≡ true
    → (o₁ : ℕ) × (c₁ : ℕ) × (is_part o₁ c₁ p ≡ true)
      × ((current s : Bytes)
          → parts_from o c current (x ∷ s) ≡ parts_from o₁ c₁ (current ++ x ∷ []) s)
unfolding parts_from
parts_from_char o c x p h = elim (Bool-cases (x == b'(')) [
  | inl opens ↦ (suc o, c, ground arith, λ current s. ground arith)
  | inr other ↦ elim (Bool-cases (x == b')')) [
    | inl closes ↦ (o, suc c, ground arith, λ current s. ground arith)
    | inr neither ↦ (o, c, ground arith, λ current s. ground arith)
  ]
]

-- The loop takes a part in, and is balanced behind it.
parts_from_part :
    (o c : ℕ) (current p s : Bytes)
    → is_part o c p ≡ true
    → (k : ℕ) × (parts_from o c current (p ++ s) ≡ parts_from k k (current ++ p) s)
parts_from_part o c current [] s h = (o, rw (append-nil, ← ((==_iff o c).0 h)) refl)
parts_from_part o c current (x ∷ p) s h =
    let (o₁, c₁, h₁, step) = parts_from_char o c x p h in
    let (k, e) = parts_from_part o₁ c₁ (current ++ x ∷ []) p s h₁ in
    (k, step current (p ++ s) ∙ e ∙ ap (λ t. parts_from k k t s) (append_assoc current (x ∷ []) p))

push_part_some :
    (p : Bytes) (later : List Bytes) → is_empty p ≡ false → push_part p later ≡ trim p ∷ later
push_part_some [] later h = ground arith
push_part_some (x ∷ p) later h = refl

parts_from_comma :
    (k : ℕ) (p s : Bytes) → parts_from k k p (b',' ∷ s) ≡ push_part p (parts_from k k [] s)
unfolding parts_from
parts_from_comma k p s = ground arith

parts_from-joined :
    (k : ℕ) (p : Bytes) (ps : List Bytes)
    → all is_operation (p ∷ ps) ≡ true
    → parts_from k k [] (p ++ joined (codes ",") ps) ≡ map trim (p ∷ ps)
parts_from-joined k p [] h =
    let (j, e) = parts_from_part k k [] p [] (is_part_balanced k p ∙ ground arith) in
    e ∙ (unfold parts_from in push_part_some p [] (ground arith))
parts_from-joined k p (q ∷ qs) h =
    let rest = q ++ joined (codes ",") qs in
    let (j, e) = parts_from_part k k [] p (b',' ∷ rest) (is_part_balanced k p ∙ ground arith) in
    e
    ∙ parts_from_comma j p rest
    ∙ push_part_some p (parts_from j j [] rest) (ground arith)
    ∙ ap (◌∷◌ (trim p)) (parts_from-joined j q qs (ground arith))

operation_parts-join :
    (p : Bytes) (ps : List Bytes)
    → all is_operation (p ∷ ps) ≡ true
    → trim (join (p ∷ ps) (codes ",")) ≡ join (p ∷ ps) (codes ",")
    → operation_parts (join (p ∷ ps) (codes ",")) ≡ map trim (p ∷ ps)
unfolding operation_parts
operation_parts-join p ps h t =
    ap (parts_from 0 0 []) (t ∙ join-cons p ps (codes ",")) ∙ parts_from-joined 0 p ps h

map_twice :
    {A B C : Type 0} (f : B → C) (g : A → B) (xs : List A)
    → map f (map g xs) ≡ map (λ x. f (g x)) xs
map_twice f g [] = refl
map_twice f g (x ∷ xs) = ap (◌∷◌ (f (g x))) (map_twice f g xs)

-- Operations joined by commas, where the whole text neither begins nor ends with white space, are
-- parsed each on its own, without the white space around it.
pub parse_operations-join :
    (garbage : Bool) (garbage_type : ColumnType) (p : Bytes) (ps : List Bytes) (a : AlterStatement)
    → all is_operation (p ∷ ps) ≡ true
    → trim (join (p ∷ ps) (codes ",")) ≡ join (p ∷ ps) (codes ",")
    → (parse_operations garbage garbage_type (join (p ∷ ps) (codes ",")) a).operations
      ≡ a.operations ++ map (λ q. parse_operation garbage garbage_type (trim q)) (p ∷ ps)
unfolding parse_operations
parse_operations-join garbage garbage_type p ps a h t =
    let f = parse_operation garbage garbage_type in
    ap (λ parts. a.operations ++ map f parts) (operation_parts-join p ps h t)
    ∙ ap (λ ops. a.operations ++ ops) (map_twice f trim (p ∷ ps))

parsed-is_valid :
    (a : AlterStatement)
    → (not (is_empty a.operations) && is_empty (get_validation_errors a)) ≡ is_valid a
unfolding is_valid get_validation_errors has_rename_table
parsed-is_valid a = ground arith

-- `Parse` succeeds just when the statement that it leaves is valid, and that is when the statement
-- names a table, has an operation, and none of its operations renames the table.
pub parse_iff :
    (garbage : Bool) (garbage_type : ColumnType) (statement : Bytes) (parser : AlterTableParser)
    → let result = parse garbage garbage_type statement parser in
      let a : AlterStatement = (result.1).alter_statement in
      (result.0 ≡ is_valid a)
      × ((result.0 ≡ true) ↔ (
          (is_empty a.table_name ≡ false)
          × (is_empty a.operations ≡ false)
          × (all (λ op. not (is_rename_table op)) a.operations ≡ true)))
unfolding parse
parse_iff garbage garbage_type statement parser =
    let a : AlterStatement = ((parse garbage garbage_type statement parser).1).alter_statement in
    (parsed-is_valid a, rw (parsed-is_valid a) (is_valid_iff a).1)
