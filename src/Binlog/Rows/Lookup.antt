-- ===== src/Binlog/Rows/Lookup.antt =====
-- The values of a row, found by the names of their columns.
use gh_ost_cpp.Base.{
  get_elem?, any, Bytes, bytes_eq, bytes_eq_iff, bytes_eq-cases, ℕ, zero, suc, ◌≡◌, sym, ap, ◌∙◌,
  ◌≢◌, inl, inr, true, false, Option, some, List, [], ◌∷◌, arith,
}
use gh_ost_cpp.Binlog.Rows.{BinlogRowData, value_in, get_after_value}

-- No name stands twice.
abbrev pub AreDistinctNames : List Bytes → Type 0
AreDistinctNames [] = Unit
AreDistinctNames (c ∷ cs) = (any (λ d. bytes_eq d c) cs ≡ false) × AreDistinctNames cs

occurs :
    (cs : List Bytes) (i : ℕ) (name : Bytes)
    → get_elem? cs i ≡ some name
    → any (λ d. bytes_eq d name) cs ≡ true
occurs [] i name n = ground arith
occurs (c ∷ cs) zero name n = ground (arith, bytes_eq_iff c name)
occurs (c ∷ cs) (suc i) name n = ground (arith, occurs cs i name)

-- In a row whose columns have different names and as many values, the value of the i-th column's name
-- is the i-th value.
pub get_after_value_lem :
    (row : BinlogRowData) (i : ℕ) (name : Bytes) (v : Option Bytes)
    → AreDistinctNames row.column_names
    → get_elem? row.column_names i ≡ some name
    → get_elem? row.after_values i ≡ some v
    → get_after_value row name ≡ v
unfolding get_after_value value_in
get_after_value_lem row i name v d n e = at_index row.column_names row.after_values i d n e
  where
    true≢false : true ≢ false
    true≢false h = ground arith

    at_index :
        (cs : List Bytes) (vs : List (Option Bytes)) (i : ℕ)
        → AreDistinctNames cs
        → get_elem? cs i ≡ some name
        → get_elem? vs i ≡ some v
        → value_in cs vs name ≡ v
    at_index [] vs i d n e = ground arith
    at_index (c ∷ cs) [] i d n e = ground arith
    at_index (c ∷ cs) (w ∷ vs) zero d n e = ground (arith, bytes_eq_iff c name)
    at_index (c ∷ cs) (w ∷ vs) (suc i) d n e = elim (bytes_eq-cases c name) [
      | inl same ↦ absurd (
          true≢false
            (sym (occurs cs i name n) ∙ ap (λ s. any (λ d. bytes_eq d s) cs) (sym same) ∙ d.0))
      | inr other ↦ rw other (at_index cs vs i d.1 n e)
    ]
