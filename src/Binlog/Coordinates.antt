-- ===== src/Binlog/Coordinates.antt =====
-- `BinlogCoordinates` of src/binlog/binlog_coordinates.cpp.
use gh_ost_cpp.Base.{
  ltb, ◌==◌, if◌then◌else◌, length, drop, is_empty, Bytes, codes, bytes_eq, ℕ, suc, ◌+◌, ◌<◌, ◌≡◌,
  refl, inr, Bool, true, false, not, ◌&&◌, ◌||◌, Option, none, some, List, [], ◌∷◌, ◌++◌,
  append_assoc, arith,
}
use gh_ost_cpp.Strings.Split.{split, has, split-cons, split_one}
use gh_ost_cpp.Strings.Number.{
  u64_mod, read_digits, parse_uint64, to_string, parse_uint64-to_string, to_string-has,
  to_string-head,
}
pub mod Order

pub record BinlogCoordinates : Type 0 where
  pub file : Bytes
  pub position : ℕ

-- the default constructor
abbrev pub no_coordinates : BinlogCoordinates
no_coordinates = record { file = []; position = 0 }

unfoldable pub is_valid : BinlogCoordinates → Bool
is_valid c = not (is_empty c.file) && ltb 0 c.position

unfoldable pub to_text : BinlogCoordinates → Bytes
unfolding is_valid to_string
to_text c = if is_valid c then (c.file ++ codes ":") ++ to_string c.position else []

unfoldable pub is_same_as : BinlogCoordinates → BinlogCoordinates → Bool
is_same_as a b = bytes_eq a.file b.file && a.position == b.position

-- `s.rfind(c)`; `none` is `npos`
unfoldable pub rfind : ℕ → Bytes → Option ℕ
rfind c [] = none
rfind c (x ∷ s) = elim (rfind c s) [
  | some i ↦ some (suc i)
  | none ↦ if x == c then some 0 else none
]

abbrev value_or_zero : Option ℕ → ℕ
value_or_zero none = 0
value_or_zero (some v) = v

unfoldable pub parse_sequence : Bytes → ℕ
unfolding rfind parse_uint64
parse_sequence file = elim (rfind b'.' file) [
  | none ↦ 0
  | some last_dot ↦
      if ltb (last_dot + 1) (length file)
      then value_or_zero (parse_uint64 (drop (suc last_dot) file))
      else 0
]

unfoldable pub get_sequence : BinlogCoordinates → ℕ
unfolding parse_sequence
get_sequence c = parse_sequence c.file

-- `operator<`
unfoldable pub before : BinlogCoordinates → BinlogCoordinates → Bool
before a b =
    if not (get_sequence a == get_sequence b)
    then ltb (get_sequence a) (get_sequence b)
    else ltb a.position b.position

-- `operator<=`
unfoldable pub at_most : BinlogCoordinates → BinlogCoordinates → Bool
unfolding is_same_as before
at_most a b = is_same_as a b || before a b

-- `operator>`
unfoldable pub after : BinlogCoordinates → BinlogCoordinates → Bool
unfolding at_most
after a b = not (at_most a b)

-- `operator>=`
unfoldable pub at_least : BinlogCoordinates → BinlogCoordinates → Bool
unfolding before
at_least a b = not (before a b)

unfoldable pub is_same_file : BinlogCoordinates → BinlogCoordinates → Bool
is_same_file a b = bytes_eq a.file b.file

unfoldable pub is_later_file : BinlogCoordinates → BinlogCoordinates → Bool
is_later_file a b = ltb (get_sequence b) (get_sequence a)

parts_of : List Bytes → Option BinlogCoordinates
unfolding parse_uint64
parts_of (f ∷ p ∷ []) = elim (parse_uint64 p) [
  | none ↦ none
  | some pos ↦ some (record { file = f; position = pos })
]
parts_of _ = none

unfoldable pub parse : Bytes → Option BinlogCoordinates
unfolding split parts_of
parse s = parts_of (split s b':')

split-to_string : (n : ℕ) → split (to_string n) b':' ≡ to_string n ∷ []
split-to_string n =
    let (c, s, e, _, _) = to_string-head n in
    rw e (split_one b':' c s (rw e at (to_string-has b':' n (inr (omega arith)))))

-- Valid coordinates whose file name has no colon are read back from their text.
pub parse-to_text :
    (c : BinlogCoordinates)
    → is_valid c ≡ true
    → has b':' c.file ≡ false
    → c.position < u64_mod
    → parse (to_text c) ≡ some c
unfolding parse to_text
parse-to_text c v h fits =
    rw
      (
        v,
        append_assoc c.file (codes ":") (to_string c.position),
        split-cons b':' c.file (to_string c.position) h,
        split-to_string c.position,
      )
      (rw (parse_uint64-to_string c.position fits, parts_of))

parse_runs :
    (parse (codes "mysql-bin.000123:456")
      ≡ some (record { file = codes "mysql-bin.000123"; position = 456 }))
    × (parse_sequence (codes "mysql-bin.000123") ≡ 123)
unfolding parse parse_sequence
parse_runs = (refl, refl)
