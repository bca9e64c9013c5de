-- ===== src/Binlog/Gtid.antt =====
-- `GTIDCoordinates` and `GTIDSet` of src/binlog/binlog_coordinates.cpp.
use gh_ost_cpp.Base.{
  ltb, leb, ◌==◌, if◌then◌else◌, take, drop, is_empty, Bytes, codes, bytes_eq, ℕ, suc, ◌≡◌, refl,
  Bool, false, not, ◌&&◌, ◌||◌, Option, none, some, List, [], ◌∷◌, ◌++◌,
}
use gh_ost_cpp.Strings.Trim.{trim}
use gh_ost_cpp.Strings.Split.{split}
use gh_ost_cpp.Strings.Number.{parse_uint64, to_string}
pub mod Order
pub mod RoundTrip

pub record GtidCoordinates : Type 0 where
  pub domain : Bytes
  pub sequence : ℕ

unfoldable pub to_text : GtidCoordinates → Bytes
unfolding to_string
to_text g = (g.domain ++ codes ":") ++ to_string g.sequence

unfoldable pub is_valid : GtidCoordinates → Bool
is_valid g = not (is_empty g.domain) && ltb 0 g.sequence

-- `s.find(c)`; `none` is `npos`
unfoldable pub find_char : ℕ → Bytes → Option ℕ
find_char c [] = none
find_char c (x ∷ s) =
    let later = find_char c s in
    if x == c then some 0 else elim later [ none ↦ none | some i ↦ some (suc i) ]

parsed : Bytes → Option ℕ → Option GtidCoordinates
parsed domain none = none
parsed domain (some seq) = some (record { domain = domain; sequence = seq })

unfoldable pub parse : Bytes → Option GtidCoordinates
unfolding find_char parse_uint64 parsed
parse s = elim (find_char b':' s) [
  | none ↦ none
  | some colon_pos ↦ parsed (take colon_pos s) (parse_uint64 (drop (suc colon_pos) s))
]

-- `gtids_`
abbrev pub GtidSet : Type 0
GtidSet = List GtidCoordinates

-- the loop of `Add`, and the `push_back` behind it
add_loop : GtidCoordinates → GtidSet → GtidSet
add_loop g [] = g ∷ []
add_loop g (existing ∷ rest) =
    if bytes_eq existing.domain g.domain
    then (if ltb existing.sequence g.sequence then g ∷ rest else existing ∷ rest)
    else existing ∷ add_loop g rest

unfoldable pub add : GtidSet → GtidCoordinates → GtidSet
unfolding add_loop is_valid
add s g = if not (is_valid g) then s else add_loop g s

unfoldable pub contains : GtidSet → GtidCoordinates → Bool
contains [] g = false
contains (existing ∷ rest) g =
    (bytes_eq existing.domain g.domain && leb g.sequence existing.sequence) || contains rest g

-- the loop of `ToString`
set_text_onto : Bytes → GtidSet → Bytes
unfolding to_text
set_text_onto oss [] = oss
set_text_onto oss (g ∷ []) = oss ++ to_text g
set_text_onto oss (g ∷ h ∷ rest) = set_text_onto ((oss ++ to_text g) ++ codes ",") (h ∷ rest)

unfoldable pub set_to_text : GtidSet → Bytes
unfolding set_text_onto
set_to_text s = set_text_onto [] s

-- one round of the loop of `Parse`
add_part : GtidSet → Bytes → GtidSet
unfolding parse trim
add_part s part = elim (parse (trim part)) [ none ↦ s | some g ↦ add s g ]

add_parts : GtidSet → List Bytes → GtidSet
unfolding add_part
add_parts s [] = s
add_parts s (part ∷ rest) = add_parts (add_part s part) rest

unfoldable pub parse_set : GtidSet → Bytes → GtidSet
unfolding split add_parts
parse_set s text = add_parts s (split text b',')

parse_set_runs :
    parse_set [] (codes "a:5, b:7,a:3,a:9")
    ≡ (record { domain = codes "a"; sequence = 9 })
      ∷ (record { domain = codes "b"; sequence = 7 })
      ∷ []
unfolding parse_set add
parse_set_runs = refl
