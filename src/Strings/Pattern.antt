-- ===== src/Strings/Pattern.antt =====
-- What the source uses of `std::regex`: `regex_search` with the patterns of src/sql/parser.cpp, in which
-- only single characters repeat. Matching is that of the standard: alternatives in order, repetitions as
-- long as they can be, backwards from there.
use gh_ost_cpp.Base.{
  leb, ◌==◌, if◌then◌else◌, Bytes, ℕ, Bool, ◌&&◌, ◌||◌, Option, none, some, List, [], ◌∷◌, ◌++◌,
  map,
}
use gh_ost_cpp.Strings.Trim.{is_space}

pub data Pattern : Type 0 where
  char : (ℕ → Bool) → Pattern
  many : (ℕ → Bool) → Pattern
  then_ : Pattern → Pattern → Pattern
  maybe : Pattern → Pattern
  either : Pattern → Pattern → Pattern
  group : Pattern → Pattern

-- what a match has read, its groups, and what is left
pub record Match : Type 0 where
  pub read : Bytes
  pub groups : List Bytes
  pub rest : Bytes

abbrev empty_match : Bytes → Match
empty_match s = record { read = []; groups = []; rest = s }

abbrev match_char : (ℕ → Bool) → Bytes → List Match
match_char p [] = []
match_char p (c ∷ s) = if p c then record { read = c ∷ []; groups = []; rest = s } ∷ [] else []

abbrev put : ℕ → Match → Match
put c m = record m { read = c ∷ m.read }

match_many : (ℕ → Bool) → Bytes → List Match
match_many p [] = empty_match [] ∷ []
match_many p (c ∷ s) =
    let longer = match_many p s in
    if p c then map (put c) longer ++ empty_match (c ∷ s) ∷ [] else empty_match (c ∷ s) ∷ []

abbrev after : Match → Match → Match
after first second = record {
  read = first.read ++ second.read;
  groups = first.groups ++ second.groups;
  rest = second.rest;
}

abbrev follow : (Bytes → List Match) → List Match → List Match
follow next [] = []
follow next (m ∷ ms) = map (after m) (next m.rest) ++ follow next ms

abbrev grouped : Match → Match
grouped m = record m { groups = m.read ∷ m.groups }

-- all matches at the beginning of a text, in the order in which they are tried
unfoldable pub matches : Pattern → Bytes → List Match
unfolding match_many
matches (char p) s = match_char p s
matches (many p) s = match_many p s
matches (then_ a b) s = follow (matches b) (matches a s)
matches (maybe a) s = matches a s ++ empty_match s ∷ []
matches (either a b) s = matches a s ++ matches b s
matches (group a) s = map grouped (matches a s)

abbrev first_groups : List Match → Option (List Bytes)
first_groups [] = none
first_groups (m ∷ ms) = some m.groups

-- the groups of the first match from the left
unfoldable pub search : Pattern → Bytes → Option (List Bytes)
unfolding matches
search a [] = first_groups (matches a [])
search a (c ∷ s) =
    let later = search a s in
    elim (first_groups (matches a (c ∷ s))) [ none ↦ later | some groups ↦ some groups ]

-- the characters of a text, one after the other
abbrev pub word : ℕ → Bytes → Pattern
word c [] = char (λ x. x == c)
word c (d ∷ s) = then_ (char (λ x. x == c)) (word d s)

abbrev pub is_letter : ℕ → Bool
is_letter c = (leb b'a' c && leb c b'z') || (leb b'A' c && leb c b'Z')

abbrev pub is_digit : ℕ → Bool
is_digit c = leb b'0' c && leb c b'9'

-- `p+`
abbrev pub some_of : (ℕ → Bool) → Pattern
some_of p = then_ (char p) (many p)

-- `\s*` and `\s+`
abbrev pub spaces : Pattern
spaces = many is_space

abbrev pub some_spaces : Pattern
some_spaces = some_of is_space

-- `[a-zA-Z_][a-zA-Z0-9_]*`
abbrev pub identifier : Pattern
identifier =
    then_ (char (λ c. is_letter c || c == b'_'))
      (many (λ c. is_letter c || is_digit c || c == b'_'))
