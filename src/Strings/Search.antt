-- ===== src/Strings/Search.antt =====
-- Case conversion, search, prefixes, replacement and `NormalizeTableName` of
-- src/utils/string_utils.cpp. `toupper` and `tolower` are those of the C locale.
use gh_ost_cpp.Base.{
  ltb, leb, ◌==◌, if◌then◌else◌, length, take, drop, is_empty, Bytes, codes, bytes_eq, ℕ, suc, ◌+◌,
  ◌-◌, ◌≡◌, refl, Bool, true, false, ◌&&◌, ◌||◌, Option, none, some, [], ◌∷◌, ◌++◌, map,
}
use gh_ost_cpp.Strings.Trim.{trim}

abbrev upper_char : ℕ → ℕ
upper_char c = if leb b'a' c && leb c b'z' then c - 32 else c

abbrev lower_char : ℕ → ℕ
lower_char c = if leb b'A' c && leb c b'Z' then c + 32 else c

unfoldable pub to_upper : Bytes → Bytes
to_upper s = map upper_char s

unfoldable pub to_lower : Bytes → Bytes
to_lower s = map lower_char s

-- the comparison of a prefix of `s` with the whole of `p`
unfoldable pub begins : Bytes → Bytes → Bool
begins s [] = true
begins [] (c ∷ p) = false
begins (d ∷ s) (c ∷ p) = d == c && begins s p

unfoldable pub starts_with : Bytes → Bytes → Bool
unfolding begins
starts_with s prefix = if ltb (length s) (length prefix) then false else begins s prefix

unfoldable pub ends_with : Bytes → Bytes → Bool
ends_with s suffix =
    if ltb (length s) (length suffix)
    then false
    else bytes_eq (drop (length s - length suffix) s) suffix

-- `s.find(t)`; `none` is `npos`
unfoldable pub find : Bytes → Bytes → Option ℕ
unfolding begins
find [] t = if is_empty t then some 0 else none
find (c ∷ s) t =
    let later = find s t in
    if begins (c ∷ s) t then some 0 else elim later [ none ↦ none | some i ↦ some (suc i) ]

unfoldable pub contains : Bytes → Bytes → Bool
unfolding find
contains s t = elim (find s t) [ none ↦ false | some i ↦ true ]

unfoldable pub contains_ignore_case : Bytes → Bytes → Bool
unfolding find to_lower
contains_ignore_case s t = elim (find (to_lower s) (to_lower t)) [ none ↦ false | some i ↦ true ]

-- `result.replace(pos, from.length(), to)` at the first occurrence
unfoldable pub replace_first : Bytes → Bytes → Bytes → Bytes
unfolding find
replace_first s from to = if is_empty from then s else elim (find s from) [
  | none ↦ s
  | some pos ↦ take pos s ++ (to ++ drop (pos + length from) s)
]

abbrev pub last_or : ℕ → Bytes → ℕ
last_or d [] = d
last_or d (c ∷ s) = last_or c s

abbrev is_quote : ℕ → Bool
is_quote c = c == b'\'' || c == b'"' || c == b'`'

unquote : Bytes → Bytes
unquote (first ∷ c ∷ s) =
    if is_quote first && first == last_or c s then take (length s) (c ∷ s) else first ∷ c ∷ s
unquote s = s

unfoldable pub normalize_table_name : Bytes → Bytes
unfolding trim unquote
normalize_table_name name = unquote (trim name)

normalize_runs :
    (normalize_table_name (codes " `a` ") ≡ codes "a")
    × (replace_first (codes "xaby") (codes "ab") (codes "") ≡ codes "xy")
    × (starts_with (codes "abc") (codes "ab") ≡ true)
unfolding normalize_table_name replace_first starts_with
normalize_runs = (refl, refl, refl)
