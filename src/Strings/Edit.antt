-- ===== src/Strings/Edit.antt =====
-- Splitting and replacing at a string, padding and parts of a text in src/utils/string_utils.cpp.
pub mod Pieces
use gh_ost_cpp.Base.{
  leb, ◌==◌, if◌then◌else◌, length, take, drop, replicate, is_empty, Bytes, codes, ℕ, zero, suc,
  ◌+◌, ◌-◌, min, Bool, ◌&&◌, ◌||◌, Option, none, some, List, [], ◌∷◌, ◌++◌, map,
}
use gh_ost_cpp.Strings.Quote.{quote_identifier}
use gh_ost_cpp.Strings.Split.{split}
use gh_ost_cpp.Strings.Search.{find, begins, starts_with, ends_with, to_lower, to_upper}

-- The loop of `Split` at a string, on fuel, over the text from `start` on.
unfoldable pub split_string_loop : ℕ → Bytes → Bytes → List Bytes
split_string_loop zero delimiter s = s ∷ []
split_string_loop (suc f) delimiter s = elim (find s delimiter) [
  | none ↦ s ∷ []
  | some end ↦ take end s ∷ split_string_loop f delimiter (drop (end + length delimiter) s)
]

unfoldable pub split_string : Bytes → Bytes → List Bytes
unfolding split_string_loop
split_string s delimiter =
    if is_empty delimiter then map (λ c. c ∷ []) s else split_string_loop (length s) delimiter s

-- The loop of `ReplaceAll`, on fuel, over the text from `pos` on.
unfoldable pub replace_all_loop : ℕ → Bytes → Bytes → Bytes → Bytes
replace_all_loop zero from to s = s
replace_all_loop (suc f) from to s = elim (find s from) [
  | none ↦ s
  | some pos ↦ take pos s ++ (to ++ replace_all_loop f from to (drop (pos + length from) s))
]

unfoldable pub replace_all : Bytes → Bytes → Bytes → Bytes
unfolding replace_all_loop
replace_all s from to = if is_empty from then s else replace_all_loop (length s) from to s

-- `rfind`: the last place at which the text goes on with `t`
unfoldable pub rfind : Bytes → Bytes → Option ℕ
unfolding begins
rfind [] t = if is_empty t then some 0 else none
rfind (c ∷ s) t = elim (rfind s t) [
  | some i ↦ some (suc i)
  | none ↦ if begins (c ∷ s) t then some 0 else none
]

unfoldable pub replace_last : Bytes → Bytes → Bytes → Bytes
unfolding rfind
replace_last s from to = if is_empty from then s else elim (rfind s from) [
  | none ↦ s
  | some pos ↦ take pos s ++ (to ++ drop (pos + length from) s)
]

unfoldable pub pad_left : Bytes → ℕ → ℕ → Bytes
pad_left s len pad = if leb len (length s) then s else replicate (len - length s) pad ++ s

unfoldable pub pad_right : Bytes → ℕ → ℕ → Bytes
pad_right s len pad = if leb len (length s) then s else s ++ replicate (len - length s) pad

abbrev repeat_loop : ℕ → Bytes → Bytes → Bytes
repeat_loop zero s result = result
repeat_loop (suc n) s result = repeat_loop n s (result ++ s)

unfoldable pub repeat : Bytes → ℕ → Bytes
repeat s count = if count == 0 || is_empty s then [] else repeat_loop count s []

-- `npos` is `none`
unfoldable pub substring : Bytes → ℕ → Option ℕ → Bytes
substring s start len =
    if leb (length s) start
    then []
    else elim len [ none ↦ drop start s | some n ↦ take n (drop start s) ]

unfoldable pub take_chars : Bytes → ℕ → Bytes
take_chars s n = take (min n (length s)) s

unfoldable pub drop_chars : Bytes → ℕ → Bytes
drop_chars s n = if leb (length s) n then [] else drop n s

unfoldable pub capitalize : Bytes → Bytes
capitalize [] = []
capitalize (c ∷ s) = to_upper (c ∷ []) ++ to_lower s

-- the bytes in front of the line ends at the end of a line
abbrev without_line_ends : Bytes → Bytes
without_line_ends [] = []
without_line_ends (c ∷ s) =
    let rest = without_line_ends s in if is_empty rest && (c == 10 || c == 13) then [] else c ∷ rest

unfoldable pub split_lines : Bytes → List Bytes
split_lines s = map without_line_ends (split s 10)

unfoldable pub starts_with_ignore_case : Bytes → Bytes → Bool
starts_with_ignore_case s prefix = starts_with (to_lower s) (to_lower prefix)

unfoldable pub ends_with_ignore_case : Bytes → Bytes → Bool
ends_with_ignore_case s suffix = ends_with (to_lower s) (to_lower suffix)

unfoldable pub combine_database_table : Bytes → Bytes → Bytes
combine_database_table database table =
    quote_identifier database b'`' ++ (codes "." ++ quote_identifier table b'`')
