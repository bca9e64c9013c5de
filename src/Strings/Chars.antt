-- ===== src/Strings/Chars.antt =====
-- `Trim` of given characters, and the searches without regard to case or of one character, of
-- src/utils/string_utils.cpp.
use gh_ost_cpp.Base.{
  ◌==◌, if◌then◌else◌, drop, any, Bytes, codes, ℕ, suc, ◌-◌, Bool, Option, none, some, [],
}
use gh_ost_cpp.Strings.Trim.{find_first_not, find_last_not, substr}
use gh_ost_cpp.Strings.Search.{find, to_lower}

-- `end - start + 1`, where `end` is found whenever `start` is
abbrev pub between : Bytes → ℕ → Option ℕ → Bytes
between s start none = drop start s
between s start (some last) = substr s start (suc last - start)

unfoldable pub trim_chars : Bytes → Bytes → Bytes
unfolding find_first_not find_last_not
trim_chars s chars = elim (find_first_not (λ c. any (λ x. x == c) chars) s) [
  | none ↦ []
  | some start ↦ between s start (find_last_not (λ c. any (λ x. x == c) chars) s)
]

unfoldable pub trim_char : Bytes → ℕ → Bytes
unfolding find_first_not find_last_not
trim_char s ch = elim (find_first_not (λ c. c == ch) s) [
  | none ↦ []
  | some start ↦ between s start (find_last_not (λ c. c == ch) s)
]

unfoldable pub contains_char : Bytes → ℕ → Bool
contains_char s ch = any (λ c. c == ch) s

unfoldable pub find_ignore_case : Bytes → Bytes → Option ℕ
find_ignore_case s t = find (to_lower s) (to_lower t)

unfoldable pub bool_to_string : Bool → Bytes
bool_to_string value = if value then codes "true" else codes "false"
