-- ===== src/Sql/Query.antt =====
-- `SQLParser` of src/sql/parser.cpp: the kinds of statements and their tables.
use gh_ost_cpp.Base.{if◌then◌else◌, Bytes, codes, ℕ, Bool, ◌||◌, Option, none, some, List, [], ◌∷◌}
use gh_ost_cpp.Strings.Trim.{trim}
use gh_ost_cpp.Strings.Pattern.{Pattern, search, then_, some_spaces, word}
use gh_ost_cpp.Sql.Parser.{table_pattern}
use gh_ost_cpp.Strings.Search.{to_upper, starts_with}

abbrev pub word_first : Bytes → Bytes → Bool
word_first word query = starts_with (to_upper (trim query)) word

unfoldable pub is_select : Bytes → Bool
is_select query = word_first (codes "SELECT") query

unfoldable pub is_insert : Bytes → Bool
is_insert query = word_first (codes "INSERT") query

unfoldable pub is_update : Bytes → Bool
is_update query = word_first (codes "UPDATE") query

unfoldable pub is_delete : Bytes → Bool
is_delete query = word_first (codes "DELETE") query

unfoldable pub is_ddl : Bytes → Bool
is_ddl query =
    word_first (codes "CREATE") query
    || word_first (codes "ALTER") query
    || word_first (codes "DROP") query
    || word_first (codes "TRUNCATE") query
    || word_first (codes "RENAME") query

-- the pattern of a name behind words, each given by its first letter and the others
abbrev pub name_behind : List (ℕ × Bytes) → Pattern
unfolding table_pattern
name_behind [] = table_pattern
name_behind ((c, w) ∷ ws) = then_ (word c w) (then_ some_spaces (name_behind ws))

abbrev pub first_group : Option (List Bytes) → Option Bytes
first_group (some (name ∷ _)) = some name
first_group _ = none

unfoldable pub extract_table_name : Bytes → Option Bytes
unfolding is_select is_insert is_update is_delete
extract_table_name query =
    if is_select query
    then first_group (search (name_behind ((b'F', codes "ROM") ∷ [])) query)
    else if is_insert query
    then first_group (search (name_behind ((b'I', codes "NSERT") ∷ (b'I', codes "NTO") ∷ [])) query)
    else if is_update query
    then first_group (search (name_behind ((b'U', codes "PDATE") ∷ [])) query)
    else if is_delete query
    then first_group (search (name_behind ((b'D', codes "ELETE") ∷ (b'F', codes "ROM") ∷ [])) query)
    else none
