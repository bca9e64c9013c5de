-- ===== src/Tests/Escapes.antt =====
-- Wildcards, JSON, pieces and UTF-8.
use gh_ost_cpp.Base.{all, Bytes, codes, ◌≡◌, refl, true, some}
use gh_ost_cpp.Strings.Split.{join}
use gh_ost_cpp.Strings.Wildcard.{matches_wildcard}
use gh_ost_cpp.Strings.Wildcard.Correct.{means, matches_wildcard-means}
use gh_ost_cpp.Strings.Json.{
  escape_for_json, unescape_from_json, unescape_from_json-escape_for_json,
}
use gh_ost_cpp.Strings.Edit.{split_string, replace_all}
use gh_ost_cpp.Strings.Edit.Pieces.{lacks, split_string_lem}

matches_wildcard-means_example :
    let str : Bytes = codes "mysql-bin.000003" in
    let pattern_text : Bytes = codes "*-b?n.*3" in
    matches_wildcard str pattern_text ≡ some (means pattern_text str)
matches_wildcard-means_example =
    matches_wildcard-means (codes "mysql-bin.000003") (codes "*-b?n.*3") refl

unescape_from_json-escape_for_json_example :
    let s : Bytes = codes "it's\n" in unescape_from_json (escape_for_json s) ≡ s
unescape_from_json-escape_for_json_example =
    unescape_from_json-escape_for_json (codes "it's\n") refl

split_string_lem_example :
    let s : Bytes = codes "a, b, c" in
    let d : Bytes = codes ", " in
    let to : Bytes = codes ";" in
    (all (lacks d) (split_string s d) ≡ true)
    × (join (split_string s d) d ≡ s)
    × (replace_all s d to ≡ join (split_string s d) to)
split_string_lem_example = split_string_lem (codes "a, b, c") (codes ", ") (codes ";") refl
