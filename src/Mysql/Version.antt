-- ===== src/Mysql/Version.antt =====
-- `ParseVersion`, the tests of the version, and `ParseBinlogSequence` of src/mysql/utils.cpp. The version text
-- of a connection is a parameter.
pub mod Parts
use gh_ost_cpp.Base.{
  ltb, ◌==◌, if◌then◌else◌, length, get_elem?, drop, is_empty, Bytes, codes, ℕ, ◌+◌, ◌*◌, ◌%◌, Bool,
  ◌||◌, Option, none, some, List, [], ◌∷◌,
}
use gh_ost_cpp.Strings.Trim.{trim}
use gh_ost_cpp.Strings.Split.{split}
use gh_ost_cpp.Strings.Number.{u64_mod, is_digit, parse_uint64}
use gh_ost_cpp.Strings.Search.{contains_ignore_case}
use gh_ost_cpp.Binlog.Coordinates.{rfind}

unfoldable pub is_percona : Bytes → Bool
is_percona version = contains_ignore_case version (codes "percona")

unfoldable pub is_maria_db : Bytes → Bool
is_maria_db version = contains_ignore_case version (codes "mariadb")

-- the loop on the digits and dots at the start
unfoldable pub version_part : Bytes → Bytes
version_part [] = []
version_part (c ∷ s) = if is_digit c || c == 46 then c ∷ version_part s else []

abbrev pub or_zero : Option ℕ → ℕ
or_zero none = 0
or_zero (some n) = n

-- `parts.size() > i ? ParseUInt64(parts[i]).value_or(0) : 0`
abbrev pub part_number : ℕ → List Bytes → ℕ
part_number i parts = elim (get_elem? parts i) [ none ↦ 0 | some p ↦ or_zero (parse_uint64 p) ]

unfoldable pub parse_version : Bytes → Option ℕ
unfolding version_part
parse_version version =
    let parts = split (version_part (trim version)) 46 in
    if is_empty parts
    then none
    else some
        ((part_number 0 parts * 10000 + part_number 1 parts * 100 + part_number 2 parts) % u64_mod)

-- `ParseBinlogSequence`
unfoldable pub parse_binlog_sequence : Bytes → Option ℕ
parse_binlog_sequence file = elim (rfind 46 file) [
  | none ↦ none
  | some dot ↦ if ltb (dot + 1) (length file) then parse_uint64 (drop (dot + 1) file) else none
]

-- `Connection::GetBinlogSequence`
unfoldable pub get_binlog_sequence : Bytes → ℕ
unfolding parse_binlog_sequence
get_binlog_sequence file = or_zero (parse_binlog_sequence file)
