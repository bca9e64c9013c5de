-- ===== src/Sql/Encoding.antt =====
-- `Encoding` of include/sql/encoding.hpp and src/sql/encoding.cpp.
pub mod Utf8
use Prim.Native.Nat.{bit_and}
use gh_ost_cpp.Base.{
  ltb, leb, ◌==◌, if◌then◌else◌, length, take, drop, is_empty, all, Bytes, codes, bytes_eq, ℕ, zero,
  suc, ◌≡◌, refl, Bool, true, false, not, Option, none, some, [], ◌∷◌, ◌++◌,
}
use gh_ost_cpp.Strings.Search.{to_lower}
use gh_ost_cpp.Strings.Quote.{escape_for_sql}
use gh_ost_cpp.Strings.Json.{unescape_from_json}

-- how many bytes are to follow a first byte; `none` for a byte that is no first byte
unfoldable pub following : ℕ → Option ℕ
following c =
    if ltb c 0x80
    then some 0
    else if bit_and c 0xE0 == 0xC0
    then some 1
    else if bit_and c 0xF0 == 0xE0
    then some 2
    else if bit_and c 0xF8 == 0xF0
    then some 3
    else none

unfoldable pub is_continuation : ℕ → Bool
is_continuation c = bit_and c 0xC0 == 0x80

-- The loop of `EncodeForUTF8`, on fuel. A first byte that has too few bytes behind it is dropped alone.
unfoldable pub encode_loop : ℕ → Bytes → Bytes
encode_loop zero s = []
encode_loop (suc f) [] = []
encode_loop (suc f) (c ∷ s) = elim (following c) [
  | none ↦ encode_loop f s
  | some n ↦ elim (leb n (length s)) [
    | true ↦ c ∷ (take n s ++ encode_loop f (drop n s))
    | false ↦ encode_loop f s
  ]
]

unfoldable pub encode_for_utf8 : Bytes → Bytes
unfolding encode_loop following
encode_for_utf8 s = encode_loop (length s) s

abbrev pub decode_from_utf8 : Bytes → Bytes
decode_from_utf8 s = s

-- The loop of `IsValidUTF8`, on fuel.
unfoldable pub valid_loop : ℕ → Bytes → Bool
valid_loop zero s = is_empty s
valid_loop (suc f) [] = true
valid_loop (suc f) (c ∷ s) = elim (following c) [
  | none ↦ false
  | some n ↦
      if ltb (length s) n
      then false
      else if not (all is_continuation (take n s))
      then false
      else valid_loop f (drop n s)
]

unfoldable pub is_valid_utf8 : Bytes → Bool
unfolding valid_loop following is_continuation
is_valid_utf8 s = valid_loop (length s) s

abbrev by_name : Bytes → Option ℕ
by_name lower =
    if bytes_eq lower (codes "utf8mb4")
    then some 255
    else if bytes_eq lower (codes "utf8")
    then some 33
    else if bytes_eq lower (codes "latin1")
    then some 8
    else if bytes_eq lower (codes "binary")
    then some 63
    else none

unfoldable pub get_charset_id : Bytes → Option ℕ
get_charset_id charset_name = by_name (to_lower charset_name)

unfoldable pub get_charset_by_id : ℕ → Bytes
get_charset_by_id charset_id =
    if charset_id == 255
    then codes "utf8mb4"
    else if charset_id == 33
    then codes "utf8"
    else if charset_id == 8
    then codes "latin1"
    else if charset_id == 63
    then codes "binary"
    else []

unfoldable pub default_collation_for_charset : Bytes → Bytes
default_collation_for_charset charset =
    let lower = to_lower charset in
    if bytes_eq lower (codes "utf8mb4")
    then codes "utf8mb4_general_ci"
    else if bytes_eq lower (codes "utf8")
    then codes "utf8_general_ci"
    else if bytes_eq lower (codes "latin1")
    then codes "latin1_swedish_ci"
    else if bytes_eq lower (codes "binary")
    then codes "binary"
    else []

unfoldable pub encode_string : Bytes → Bytes
unfolding escape_for_sql
encode_string str = escape_for_sql str

unfoldable pub decode_string : Bytes → Bytes
unfolding unescape_from_json
decode_string encoded = unescape_from_json encoded

-- a text and a vector of bytes are the same list here
abbrev pub string_to_bytes : Bytes → Bytes
string_to_bytes str = str

abbrev pub bytes_to_string : Bytes → Bytes
bytes_to_string bytes = bytes

-- An apostrophe comes back doubled.
decode_string_runs : decode_string (encode_string (codes "it's")) ≡ codes "it''s"
unfolding decode_string encode_string
decode_string_runs = refl
