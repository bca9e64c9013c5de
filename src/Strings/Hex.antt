-- ===== src/Strings/Hex.antt =====
-- `ToHex`, `FromHex`, `HexToBytes` of src/utils/string_utils.cpp, and what they call of `std::stoul`.
use gh_ost_cpp.Base.{
  ltb, leb, ◌==◌, if◌then◌else◌, Bool-cases, Option-cases, all, Bytes, ℕ, zero, suc, ◌+◌, ◌-◌, ◌*◌,
  ◌/◌, ◌%◌, ◌<◌, ◌≡◌, refl, inl, inr, Bool, true, false, ◌&&◌, ◌||◌, Option, none, some, [], ◌∷◌,
  ◌++◌, arith,
}
use gh_ost_cpp.Strings.Trim.{is_space}
use gh_ost_cpp.Strings.Number.{u64_mod}

-- `std::hex` prints digits in lower case.
unfoldable pub hex_char : ℕ → ℕ
hex_char n = if ltb n 10 then 48 + n else 87 + n

unfoldable pub byte_to_hex : ℕ → Bytes
unfolding hex_char
byte_to_hex c = hex_char (c / 16) ∷ hex_char (c % 16) ∷ []

unfoldable pub to_hex : Bytes → Bytes
to_hex [] = []
to_hex (c ∷ s) = byte_to_hex c ++ to_hex s

abbrev pub digit_value : ℕ → Option ℕ
digit_value c =
    if leb b'0' c && leb c b'9'
    then some (c - b'0')
    else if leb b'a' c && leb c b'f'
    then some (c - 87)
    else if leb b'A' c && leb c b'F'
    then some (c - 55)
    else none

-- the digits in front
abbrev read_hex : ℕ → Bytes → ℕ
read_hex n [] = n
read_hex n (c ∷ s) = elim (digit_value c) [ none ↦ n | some v ↦ read_hex (n * 16 + v) s ]

abbrev first_digit : Bytes → Bool
first_digit [] = false
first_digit (c ∷ s) = elim (digit_value c) [ none ↦ false | some v ↦ true ]

-- `0x` counts only in front of a digit.
abbrev without_prefix : Bytes → Bytes
without_prefix (z ∷ x ∷ s) =
    if z == b'0' && (x == b'x' || x == b'X') && first_digit s then s else z ∷ x ∷ s
without_prefix s = s

abbrev magnitude : Bytes → Option ℕ
magnitude s = if first_digit (without_prefix s) then some (read_hex 0 (without_prefix s)) else none

abbrev negated : Option ℕ → Option ℕ
negated none = none
negated (some n) = some ((u64_mod - n) % u64_mod)

abbrev signed : Bytes → Option ℕ
signed [] = none
signed (c ∷ s) =
    if c == b'-'
    then negated (magnitude s)
    else if c == b'+'
    then magnitude s
    else magnitude (c ∷ s)

abbrev past_spaces : Bytes → Bytes
past_spaces [] = []
past_spaces (c ∷ s) = if is_space c then past_spaces s else c ∷ s

-- `std::stoul(s, nullptr, 16)` on a text of a few bytes; `none` where it throws.
unfoldable pub stoul_hex : Bytes → Option ℕ
unfolding is_space
stoul_hex s = signed (past_spaces s)

-- one byte in front of the later ones, unless one of them throws
abbrev pub push_byte : Option ℕ → Option Bytes → Option Bytes
push_byte (some n) (some later) = some ((n % 256) ∷ later)
push_byte _ _ = none

-- The loop of `FromHex`, which is that of `HexToBytes`.
unfoldable pub from_hex : Bytes → Option Bytes
unfolding stoul_hex
from_hex [] = some []
from_hex (a ∷ []) = push_byte (stoul_hex (a ∷ [])) (some [])
from_hex (a ∷ b ∷ s) = push_byte (stoul_hex (a ∷ b ∷ [])) (from_hex s)

-- `std::string` and `std::vector<uint8_t>` hold bytes.
abbrev pub AreBytes : Bytes → Type 0
AreBytes s = all (λ c. ltb c 256) s ≡ true

unfoldable pub all_below : ℕ → (ℕ → Bool) → Bool
all_below zero p = true
all_below (suc n) p = p n && all_below n p

pub all_below_lem : (n : ℕ) (p : ℕ → Bool) (x : ℕ) → all_below n p ≡ true → x < n → p x ≡ true
unfolding all_below
all_below_lem zero p x h lt = absurd (omega arith)
all_below_lem (suc n) p x h lt = elim (Bool-cases (x == n)) [
  | inl last ↦ ground arith
  | inr other ↦ all_below_lem n p x (ground arith) (ground arith)
]

abbrev reads_back : ℕ → Bool
reads_back c = elim (stoul_hex (byte_to_hex c)) [ none ↦ false | some n ↦ n == c ]

every_byte_reads_back : all_below 256 reads_back ≡ true
unfolding all_below stoul_hex byte_to_hex
every_byte_reads_back = refl

stoul_hex-byte_to_hex : (c : ℕ) → c < 256 → stoul_hex (byte_to_hex c) ≡ some c
stoul_hex-byte_to_hex c h = elim (Option-cases (stoul_hex (byte_to_hex c))) [
  | inl e ↦ ground (arith, all_below_lem 256 reads_back c every_byte_reads_back h)
  | inr (n, e) ↦ ground (arith, all_below_lem 256 reads_back c every_byte_reads_back h)
]

from_hex-cons :
    (c : ℕ) (s : Bytes)
    → from_hex (byte_to_hex c ++ s) ≡ push_byte (stoul_hex (byte_to_hex c)) (from_hex s)
unfolding from_hex byte_to_hex
from_hex-cons c s = refl

-- Bytes are read back from their hexadecimal digits.
pub from_hex-to_hex : (s : Bytes) → AreBytes s → from_hex (to_hex s) ≡ some s
unfolding to_hex
from_hex-to_hex [] h = unfold from_hex in refl
from_hex-to_hex (c ∷ s) h =
    rw
      (
        from_hex-cons c (to_hex s),
        stoul_hex-byte_to_hex c (ground arith),
        from_hex-to_hex s (ground arith),
      )
      (ground arith)
