-- ===== src/Strings/Json.antt =====
-- `EscapeForJSON` and `UnescapeFromJSON` of src/utils/string_utils.cpp.
use gh_ost_cpp.Base.{
  ltb, leb, ◌==◌, if◌then◌else◌, Bool-cases, Option-cases, length, take, drop, Bytes, ℕ, zero, suc,
  ◌+◌, ◌%◌, ◌≤◌, ◌<◌, ◌≡◌, refl, ap, ◌∙◌, inl, inr, Bool, true, false, ◌&&◌, Option, none, some, [],
  ◌∷◌, ◌++◌, arith,
}
use gh_ost_cpp.Strings.Hex.{all_below, all_below_lem, byte_to_hex, stoul_hex, AreBytes}

-- `c` and the byte that stands for it behind a backslash, where there is one
abbrev pub letter_of : ℕ → Option ℕ
letter_of c =
    if c == b'"'
    then some b'"'
    else if c == b'\\'
    then some b'\\'
    else if c == 10
    then some b'n'
    else if c == 13
    then some b'r'
    else if c == 9
    then some b't'
    else if c == 8
    then some b'b'
    else if c == 12
    then some b'f'
    else none

unfoldable pub escape_json_char : ℕ → Bytes
escape_json_char c = elim (letter_of c) [
  | some letter ↦ b'\\' ∷ letter ∷ []
  | none ↦ if ltb c 32 then b'\\' ∷ b'u' ∷ b'0' ∷ b'0' ∷ byte_to_hex c else c ∷ []
]

unfoldable pub escape_for_json : Bytes → Bytes
unfolding escape_json_char
escape_for_json [] = []
escape_for_json (c ∷ s) = escape_json_char c ++ escape_for_json s

abbrev pub char_of : ℕ → Option ℕ
char_of letter =
    if letter == b'"'
    then some b'"'
    else if letter == b'\\'
    then some b'\\'
    else if letter == b'n'
    then some 10
    else if letter == b'r'
    then some 13
    else if letter == b't'
    then some 9
    else if letter == b'b'
    then some 8
    else if letter == b'f'
    then some 12
    else none

-- `static_cast<char>(code)`, or the backslash where `stoul` throws
abbrev char_or_backslash : Option ℕ → ℕ
char_or_backslash none = b'\\'
char_or_backslash (some code) = code % 256

-- behind a backslash: the byte that it makes, and what is left
abbrev pub behind_backslash : Bytes → ℕ × Bytes
behind_backslash [] = (b'\\', [])
behind_backslash (next ∷ s) = elim (char_of next) [
  | some c ↦ (c, s)
  | none ↦
      if next == b'u' && leb 4 (length s)
      then (char_or_backslash (stoul_hex (take 4 s)), drop 4 s)
      else (b'\\', next ∷ s)
]

unfoldable pub unescape_turn : ℕ → Bytes → ℕ × Bytes
unescape_turn c s = if c == b'\\' then behind_backslash s else (c, s)

-- The loop, on fuel: each round makes one byte and reads one or more.
unfoldable pub unescape_loop : ℕ → Bytes → Bytes
unfolding unescape_turn
unescape_loop zero s = []
unescape_loop (suc f) [] = []
unescape_loop (suc f) (c ∷ s) = let (d, rest) = unescape_turn c s in d ∷ unescape_loop f rest

unfoldable pub unescape_from_json : Bytes → Bytes
unfolding unescape_loop
unescape_from_json s = unescape_loop (length s) s

length-drop-le : (n : ℕ) (s : Bytes) → length (drop n s) ≤ length s
length-drop-le zero s = omega arith
length-drop-le (suc n) [] = omega arith
length-drop-le (suc n) (c ∷ s) = omega (arith, length-drop-le n s)

unescape_turn-le : (c : ℕ) (s : Bytes) → length (unescape_turn c s).1 ≤ length s
unfolding unescape_turn
unescape_turn-le c [] = ground arith
unescape_turn-le c (next ∷ s) = ground (arith, length-drop-le 4 s)

-- More fuel than the text has bytes changes nothing: the fuel of `unescape_from_json` is enough.
pub unescape_loop_fuel :
    (f : ℕ) (s : Bytes) → length s ≤ f → unescape_loop f s ≡ unescape_loop (suc f) s
unfolding unescape_loop
unescape_loop_fuel zero [] h = refl
unescape_loop_fuel zero (c ∷ s) h = absurd (omega arith)
unescape_loop_fuel (suc f) [] h = refl
unescape_loop_fuel (suc f) (c ∷ s) h =
    ap (λ t. (unescape_turn c s).0 ∷ t)
      (unescape_loop_fuel f (unescape_turn c s).1 (omega (arith, unescape_turn-le c s)))

abbrev unicode_reads_back : ℕ → Bool
unicode_reads_back c = elim (stoul_hex (b'0' ∷ b'0' ∷ byte_to_hex c)) [
  | none ↦ false
  | some n ↦ n == c
]

every_control_reads_back : all_below 32 unicode_reads_back ≡ true
unfolding all_below stoul_hex byte_to_hex
every_control_reads_back = refl

stoul_hex-control : (c : ℕ) → c < 32 → stoul_hex (b'0' ∷ b'0' ∷ byte_to_hex c) ≡ some c
stoul_hex-control c h = elim (Option-cases (stoul_hex (b'0' ∷ b'0' ∷ byte_to_hex c))) [
  | inl e ↦ ground (arith, all_below_lem 32 unicode_reads_back c every_control_reads_back h)
  | inr (n, e) ↦ ground (arith, all_below_lem 32 unicode_reads_back c every_control_reads_back h)
]

take-byte_to_hex :
    (c : ℕ) (s : Bytes)
    → (take 2 (byte_to_hex c ++ s) ≡ byte_to_hex c)
      × (drop 2 (byte_to_hex c ++ s) ≡ s)
      × (length (byte_to_hex c ++ s) ≡ 2 + length s)
unfolding byte_to_hex
take-byte_to_hex c s = (refl, refl, omega arith)

behind_backslash-control :
    (c : ℕ) (s : Bytes)
    → c < 32
    → behind_backslash (b'u' ∷ b'0' ∷ b'0' ∷ (byte_to_hex c ++ s)) ≡ (c, s)
behind_backslash-control c s h = ground (arith, take-byte_to_hex c s, stoul_hex-control c)

-- One escaped byte is read as that byte.
unescape_turn-char :
    (c : ℕ) (s : Bytes)
    → c < 256
    → (d : ℕ) × (t : Bytes) × (escape_json_char c ++ s ≡ d ∷ t) × (unescape_turn d t ≡ (c, s))
unfolding unescape_turn escape_json_char
unescape_turn-char c s h = elim (Option-cases (letter_of c)) [
  | inl none_such ↦ elim (Bool-cases (ltb c 32)) [
    | inl control ↦ (
      b'\\',
      b'u' ∷ b'0' ∷ b'0' ∷ (byte_to_hex c ++ s),
      ground arith,
      behind_backslash-control c s (ground arith),
    )
    | inr plain ↦ (c, s, ground arith, ground arith)
  ]
  | inr (letter, found) ↦ (b'\\', letter ∷ s, ground arith, ground arith)
]

unescape_loop-escape_for_json :
    (s : Bytes) (f : ℕ)
    → AreBytes s
    → length (escape_for_json s) ≤ f
    → unescape_loop f (escape_for_json s) ≡ s
unfolding unescape_loop escape_for_json
unescape_loop-escape_for_json [] zero a h = refl
unescape_loop-escape_for_json [] (suc f) a h = refl
unescape_loop-escape_for_json (c ∷ s) zero a h =
    let (d, t, e, turn) = unescape_turn-char c (escape_for_json s) (ground arith) in
    absurd (omega (arith, ap length e))
unescape_loop-escape_for_json (c ∷ s) (suc f) a h =
    let (d, t, e, turn) = unescape_turn-char c (escape_for_json s) (ground arith) in
    let shorter : length (escape_for_json s) ≤ f =
      omega (arith, ap length e, unescape_turn-le d t, ap (λ (r : ℕ × Bytes). length r.1) turn) in
    ap (unescape_loop (suc f)) e
    ∙ ap (λ (r : ℕ × Bytes). r.0 ∷ unescape_loop f r.1) turn
    ∙ ap (◌∷◌ c) (unescape_loop-escape_for_json s f (ground arith) shorter)

-- Every text of bytes is read back from its escaped form.
pub unescape_from_json-escape_for_json :
    (s : Bytes) → AreBytes s → unescape_from_json (escape_for_json s) ≡ s
unfolding unescape_from_json
unescape_from_json-escape_for_json s a =
    unescape_loop-escape_for_json s (length (escape_for_json s)) a (omega arith)
