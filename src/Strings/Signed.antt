-- ===== src/Strings/Signed.antt =====
-- `ParseInt32`, `ParseInt64` and `ToString` of signed numbers of src/utils/string_utils.cpp, with the
-- standard library's `stoi`, `stoll` and `to_string`.
use gh_ost_cpp.Base.{
  ltb, leb, ◌==◌, if◌then◌else◌, is_empty, Bytes, ℕ, zero, suc, ◌^◌, ◌≤◌, ◌<◌, ◌≡◌, refl, ap, ◌∙◌,
  Bool, true, false, ◌||◌, Option, none, some, [], ◌∷◌, arith,
}
use gh_ost_cpp.Strings.Trim.{is_space, find_first_not, trim, trim_left}
use gh_ost_cpp.Strings.Number.{
  is_digit, read_digits, to_string, to_string-head, read_digits-to_string,
}

pub data ℤ : Type 0 where
  pos negsuc : ℕ → ℤ

-- the negative of a number
abbrev pub negated : ℕ → ℤ
negated zero = pos 0
negated (suc n) = negsuc n

-- A magnitude behind a sign, in the range below `bound`: no digit is `invalid_argument`, a value out
-- of range `out_of_range`. Both exceptions are `none`.
abbrev pub in_range : ℕ → Bool → ℕ × Bytes → Option (ℤ × Bytes)
in_range bound minus (n, rest) =
    if minus
    then (if leb n bound then some (negated n, rest) else none)
    else (if ltb n bound then some (pos n, rest) else none)

abbrev pub magnitude : ℕ → Bool → Bytes → Option (ℤ × Bytes)
magnitude bound minus [] = none
magnitude bound minus (c ∷ s) =
    if is_digit c then in_range bound minus (read_digits 0 (c ∷ s)) else none

abbrev pub signed : ℕ → Bytes → Option (ℤ × Bytes)
signed bound [] = none
signed bound (c ∷ s) =
    if c == b'-'
    then magnitude bound true s
    else if c == b'+'
    then magnitude bound false s
    else magnitude bound false (c ∷ s)

-- `std::stoi` and `std::stoll` of `str`, with the text behind `pos` in place of `pos`
unfoldable pub stoll : ℕ → Bytes → Option (ℤ × Bytes)
unfolding trim_left
stoll bound s = signed bound (trim_left s)

abbrev pub accept : Option (ℤ × Bytes) → Option ℤ
accept none = none
accept (some (value, rest)) = if is_empty rest || is_empty (trim rest) then some value else none

unfoldable pub parse_int32 : Bytes → Option ℤ
unfolding stoll
parse_int32 s = accept (stoll (2 ^ 31) s)

unfoldable pub parse_int64 : Bytes → Option ℤ
unfolding stoll
parse_int64 s = accept (stoll (2 ^ 63) s)

unfoldable pub int_to_string : ℤ → Bytes
int_to_string (pos n) = to_string n
int_to_string (negsuc n) = b'-' ∷ to_string (suc n)

-- The numbers of a type whose least number is `-bound`.
abbrev pub Fits : ℕ → ℤ → Type 0
Fits bound (pos n) = n < bound
Fits bound (negsuc n) = n < bound

trim_left_first : (c : ℕ) (s : Bytes) → is_space c ≡ false → trim_left (c ∷ s) ≡ c ∷ s
unfolding trim_left find_first_not
trim_left_first c s h = ground arith

magnitude_digits :
    (bound : ℕ) (minus : Bool) (c : ℕ) (s : Bytes) (n : ℕ)
    → 48 ≤ c
    → c ≤ 57
    → read_digits 0 (c ∷ s) ≡ (n, [])
    → magnitude bound minus (c ∷ s) ≡ in_range bound minus (n, [])
magnitude_digits bound minus c s n lo hi r =
    (let d : is_digit c ≡ true = ground arith in rw (d, r) refl)

signed_digits :
    (bound c : ℕ) (s : Bytes)
    → 48 ≤ c
    → c ≤ 57
    → signed bound (c ∷ s) ≡ magnitude bound false (c ∷ s)
signed_digits bound c s lo hi =
    (let m : (c == b'-') ≡ false = ground arith in
      let p : (c == b'+') ≡ false = ground arith in rw (m, p) refl)

magnitude-to_string :
    (bound : ℕ) (minus : Bool) (n : ℕ)
    → magnitude bound minus (to_string n) ≡ in_range bound minus (n, [])
magnitude-to_string bound minus n =
    let (c, s, e, lo, hi) = to_string-head n in
    rw e (magnitude_digits bound minus c s n lo hi (rw e at (read_digits-to_string n)))

signed-to_string : (bound n : ℕ) → signed bound (to_string n) ≡ magnitude bound false (to_string n)
signed-to_string bound n =
    let (c, s, e, lo, hi) = to_string-head n in rw e (signed_digits bound c s lo hi)

signed-int_to_string :
    (bound : ℕ) (z : ℤ) → Fits bound z → signed bound (int_to_string z) ≡ some (z, [])
unfolding int_to_string
signed-int_to_string bound (pos n) h =
    signed-to_string bound n ∙ magnitude-to_string bound false n ∙ ground arith
signed-int_to_string bound (negsuc n) h = magnitude-to_string bound true (suc n) ∙ ground arith

trim_left-int_to_string : (z : ℤ) → trim_left (int_to_string z) ≡ int_to_string z
unfolding int_to_string
trim_left-int_to_string (pos n) =
    let (c, s, e, lo, hi) = to_string-head n in
    rw e (trim_left_first c s (unfold is_space in ground arith))
trim_left-int_to_string (negsuc n) =
    trim_left_first b'-' (to_string (suc n)) (unfold is_space in refl)

stoll-int_to_string :
    (bound : ℕ) (z : ℤ) → Fits bound z → stoll bound (int_to_string z) ≡ some (z, [])
unfolding stoll
stoll-int_to_string bound z h =
    ap (signed bound) (trim_left-int_to_string z) ∙ signed-int_to_string bound z h

-- A number of 64 bits with a sign is read back from its text.
pub parse_int64-int_to_string : (z : ℤ) → Fits (2 ^ 63) z → parse_int64 (int_to_string z) ≡ some z
unfolding parse_int64
parse_int64-int_to_string z h = rw (stoll-int_to_string (2 ^ 63) z h) refl

-- A number of 32 bits with a sign is read back from its text.
pub parse_int32-int_to_string : (z : ℤ) → Fits (2 ^ 31) z → parse_int32 (int_to_string z) ≡ some z
unfolding parse_int32
parse_int32-int_to_string z h = rw (stoll-int_to_string (2 ^ 31) z h) refl
