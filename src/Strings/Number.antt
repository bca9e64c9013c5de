-- ===== src/Strings/Number.antt =====
-- `ParseUInt64`, `ParseUInt32`, `ParseUInt16` and `ToString` of src/utils/string_utils.cpp, with the
-- standard library's `stoull`, `stoul` and `to_string`. `unsigned long` has 64 bits (LP64).
use gh_ost_cpp.Base.{
  ltb, leb, ◌==◌, if◌then◌else◌, Bool-cases, is_empty, any, any-append, Bytes, codes, ℕ, zero, suc,
  ◌+◌, ◌-◌, ◌*◌, ◌/◌, ◌%◌, ◌^◌, ◌≤◌, ◌<◌, ◌≡◌, refl, sym, ap, ◌∙◌, ◌⊎◌, inl, inr, Bool, true, false,
  ◌&&◌, ◌||◌, Option, none, some, [], ◌∷◌, ◌++◌, append-nil, append_assoc, arith,
}
use gh_ost_cpp.Strings.Trim.{is_space, trim_left, trim}

abbrev pub u64_mod : ℕ
u64_mod = 2 ^ 64

abbrev pub is_digit : ℕ → Bool
is_digit c = leb 48 c && leb c 57

-- The value of the digits in front, and what is left.
unfoldable pub read_digits : ℕ → Bytes → ℕ × Bytes
read_digits n [] = (n, [])
read_digits n (c ∷ s) =
    let later = read_digits (n * 10 + (c - 48)) s in if is_digit c then later else (n, c ∷ s)

-- `strtoull` behind the sign: no digit is `invalid_argument`, a value out of range `out_of_range`.
-- Both exceptions are `none`. A minus negates modulo 2^64.
magnitude : Bool → Bytes → Option (ℕ × Bytes)
unfolding read_digits
magnitude minus [] = none
magnitude minus (c ∷ s) =
    if is_digit c
    then (let (n, rest) = read_digits 0 (c ∷ s) in
        if ltb n u64_mod then some (if minus then (u64_mod - n) % u64_mod else n, rest) else none)
    else none

signed : Bytes → Option (ℕ × Bytes)
unfolding magnitude
signed [] = none
signed (c ∷ s) =
    if c == b'-'
    then magnitude true s
    else if c == b'+'
    then magnitude false s
    else magnitude false (c ∷ s)

-- `std::stoull(str, &pos)`, with the text behind `pos` in place of `pos`. `std::stoul` is the same.
unfoldable pub stoull : Bytes → Option (ℕ × Bytes)
unfolding trim_left signed
stoull s = signed (trim_left s)

-- The test on `pos`, shared by the functions.
abbrev accept : Option (ℕ × Bytes) → Option ℕ
accept none = none
accept (some (value, rest)) = if is_empty rest || is_empty (trim rest) then some value else none

unfoldable pub parse_uint64 : Bytes → Option ℕ
unfolding stoull trim
parse_uint64 s = accept (stoull s)

abbrev cast : ℕ → Option ℕ → Option ℕ
cast m none = none
cast m (some v) = some (v % m)

-- The cast to the narrow type comes before the test on `pos`, which does not look at the value.
unfoldable pub parse_uint32 : Bytes → Option ℕ
unfolding stoull trim
parse_uint32 s = cast (2 ^ 32) (accept (stoull s))

unfoldable pub parse_uint16 : Bytes → Option ℕ
unfolding stoull trim
parse_uint16 s = cast (2 ^ 16) (accept (stoull s))

-- Decimal digits; the fuel is more than the number.
unfoldable pub decimal_fuel : ℕ → ℕ → Bytes
decimal_fuel zero n = []
decimal_fuel (suc f) n =
    let front = decimal_fuel f (n / 10) in
    if ltb n 10 then (48 + n) ∷ [] else front ++ (48 + n % 10) ∷ []

-- `std::to_string`
unfoldable pub to_string : ℕ → Bytes
unfolding decimal_fuel
to_string n = decimal_fuel (suc n) n

to_string_runs : to_string 18446744073709551615 ≡ codes "18446744073709551615"
unfolding to_string
to_string_runs = refl

parse_uint64_runs :
    (parse_uint64 (codes " 42 ") ≡ some 42)
    × (parse_uint64 (codes "-1") ≡ some 18446744073709551615)
    × (parse_uint64 (codes "4x") ≡ none)
    × (parse_uint16 (codes "70000") ≡ some 4464)
unfolding parse_uint64 parse_uint16
parse_uint64_runs = (refl, refl, refl, refl)

read_digits-decimal_fuel :
    (f n : ℕ) (rest : Bytes) → n < f → read_digits 0 (decimal_fuel f n ++ rest) ≡ read_digits n rest
unfolding decimal_fuel
read_digits-decimal_fuel zero n rest h = elim h [ ]
read_digits-decimal_fuel (suc f) n rest h = elim (Bool-cases (ltb n 10)) [
  | inl small ↦ rw small (unfold read_digits in ground arith)
  | inr large ↦
      rw (large, append_assoc)
        (read_digits-decimal_fuel f (n / 10) ((48 + n % 10) ∷ rest) (ground arith)
          ∙ (unfold read_digits in ground arith))
]

-- The first byte of a decimal number is a digit.
decimal_fuel-head :
    (f n : ℕ) → n < f → (c : ℕ) × (s : Bytes) × (decimal_fuel f n ≡ c ∷ s) × (48 ≤ c) × (c ≤ 57)
unfolding decimal_fuel
decimal_fuel-head zero n h = elim h [ ]
decimal_fuel-head (suc f) n h = elim (Bool-cases (ltb n 10)) [
  | inl small ↦ rw small (48 + n, [], refl, omega arith, ground arith)
  | inr large ↦
      let (c, s, e, lo, hi) = decimal_fuel-head f (n / 10) (ground arith) in
      rw (large, e) (c, s ++ (48 + n % 10) ∷ [], refl, lo, hi)
]

stoull_digits :
    (c : ℕ) (s : Bytes) (n : ℕ) (rest : Bytes)
    → 48 ≤ c
    → c ≤ 57
    → read_digits 0 (c ∷ s) ≡ (n, rest)
    → n < u64_mod
    → stoull (c ∷ s) ≡ some (n, rest)
unfolding stoull
stoull_digits c s n rest lo hi r h = ground arith

pub to_string-head : (n : ℕ) → (c : ℕ) × (s : Bytes) × (to_string n ≡ c ∷ s) × (48 ≤ c) × (c ≤ 57)
unfolding to_string
to_string-head n = decimal_fuel-head (suc n) n (omega arith)

pub read_digits-to_string : (n : ℕ) → read_digits 0 (to_string n) ≡ (n, [])
unfolding to_string
read_digits-to_string n =
    ap (read_digits 0) (sym (append-nil (decimal_fuel (suc n) n)))
    ∙ read_digits-decimal_fuel (suc n) n [] (omega arith)
    ∙ (unfold read_digits in refl)

stoull-to_string : (n : ℕ) → n < u64_mod → stoull (to_string n) ≡ some (n, [])
stoull-to_string n h =
    let (c, s, e, lo, hi) = to_string-head n in
    rw e (stoull_digits c s n [] lo hi (rw e at (read_digits-to_string n)) h)

-- Every number of 64 bits is read back from its decimal digits.
pub parse_uint64-to_string : (n : ℕ) → n < u64_mod → parse_uint64 (to_string n) ≡ some n
unfolding parse_uint64
parse_uint64-to_string n h = rw (stoull-to_string n h)

-- `ParseUInt16` accepts any number of 64 bits, and wraps it: 70000 reads as 4464.
pub parse_uint16-to_string : (n : ℕ) → n < u64_mod → parse_uint16 (to_string n) ≡ some (n % 2 ^ 16)
unfolding parse_uint16
parse_uint16-to_string n h = rw (stoull-to_string n h)

-- Whatever the text, the narrow readers return numbers of their width.
pub parse_uint16-lt : (s : Bytes) {v : ℕ} → parse_uint16 s ≡ some v → v < 2 ^ 16
unfolding parse_uint16
parse_uint16-lt s h = ground arith

-- The digits of a number hold no delimiter that is no digit.
decimal_fuel-has : (d f n : ℕ) → (d < 48) ⊎ (57 < d) → any (λ c. c == d) (decimal_fuel f n) ≡ false
unfolding decimal_fuel
decimal_fuel-has d zero n h = refl
decimal_fuel-has d (suc f) n h = elim (Bool-cases (ltb n 10)) [
  | inl small ↦ rw small (ground arith)
  | inr large ↦ rw large (
      rw
        (
          any-append (λ c. c == d) (decimal_fuel f (n / 10)) ((48 + n % 10) ∷ []),
          decimal_fuel-has d f (n / 10) h,
        )
        (ground arith))
]

pub to_string-has : (d n : ℕ) → (d < 48) ⊎ (57 < d) → any (λ c. c == d) (to_string n) ≡ false
unfolding to_string
to_string-has d n h = decimal_fuel-has d (suc n) n h

decimal_fuel-spaces : (f n : ℕ) → any is_space (decimal_fuel f n) ≡ false
unfolding decimal_fuel
decimal_fuel-spaces zero n = refl
decimal_fuel-spaces (suc f) n = elim (Bool-cases (ltb n 10)) [
  | inl small ↦ rw small (unfold is_space in ground arith)
  | inr large ↦
      rw
        (
          large,
          any-append is_space (decimal_fuel f (n / 10)) ((48 + n % 10) ∷ []),
          decimal_fuel-spaces f (n / 10),
        )
        (unfold is_space in ground arith)
]

pub to_string-spaces : (n : ℕ) → any is_space (to_string n) ≡ false
unfolding to_string
to_string-spaces n = decimal_fuel-spaces (suc n) n
