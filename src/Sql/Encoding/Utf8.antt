-- ===== src/Sql/Encoding/Utf8.antt =====
-- What `IsValidUTF8` accepts, and what `EncodeForUTF8` does to it.
use gh_ost_cpp.Base.{
  ltb, ◌==◌, if◌then◌else◌, Option-cases, length, take, drop, all, Bytes, ℕ, zero, suc, ◌+◌, ◌/◌,
  ◌%◌, ◌≤◌, ◌<◌, ◌≡◌, refl, ap, inl, inr, Bool, true, false, Option, none, some, List, [], ◌∷◌,
  ◌++◌, arith,
}
use gh_ost_cpp.Sql.Encoding.{following, encode_loop, encode_for_utf8, valid_loop, is_valid_utf8}

take-drop : (n : ℕ) (s : Bytes) → take n s ++ drop n s ≡ s
take-drop zero s = refl
take-drop (suc n) [] = refl
take-drop (suc n) (c ∷ s) = ap (◌∷◌ c) (take-drop n s)

length-drop-le : (n : ℕ) (s : Bytes) → length (drop n s) ≤ length s
length-drop-le zero s = omega arith
length-drop-le (suc n) [] = omega arith
length-drop-le (suc n) (c ∷ s) = omega (arith, length-drop-le n s)

-- More fuel than the text has bytes changes nothing.
valid_loop_fuel : (f : ℕ) (s : Bytes) → length s ≤ f → valid_loop f s ≡ valid_loop (suc f) s
unfolding valid_loop
valid_loop_fuel zero [] h = refl
valid_loop_fuel zero (c ∷ s) h = absurd (omega arith)
valid_loop_fuel (suc f) [] h = refl
valid_loop_fuel (suc f) (c ∷ s) h = elim (Option-cases (following c)) [
  | inl none_such ↦ ground arith
  | inr (n, e) ↦ ground (arith, valid_loop_fuel f (drop n s) (omega (arith, length-drop-le n s)))
]

valid_loop-encode_loop :
    (f : ℕ) (s : Bytes) → length s ≤ f → valid_loop f s ≡ true → encode_loop f s ≡ s
unfolding valid_loop encode_loop
valid_loop-encode_loop zero [] h v = refl
valid_loop-encode_loop zero (c ∷ s) h v = absurd (omega arith)
valid_loop-encode_loop (suc f) [] h v = refl
valid_loop-encode_loop (suc f) (c ∷ s) h v = elim (Option-cases (following c)) [
  | inl none_such ↦ ground arith
  | inr (n, e) ↦ ground (
    arith,
    valid_loop-encode_loop f (drop n s) (omega (arith, length-drop-le n s)),
    take-drop n s,
  )
]

-- The bytes that Unicode gives to a number below 2^21.
abbrev pub utf8 : ℕ → Bytes
utf8 n =
    if ltb n 0x80
    then n ∷ []
    else if ltb n 0x800
    then (0xC0 + n / 0x40) ∷ (0x80 + n % 0x40) ∷ []
    else if ltb n 0x10000
    then (0xE0 + n / 0x1000) ∷ (0x80 + n / 0x40 % 0x40) ∷ (0x80 + n % 0x40) ∷ []
    else (0xF0 + n / 0x40000)
      ∷ (0x80 + n / 0x1000 % 0x40)
      ∷ (0x80 + n / 0x40 % 0x40)
      ∷ (0x80 + n % 0x40)
      ∷ []

abbrev pub utf8_text : List ℕ → Bytes
utf8_text [] = []
utf8_text (n ∷ ns) = utf8 n ++ utf8_text ns

abbrev by_range : ℕ → Option ℕ
by_range c =
    if ltb c 0x80
    then some 0
    else if ltb c 0xC0
    then none
    else if ltb c 0xE0
    then some 1
    else if ltb c 0xF0
    then some 2
    else if ltb c 0xF8
    then some 3
    else none

abbrev same : Option ℕ → Option ℕ → Bool
same none none = true
same (some a) (some b) = a == b
same _ _ = false

part-lt : (n k : ℕ) → n / k % 0x40 < 64
part-lt n k = omega arith

abbrev pub FitUtf8 : List ℕ → Type 0
FitUtf8 ns = all (λ n. ltb n 0x200000) ns ≡ true

-- `EncodeForUTF8` leaves every text as it is that `IsValidUTF8` accepts.
pub encode_for_utf8-is_valid_utf8 : (s : Bytes) → is_valid_utf8 s ≡ true → encode_for_utf8 s ≡ s
unfolding is_valid_utf8 encode_for_utf8
encode_for_utf8-is_valid_utf8 s v = valid_loop-encode_loop (length s) s (omega arith) v
