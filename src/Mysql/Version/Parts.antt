-- ===== src/Mysql/Version/Parts.antt =====
-- The number that `ParseVersion` makes of the text of a version.
use gh_ost_cpp.Base.{
  ltb, ◌==◌, Bool-cases, all, any, all-append, any-append, Bytes, codes, ℕ, zero, suc, ◌+◌, ◌*◌,
  ◌/◌, ◌%◌, ◌<◌, ◌≡◌, refl, ap, ◌∙◌, inl, inr, Bool, true, false, not, ◌||◌, some, [], ◌∷◌, ◌++◌,
  append-nil, arith,
}
use gh_ost_cpp.Strings.Trim.{is_space, trim_self}
use gh_ost_cpp.Strings.Split.{split, split-cons, split_one}
use gh_ost_cpp.Strings.Number.{
  u64_mod, is_digit, decimal_fuel, to_string, to_string-has, to_string-head, to_string-spaces,
  parse_uint64-to_string,
}
use gh_ost_cpp.Mysql.Version.{version_part, parse_version}

abbrev is_version : ℕ → Bool
is_version c = is_digit c || c == 46

decimal_fuel-is_digit : (f n : ℕ) → all is_version (decimal_fuel f n) ≡ true
unfolding decimal_fuel
decimal_fuel-is_digit zero n = refl
decimal_fuel-is_digit (suc f) n = elim (Bool-cases (ltb n 10)) [
  | inl small ↦ rw small (ground arith)
  | inr large ↦
      rw
        (
          large,
          all-append is_version (decimal_fuel f (n / 10)) ((48 + n % 10) ∷ []),
          decimal_fuel-is_digit f (n / 10),
        )
        (ground arith)
]

to_string-is_version : (n : ℕ) → all is_version (to_string n) ≡ true
unfolding to_string
to_string-is_version n = decimal_fuel-is_digit (suc n) n

version_part-append :
    (s rest : Bytes) → all is_version s ≡ true → version_part (s ++ rest) ≡ s ++ version_part rest
unfolding version_part
version_part-append [] rest h = refl
version_part-append (c ∷ s) rest h = ground (arith, version_part-append s rest)

-- What stands behind the numbers: nothing, or a text that begins with neither a digit nor a dot.
abbrev pub is_suffix : Bytes → Bool
is_suffix [] = true
is_suffix (c ∷ s) = not (is_digit c || c == 46)

version_part-suffix : (rest : Bytes) → is_suffix rest ≡ true → version_part rest ≡ []
unfolding version_part
version_part-suffix [] h = refl
version_part-suffix (c ∷ s) h = ground arith

abbrev pub version_text : ℕ → ℕ → ℕ → Bytes
version_text major minor patch =
    to_string major ++ (codes "." ++ (to_string minor ++ (codes "." ++ to_string patch)))

version_text-is_version :
    (major minor patch : ℕ) → all is_version (version_text major minor patch) ≡ true
version_text-is_version major minor patch =
    rw
      (
        all-append is_version (to_string major) (46 ∷ (to_string minor ++ (46 ∷ to_string patch))),
        all-append is_version (to_string minor) (46 ∷ to_string patch),
        to_string-is_version major,
        to_string-is_version minor,
        to_string-is_version patch,
      )
      refl

version_text-spaces :
    (major minor patch : ℕ) → any is_space (version_text major minor patch) ≡ false
version_text-spaces major minor patch =
    rw
      (
        any-append is_space (to_string major) (46 ∷ (to_string minor ++ (46 ∷ to_string patch))),
        any-append is_space (to_string minor) (46 ∷ to_string patch),
        to_string-spaces major,
        to_string-spaces minor,
        to_string-spaces patch,
      )
      (unfold is_space in refl)

split-to_string : (n : ℕ) → split (to_string n) 46 ≡ to_string n ∷ []
split-to_string n =
    let (c, s, e, lo, hi) = to_string-head n in
    let h = to_string-has 46 n (inl (omega arith)) in rw e (split_one 46 c s (rw e at h))

split-version_text :
    (major minor patch : ℕ)
    → split (version_text major minor patch) 46
      ≡ to_string major ∷ to_string minor ∷ to_string patch ∷ []
split-version_text major minor patch =
    split-cons 46 (to_string major) _ (to_string-has 46 major (inl (omega arith)))
    ∙ ap (λ ps. to_string major ∷ ps)
        (split-cons 46 (to_string minor) _ (to_string-has 46 minor (inl (omega arith)))
          ∙ ap (λ ps. to_string minor ∷ ps) (split-to_string patch))

-- The version in front of a text, major, minor and patch level, becomes one number with two decimal
-- digits for each of the last two, if it has 64 bits: suffixes without blanks are passed over.
pub parse_version-version_text :
    (major minor patch : ℕ) (rest : Bytes)
    → any is_space rest ≡ false
    → is_suffix rest ≡ true
    → major * 10000 + minor * 100 + patch < u64_mod
    → parse_version (version_text major minor patch ++ rest)
      ≡ some (major * 10000 + minor * 100 + patch)
unfolding parse_version
parse_version-version_text major minor patch rest spaces suffix lt =
    let text = version_text major minor patch in
    let blanks : any is_space (text ++ rest) ≡ false =
      any-append is_space text rest ∙ rw (version_text-spaces major minor patch, spaces) refl in
    rw
      (
        trim_self (text ++ rest) blanks,
        version_part-append text rest (version_text-is_version major minor patch),
        version_part-suffix rest suffix,
        append-nil text,
        split-version_text major minor patch,
        parse_uint64-to_string major (omega arith),
        parse_uint64-to_string minor (omega arith),
        parse_uint64-to_string patch (omega arith),
      )
      (ground arith)
