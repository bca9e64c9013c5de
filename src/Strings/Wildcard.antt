-- ===== src/Strings/Wildcard.antt =====
-- `MatchesWildcard` of src/utils/string_utils.cpp.
pub mod Correct
use gh_ost_cpp.Base.{
  ◌==◌, length, drop, Bytes, codes, ℕ, zero, suc, ◌+◌, ◌*◌, ◌≡◌, refl, Bool, true, false, ◌&&◌,
  ◌||◌, Option, none, some, [], ◌∷◌,
}

-- What `star_pos` and `match_pos` hold once a star was met: the pattern behind the star, and the text
-- from `match_pos` on.
abbrev pub Back : Type 0
Back = Option (Bytes × Bytes)

-- `p < pattern.length() && (pattern[p] == '?' || pattern[p] == str[s])`, and the same with `'*'`
abbrev pub accepts : Bytes → ℕ → Bool
accepts [] d = false
accepts (c ∷ p) d = c == b'?' || c == d

abbrev pub at_star : Bytes → Bool
at_star [] = false
at_star (c ∷ p) = c == b'*'

-- the last two branches of the loop, with the loop to go on with
abbrev pub goes_back : Back → (Bytes → Bytes → Back → Option Bool) → Option Bool
goes_back none next = some false
goes_back (some (bp, bs)) next = next bp (drop 1 bs) (some (bp, drop 1 bs))

-- the second loop and the test behind it
abbrev pub only_stars : Bytes → Bool
only_stars [] = true
only_stars (c ∷ p) = c == b'*' && only_stars p

-- The first loop, on fuel; `none` where the fuel runs out.
unfoldable pub wildcard_loop : ℕ → Bytes → Bytes → Back → Option Bool
wildcard_loop zero p s back = none
wildcard_loop (suc f) p [] back = some (only_stars p)
wildcard_loop (suc f) p (d ∷ s) back = elim (accepts p d) [
  | true ↦ wildcard_loop f (drop 1 p) s back
  | false ↦ elim (at_star p) [
    | true ↦ wildcard_loop f (drop 1 p) (d ∷ s) (some (drop 1 p, d ∷ s))
    | false ↦ goes_back back (wildcard_loop f)
  ]
]

-- The fuel is more than the rounds of the loop: `Correct` shows it to be enough.
unfoldable pub matches_wildcard : Bytes → Bytes → Option Bool
unfolding wildcard_loop
matches_wildcard str pattern_text =
    wildcard_loop ((length str + 1) * (length pattern_text + 1)) pattern_text str none

-- In the second run a star of the text is taken for a byte that the pattern's star stands for.
runs :
    (matches_wildcard (codes "mysql-bin.000003") (codes "*-b?n.*3") ≡ some true)
    × (matches_wildcard (codes "*a") (codes "*") ≡ some false)
    × (matches_wildcard (codes "aab") (codes "a*c") ≡ some false)
unfolding matches_wildcard
runs = (refl, refl, refl)
