-- ===== src/Strings/Trim.antt =====
-- `Trim`, `TrimLeft`, `TrimRight` and `IsBlank` of src/utils/string_utils.cpp, and what they call of
-- `std::string`.
use gh_ost_cpp.Base.{
  ◌==◌, if◌then◌else◌, Bool-cases, Option-cases, take, drop, is_empty, all, any, Bytes, ℕ, suc, ◌-◌,
  ◌≡◌, refl, ap, ◌∙◌, ◌≢◌, inl, inr, Bool, true, false, ◌||◌, Option, none, some, [], ◌∷◌, ◌++◌,
  arith,
}

-- the bytes of " \t\n\r\f\v"
unfoldable pub is_space : ℕ → Bool
is_space c = c == 32 || c == 9 || c == 10 || c == 13 || c == 12 || c == 11

-- `none` stands for `npos`.
unfoldable pub find_first_not : (ℕ → Bool) → Bytes → Option ℕ
find_first_not p [] = none
find_first_not p (c ∷ s) =
    let later = find_first_not p s in
    if p c then elim later [ none ↦ none | some i ↦ some (suc i) ] else some 0

unfoldable pub find_last_not : (ℕ → Bool) → Bytes → Option ℕ
find_last_not p [] = none
find_last_not p (c ∷ s) = elim (find_last_not p s) [
  | some i ↦ some (suc i)
  | none ↦ if p c then none else some 0
]

-- `s.substr(pos, count)` at a `pos` within `s`
abbrev pub substr : Bytes → ℕ → ℕ → Bytes
substr s pos count = take count (drop pos s)

unfoldable pub trim_left : Bytes → Bytes
unfolding find_first_not is_space
trim_left s = elim (find_first_not is_space s) [ none ↦ [] | some start ↦ drop start s ]

unfoldable pub trim_right : Bytes → Bytes
unfolding find_last_not is_space
trim_right s = elim (find_last_not is_space s) [ none ↦ [] | some last ↦ substr s 0 (suc last) ]

-- `end - start + 1` with an `end` that may be `npos`, which reads to the end
trim_span : Bytes → ℕ → Option ℕ → Bytes
trim_span s start none = drop start s
trim_span s start (some last) = substr s start (suc last - start)

unfoldable pub trim : Bytes → Bytes
unfolding find_first_not find_last_not is_space trim_span
trim s = elim (find_first_not is_space s) [
  | none ↦ []
  | some start ↦ trim_span s start (find_last_not is_space s)
]

unfoldable pub is_blank : Bytes → Bool
is_blank s = is_empty (trim s)

-- The searches as recursions over the text.
abbrev drop_spaces : Bytes → Bytes
drop_spaces [] = []
drop_spaces (c ∷ s) = if is_space c then drop_spaces s else c ∷ s

abbrev cons_unless : ℕ → Bytes → Bytes
cons_unless c [] = if is_space c then [] else c ∷ []
cons_unless c (d ∷ s) = c ∷ d ∷ s

abbrev drop_last_spaces : Bytes → Bytes
drop_last_spaces [] = []
drop_last_spaces (c ∷ s) = cons_unless c (drop_last_spaces s)

trim_left-eq : (s : Bytes) → trim_left s ≡ drop_spaces s
unfolding trim_left
trim_left-eq [] = refl
trim_left-eq (c ∷ s) = ground (arith, trim_left-eq s)

trim_right-eq : (s : Bytes) → trim_right s ≡ drop_last_spaces s
unfolding trim_right
trim_right-eq [] = refl
trim_right-eq (c ∷ s) = ground (arith, trim_right-eq s)

find_last_not-ne-none :
    (s : Bytes) {i : ℕ} → find_first_not is_space s ≡ some i → find_last_not is_space s ≢ none
unfolding find_first_not find_last_not
find_last_not-ne-none [] h e = cc
find_last_not-ne-none (c ∷ s) h e = elim (Option-cases (find_first_not is_space s)) [
  | inl n ↦ ground arith
  | inr (i, found) ↦ ground (arith, find_last_not-ne-none s found)
]

trim-eq : (s : Bytes) → trim s ≡ drop_last_spaces (drop_spaces s)
unfolding trim trim_right
trim-eq [] = refl
trim-eq (c ∷ s) = elim (Bool-cases (is_space c)) [
  | inl space ↦ ground (arith, trim-eq s, λ (i : ℕ). find_last_not-ne-none s {i = i})
  | inr other ↦ ground (arith, trim_right-eq (c ∷ s))
]

drop_spaces-split : (s : Bytes) → (l : Bytes) × (s ≡ l ++ drop_spaces s) × (all is_space l ≡ true)
drop_spaces-split [] = ([], refl, refl)
drop_spaces-split (c ∷ s) = elim (Bool-cases (is_space c)) [
  | inl space ↦ let (l, e, h) = drop_spaces-split s in (c ∷ l, rw space (ap (◌∷◌ c) e), rw space h)
  | inr other ↦ ([], rw other, refl)
]

drop_spaces-first : (s : Bytes) (c : ℕ) (m : Bytes) → drop_spaces s ≡ c ∷ m → is_space c ≡ false
drop_spaces-first [] c m h = cc
drop_spaces-first (d ∷ s) c m h = ground (arith, drop_spaces-first s c m)

drop_last_spaces-split :
    (s : Bytes) → (r : Bytes) × (s ≡ drop_last_spaces s ++ r) × (all is_space r ≡ true)
drop_last_spaces-split [] = ([], refl, refl)
drop_last_spaces-split (c ∷ s) =
    let (r, e, h) = drop_last_spaces-split s in step (drop_last_spaces s) r e h
  where
    step :
        (t r : Bytes)
        → s ≡ t ++ r
        → all is_space r ≡ true
        → (q : Bytes) × (c ∷ s ≡ cons_unless c t ++ q) × (all is_space q ≡ true)
    step (d ∷ t) r e h = (r, ap (◌∷◌ c) e, h)
    step [] r e h = elim (Bool-cases (is_space c)) [
      | inl space ↦ (c ∷ r, rw space (ap (◌∷◌ c) e), rw space h)
      | inr other ↦ (r, rw other (ap (◌∷◌ c) e), h)
    ]

-- `t` is `s` without the white space at its two ends.
pub record IsTrimOf (s t : Bytes) : Type 0 where
  pub left : Bytes
  pub right : Bytes
  pub splits : s ≡ left ++ (t ++ right)
  pub left_spaces : all is_space left ≡ true
  pub right_spaces : all is_space right ≡ true
  pub first : (c : ℕ) (m : Bytes) → t ≡ c ∷ m → is_space c ≡ false
  pub last : (c : ℕ) (m : Bytes) → t ≡ m ++ c ∷ [] → is_space c ≡ false

cons_unless-last :
    (c : ℕ) (t : Bytes)
    → ((d : ℕ) (m : Bytes) → t ≡ m ++ d ∷ [] → is_space d ≡ false)
    → (d : ℕ) (m : Bytes) → cons_unless c t ≡ m ++ d ∷ []
    → is_space d ≡ false
cons_unless-last c (b ∷ t) ih d [] e = ground arith
cons_unless-last c (b ∷ t) ih d (x ∷ m) e = ih d m (ground arith)
cons_unless-last c [] ih d [] e = ground arith
cons_unless-last c [] ih d (x ∷ []) e = ground arith
cons_unless-last c [] ih d (x ∷ y ∷ m) e = ground arith

drop_last_spaces-last :
    (s : Bytes) (d : ℕ) (m : Bytes) → drop_last_spaces s ≡ m ++ d ∷ [] → is_space d ≡ false
drop_last_spaces-last [] d [] e = cc
drop_last_spaces-last [] d (x ∷ m) e = cc
drop_last_spaces-last (c ∷ s) d m e =
    cons_unless-last c (drop_last_spaces s) (drop_last_spaces-last s) d m e

cons_unless-first : (c : ℕ) (t : Bytes) (d : ℕ) (m : Bytes) → cons_unless c t ≡ d ∷ m → d ≡ c
cons_unless-first c [] d m e = ground arith
cons_unless-first c (b ∷ t) d m e = ground arith

-- What stays of a text that begins with no space begins with none.
drop_last_spaces-first :
    (s : Bytes)
    → ((c : ℕ) (m : Bytes) → s ≡ c ∷ m → is_space c ≡ false)
    → (c : ℕ) (m : Bytes) → drop_last_spaces s ≡ c ∷ m
    → is_space c ≡ false
drop_last_spaces-first [] h c m e = cc
drop_last_spaces-first (b ∷ s) h c m e =
    rw (cons_unless-first b (drop_last_spaces s) c m e) (h b s refl)

-- `Trim` takes the white space off both ends and nothing else: what it returns stands in the text
-- between white space, and neither begins nor ends with any.
pub trim-IsTrimOf : (s : Bytes) → IsTrimOf s (trim s)
trim-IsTrimOf s =
    let (l, el, hl) = drop_spaces-split s in
    let (r, er, hr) = drop_last_spaces-split (drop_spaces s) in
    rw trim-eq (record {
      left = l;
      right = r;
      splits = el ∙ ap (λ t. l ++ t) er;
      left_spaces = hl;
      right_spaces = hr;
      first = drop_last_spaces-first (drop_spaces s) (drop_spaces-first s);
      last = drop_last_spaces-last (drop_spaces s);
    })

drop_spaces_self : (t : Bytes) → any is_space t ≡ false → drop_spaces t ≡ t
drop_spaces_self [] h = refl
drop_spaces_self (c ∷ t) h = ground arith

drop_last_spaces_self : (t : Bytes) → any is_space t ≡ false → drop_last_spaces t ≡ t
drop_last_spaces_self [] h = refl
drop_last_spaces_self (c ∷ []) h = ground arith
drop_last_spaces_self (c ∷ d ∷ t) h = ground (arith, drop_last_spaces_self (d ∷ t))

-- A text with no white space is its own trim.
pub trim_self : (s : Bytes) → any is_space s ≡ false → trim s ≡ s
trim_self s h = rw (trim-eq, drop_spaces_self s h) (drop_last_spaces_self s h)

drop_spaces-all : (t : Bytes) → all is_space t ≡ true → drop_spaces t ≡ []
drop_spaces-all [] h = refl
drop_spaces-all (c ∷ t) h = ground (arith, drop_spaces-all t)

-- A text of white space alone trims to nothing.
pub trim_spaces : (s : Bytes) → all is_space s ≡ true → trim s ≡ []
trim_spaces s h = rw (trim-eq, drop_spaces-all s h)
