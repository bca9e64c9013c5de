-- ===== src/Strings/Split.antt =====
-- `Split` at a character and at a string, and `Join`, of src/utils/string_utils.cpp.
use gh_ost_cpp.Base.{
  ◌==◌, if◌then◌else◌, ==_iff, Bool-cases, is_empty, any, any-append, Bytes, ℕ, ◌≡◌, refl, sym, ap,
  ◌∙◌, ◌≢◌, ◌⊎◌, inl, inr, Bool, true, false, List, [], ◌∷◌, ◌++◌, append-nil, append_assoc, arith,
}

-- The loop on `std::getline(ss, part, delimiter)`. `part` is what the call in progress has read; a
-- call that reads neither a character nor a delimiter before the end fails, and ends the loop.
unfoldable pub split_from : ℕ → Bytes → Bytes → List Bytes
split_from d part [] = if is_empty part then [] else part ∷ []
split_from d part (c ∷ s) = elim (c == d) [
  | true ↦ part ∷ split_from d [] s
  | false ↦ split_from d (part ++ c ∷ []) s
]

unfoldable pub split : Bytes → ℕ → List Bytes
unfolding split_from
split s d = split_from d [] s

-- the loop of `Join` over the parts behind the first
unfoldable pub join_onto : Bytes → Bytes → List Bytes → Bytes
join_onto result delimiter [] = result
join_onto result delimiter (p ∷ ps) = join_onto (result ++ (delimiter ++ p)) delimiter ps

unfoldable pub join : List Bytes → Bytes → Bytes
unfolding join_onto
join [] delimiter = []
join (p ∷ ps) delimiter = join_onto p delimiter ps

abbrev pub has : ℕ → Bytes → Bool
has d s = any (λ c. c == d) s

-- `join` with no accumulator.
abbrev pub joined : Bytes → List Bytes → Bytes
joined delimiter [] = []
joined delimiter (p ∷ ps) = delimiter ++ (p ++ joined delimiter ps)

pub join_onto-eq :
    (ps : List Bytes) (result delimiter : Bytes)
    → join_onto result delimiter ps ≡ result ++ joined delimiter ps
unfolding join_onto
join_onto-eq [] result delimiter = sym (append-nil result)
join_onto-eq (p ∷ ps) result delimiter =
    rw (join_onto-eq ps (result ++ (delimiter ++ p)) delimiter) (simp append_assoc)

pub join-cons :
    (p : Bytes) (ps : List Bytes) (delimiter : Bytes)
    → join (p ∷ ps) delimiter ≡ p ++ joined delimiter ps
unfolding join
join-cons p ps delimiter = join_onto-eq ps p delimiter

split_from_skip :
    (d : ℕ) (part a s : Bytes)
    → has d a ≡ false
    → split_from d part (a ++ s) ≡ split_from d (part ++ a) s
unfolding split_from
split_from_skip d part [] s h = rw append-nil
split_from_skip d part (c ∷ a) s h =
    ground (arith, split_from_skip d (part ++ c ∷ []) a s, append_assoc part (c ∷ []) a)

-- A part that the delimiter ends is the first part.
pub split-cons : (d : ℕ) (a s : Bytes) → has d a ≡ false → split (a ++ d ∷ s) d ≡ a ∷ split s d
unfolding split
split-cons d a s h = split_from_skip d [] a (d ∷ s) h ∙ (unfold split_from in ground arith)

pub split_one : (d c : ℕ) (a : Bytes) → has d (c ∷ a) ≡ false → split (c ∷ a) d ≡ (c ∷ a) ∷ []
unfolding split
split_one d c a h =
    ap (split_from d []) (sym (append-nil (c ∷ a)))
    ∙ split_from_skip d [] (c ∷ a) [] h
    ∙ (unfold split_from in refl)

split_from-ne-nil : (d x : ℕ) (part s : Bytes) → split_from d (x ∷ part) s ≢ []
unfolding split_from
split_from-ne-nil d x part [] e = cc
split_from-ne-nil d x part (c ∷ s) e = ground (arith, split_from-ne-nil d x (part ++ c ∷ []) s)

split_from_nil : (d : ℕ) (s : Bytes) → split_from d [] s ≡ [] → s ≡ []
unfolding split_from
split_from_nil d [] e = refl
split_from_nil d (c ∷ s) e = ground (arith, split_from-ne-nil d c [] s)

-- `r` joins to `s`, or to `s` without a last delimiter.
abbrev pub JoinsTo : ℕ → List Bytes → Bytes → Type 0
JoinsTo d r s = (join r (d ∷ []) ≡ s) ⊎ (join r (d ∷ []) ++ d ∷ [] ≡ s)

JoinsTo-cons :
    (d : ℕ) (part : Bytes) (r : List Bytes) (s : Bytes)
    → (r ≡ [] → s ≡ [])
    → JoinsTo d r s
    → JoinsTo d (part ∷ r) (part ++ d ∷ s)
JoinsTo-cons d part [] s h j =
    rw (h refl) (inr (ap (λ t. t ++ d ∷ []) (join-cons part [] (d ∷ []) ∙ append-nil part)))
JoinsTo-cons d part (q ∷ r) s h (inl e) = inl (rw (join-cons, ← e, join-cons q r (d ∷ [])) refl)
JoinsTo-cons d part (q ∷ r) s h (inr e) = inr (
    rw (join-cons, ← e, join-cons q r (d ∷ []))
      (append_assoc part (d ∷ (q ++ joined (d ∷ []) r)) (d ∷ [])))

split_from_hit :
    (d c : ℕ) (part s : Bytes)
    → (c == d) ≡ true
    → split_from d part (c ∷ s) ≡ part ∷ split_from d [] s
unfolding split_from
split_from_hit d c part s h = ground arith

split_from_miss :
    (d c : ℕ) (part s : Bytes)
    → (c == d) ≡ false
    → split_from d part (c ∷ s) ≡ split_from d (part ++ c ∷ []) s
unfolding split_from
split_from_miss d c part s h = ground arith

split_from-JoinsTo : (d : ℕ) (s part : Bytes) → JoinsTo d (split_from d part s) (part ++ s)
split_from-JoinsTo d [] [] = inl (unfold split_from join in refl)
split_from-JoinsTo d [] (x ∷ part) = inl (unfold split_from in join-cons (x ∷ part) [] (d ∷ []))
split_from-JoinsTo d (c ∷ s) part = elim (Bool-cases (c == d)) [
  | inl hit ↦
      rw (split_from_hit d c part s hit, (==_iff c d).0 hit)
        (JoinsTo-cons d part (split_from d [] s) s (split_from_nil d s) (split_from-JoinsTo d s []))
  | inr miss ↦
      rw (split_from_miss d c part s miss)
        (rw append_assoc at (split_from-JoinsTo d s (part ++ c ∷ [])))
]

-- no part holds the delimiter
abbrev pub NoDelimiter : ℕ → List Bytes → Type 0
NoDelimiter d [] = Unit
NoDelimiter d (p ∷ ps) = (has d p ≡ false) × NoDelimiter d ps

split_from-NoDelimiter :
    (d : ℕ) (s part : Bytes) → has d part ≡ false → NoDelimiter d (split_from d part s)
split_from-NoDelimiter d [] [] h = unfold split_from in tt
split_from-NoDelimiter d [] (x ∷ part) h = unfold split_from in (h, tt)
split_from-NoDelimiter d (c ∷ s) part h = elim (Bool-cases (c == d)) [
  | inl hit ↦ rw (split_from_hit d c part s hit) (h, split_from-NoDelimiter d s [] refl)
  | inr miss ↦ rw (split_from_miss d c part s miss) (
      split_from-NoDelimiter d s (part ++ c ∷ [])
        (rw (any-append (λ x. x == d) part (c ∷ []), h, miss)))
]

-- `Split` loses nothing but one delimiter at the very end: joined by the delimiter its parts are the
-- text, or the text without its last delimiter. No part holds the delimiter.
pub split_lem : (s : Bytes) (d : ℕ) → JoinsTo d (split s d) s × NoDelimiter d (split s d)
unfolding split
split_lem s d = (split_from-JoinsTo d s [], split_from-NoDelimiter d s [] refl)
