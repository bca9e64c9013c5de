-- ===== src/Strings/Edit/Pieces.antt =====
-- The pieces that `Split` and `ReplaceAll` cut a text into.
use gh_ost_cpp.Base.{
  Option-cases, length, take, drop, is_empty, length-append, all, Bytes, ℕ, zero, suc, ◌+◌, ◌≤◌,
  ◌≡◌, refl, sym, ap, ◌∙◌, inl, inr, Bool, true, false, none, some, List, [], ◌∷◌, ◌++◌, append-nil,
  arith,
}
use gh_ost_cpp.Strings.Split.{join, join-cons}
use gh_ost_cpp.Strings.Search.{find, begins}
use gh_ost_cpp.Strings.Edit.{split_string_loop, split_string, replace_all_loop, replace_all}

begins-split : (s t : Bytes) → begins s t ≡ true → s ≡ t ++ drop (length t) s
unfolding begins
begins-split s [] h = refl
begins-split [] (c ∷ t) h = cc
begins-split (d ∷ s) (c ∷ t) h = ground (arith, begins-split s t)

-- What `find` returns is a place where the text goes on with what was sought.
find-split :
    (s t : Bytes) (i : ℕ) → find s t ≡ some i → s ≡ take i s ++ (t ++ drop (i + length t) s)
unfolding find
find-split [] [] i h = ground arith
find-split [] (c ∷ t) i h = ground arith
find-split (d ∷ s) t zero h =
    let e : 0 + length t ≡ length t = omega arith in rw e (begins-split (d ∷ s) t (ground arith))
find-split (d ∷ s) t (suc i) h =
    let e : suc i + length t ≡ suc (i + length t) = omega arith in
    rw e (ap (◌∷◌ d) (find-split s t i (ground arith)))

begins-take : (n : ℕ) (s t : Bytes) → begins (take n s) t ≡ true → begins s t ≡ true
unfolding begins
begins-take n s [] h = refl
begins-take zero s (c ∷ t) h = cc
begins-take (suc n) [] (c ∷ t) h = cc
begins-take (suc n) (d ∷ s) (c ∷ t) h = ground (arith, begins-take n s t)

-- In front of the first place there is none.
find-take :
    (s t : Bytes) (i : ℕ) → is_empty t ≡ false → find s t ≡ some i → find (take i s) t ≡ none
unfolding find
find-take [] t i n h = ground arith
find-take (d ∷ s) t zero n h = ground arith
find-take (d ∷ s) t (suc i) n h = ground (arith, find-take s t i n, begins-take (suc i) (d ∷ s) t)

-- Behind a place less is left.
find-shorter :
    (s t : Bytes) (i f : ℕ)
    → is_empty t ≡ false
    → find s t ≡ some i
    → length s ≤ suc f
    → length (drop (i + length t) s) ≤ f
find-shorter s [] i f n h l = cc
find-shorter s (c ∷ t) i f n h l = omega (
  arith,
  ap length (find-split s (c ∷ t) i h),
  length-append (take i s) (c ∷ t ++ drop (i + length (c ∷ t)) s),
  length-append t (drop (i + length (c ∷ t)) s),
)

split_string_loop-none :
    (f : ℕ) (d s : Bytes) → find s d ≡ none → split_string_loop (suc f) d s ≡ s ∷ []
unfolding split_string_loop
split_string_loop-none f d s e = ground arith

split_string_loop-some :
    (f : ℕ) (d s : Bytes) (i : ℕ)
    → find s d ≡ some i
    → split_string_loop (suc f) d s ≡ take i s ∷ split_string_loop f d (drop (i + length d) s)
unfolding split_string_loop
split_string_loop-some f d s i e = ground arith

replace_all_loop-none :
    (f : ℕ) (d to s : Bytes) → find s d ≡ none → replace_all_loop (suc f) d to s ≡ s
unfolding replace_all_loop
replace_all_loop-none f d to s e = ground arith

replace_all_loop-some :
    (f : ℕ) (d to s : Bytes) (i : ℕ)
    → find s d ≡ some i
    → replace_all_loop (suc f) d to s
      ≡ take i s ++ (to ++ replace_all_loop f d to (drop (i + length d) s))
unfolding replace_all_loop
replace_all_loop-some f d to s i e = ground arith

split_string_loop-cons :
    (f : ℕ) (d s : Bytes) → (p : Bytes) × (ps : List Bytes) × (split_string_loop f d s ≡ p ∷ ps)
unfolding split_string_loop
split_string_loop-cons zero d s = (s, [], refl)
split_string_loop-cons (suc f) d s = elim (Option-cases (find s d)) [
  | inl e ↦ (s, [], split_string_loop-none f d s e)
  | inr (i, e) ↦
      (take i s, split_string_loop f d (drop (i + length d) s), split_string_loop-some f d s i e)
]

join-split_string_loop :
    (f : ℕ) (d e p s : Bytes)
    → join (p ∷ split_string_loop f d s) e ≡ p ++ (e ++ join (split_string_loop f d s) e)
join-split_string_loop f d e p s =
    let (q, qs, found) = split_string_loop-cons f d s in
    rw found (join-cons p (q ∷ qs) e ∙ ap (λ t. p ++ (e ++ t)) (sym (join-cons q qs e)))

-- Joined by the delimiter, the pieces are the text; joined by another text, they are the replacement.
joins_back : (f : ℕ) (d s : Bytes) → join (split_string_loop f d s) d ≡ s
unfolding split_string_loop
joins_back zero d s = join-cons s [] d ∙ append-nil s
joins_back (suc f) d s = elim (Option-cases (find s d)) [
  | inl e ↦ rw (split_string_loop-none f d s e) (join-cons s [] d ∙ append-nil s)
  | inr (i, e) ↦
      let rest = drop (i + length d) s in
      rw (split_string_loop-some f d s i e) (
        join-split_string_loop f d d (take i s) rest
        ∙ ap (λ t. take i s ++ (d ++ t)) (joins_back f d rest)
        ∙ sym (find-split s d i e))
]

replaces : (f : ℕ) (d to s : Bytes) → replace_all_loop f d to s ≡ join (split_string_loop f d s) to
unfolding split_string_loop replace_all_loop
replaces zero d to s = sym (join-cons s [] to ∙ append-nil s)
replaces (suc f) d to s = elim (Option-cases (find s d)) [
  | inl e ↦
      rw (split_string_loop-none f d s e, replace_all_loop-none f d to s e)
        (sym (join-cons s [] to ∙ append-nil s))
  | inr (i, e) ↦
      let rest = drop (i + length d) s in
      rw (split_string_loop-some f d s i e, replace_all_loop-some f d to s i e)
        (ap (λ t. take i s ++ (to ++ t)) (replaces f d to rest)
          ∙ sym (join-split_string_loop f d to (take i s) rest))
]

abbrev pub lacks : Bytes → Bytes → Bool
lacks d p = elim (find p d) [ none ↦ true | some i ↦ false ]

split_string_loop-lacks :
    (f : ℕ) (d s : Bytes)
    → is_empty d ≡ false
    → length s ≤ f
    → all (lacks d) (split_string_loop f d s) ≡ true
unfolding split_string_loop
split_string_loop-lacks zero d [] n l = unfold find in ground arith
split_string_loop-lacks zero d (c ∷ s) n l = absurd (omega arith)
split_string_loop-lacks (suc f) d s n l = elim (Option-cases (find s d)) [
  | inl e ↦ rw (split_string_loop-none f d s e) (ground arith)
  | inr (i, e) ↦
      let rest = drop (i + length d) s in
      rw (split_string_loop-some f d s i e) (
        ground (
          arith,
          find-take s d i n e,
          split_string_loop-lacks f d rest n (find-shorter s d i f n e l),
        ))
]

-- At a delimiter that is not empty, `Split` cuts a text into pieces that lack it, and joined by it they
-- are the text. `ReplaceAll` is this cut, joined by the replacement.
pub split_string_lem :
    (s d to : Bytes)
    → is_empty d ≡ false
    → (all (lacks d) (split_string s d) ≡ true)
      × (join (split_string s d) d ≡ s)
      × (replace_all s d to ≡ join (split_string s d) to)
unfolding split_string replace_all
split_string_lem s d to n = rw n (
  split_string_loop-lacks (length s) d s n (omega arith),
  joins_back (length s) d s,
  replaces (length s) d to s,
)
