-- ===== src/Strings/Wildcard/Correct.antt =====
-- The greedy loop against what the pattern means.
use gh_ost_cpp.Base.{
  ◌==◌, if◌then◌else◌, Bool-cases, length, is_empty, Bytes, ℕ, zero, suc, ◌+◌, ◌*◌, ◌≤◌, ◌<◌, ◌≡◌,
  refl, sym, ◌∙◌, inl, inr, Bool, true, false, ◌&&◌, ◌||◌, Option, none, some, [], ◌∷◌, arith,
}
use gh_ost_cpp.Strings.Split.{has}
use gh_ost_cpp.Strings.Wildcard.{Back, goes_back, only_stars, wildcard_loop, matches_wildcard}

-- The test holds of the text without some bytes in front.
abbrev pub some_suffix : (Bytes → Bool) → Bytes → Bool
some_suffix test [] = test []
some_suffix test (d ∷ s) = test (d ∷ s) || some_suffix test s

-- What a pattern means: `*` stands for any bytes, `?` for any byte, and each other byte for itself.
abbrev byte_matches : (Bytes → Bool) → ℕ → Bytes → Bool
byte_matches test c [] = false
byte_matches test c (d ∷ s) = (c == b'?' || c == d) && test s

unfoldable pub means : Bytes → Bytes → Bool
means [] s = is_empty s
means (c ∷ p) s =
    let rest = means p in if c == b'*' then some_suffix rest s else byte_matches rest c s

means-star : (c : ℕ) (p s : Bytes) → (c == b'*') ≡ true → means (c ∷ p) s ≡ some_suffix (means p) s
unfolding means
means-star c p s h = rw h refl

means-byte :
    (c d : ℕ) (p s : Bytes)
    → (c == b'*') ≡ false
    → means (c ∷ p) (d ∷ s) ≡ ((c == b'?' || c == d) && means p s)
unfolding means
means-byte c d p s h = rw h refl

means-byte_nil : (c : ℕ) (p : Bytes) → (c == b'*') ≡ false → means (c ∷ p) [] ≡ false
unfolding means
means-byte_nil c p h = rw h refl

means_nil : (p : Bytes) → means p [] ≡ only_stars p
unfolding means
means_nil [] = refl
means_nil (c ∷ p) = ground (arith, means_nil p)

suffix_self : (test : Bytes → Bool) (s : Bytes) → test s ≡ true → some_suffix test s ≡ true
suffix_self test [] h = h
suffix_self test (d ∷ s) h = rw h refl

-- Two stars in a row are one.
suffix_twice :
    (test : Bytes → Bool) (s : Bytes) → some_suffix (some_suffix test) s ≡ some_suffix test s
suffix_twice test [] = refl
suffix_twice test (d ∷ s) = ground (arith, suffix_twice test s)

-- Where the pattern matches behind some bytes, it still does without its first byte behind one more.
suffix_drop :
    (c : ℕ) (p : Bytes) (d : ℕ) (s : Bytes)
    → (c == b'*') ≡ false
    → some_suffix (means (c ∷ p)) (d ∷ s) ≡ true
    → some_suffix (means p) s ≡ true
suffix_drop c p d [] n h = ground (arith, means-byte c d p [] n, means-byte_nil c p n)
suffix_drop c p d (e ∷ s) n h =
    ground (arith, means-byte c d p (e ∷ s) n, suffix_self (means p) (e ∷ s), suffix_drop c p e s n)

suffix_star :
    (c : ℕ) (p s : Bytes)
    → (c == b'*') ≡ true
    → some_suffix (means (c ∷ p)) s ≡ some_suffix (means p) s
suffix_star c p [] h = means-star c p [] h
suffix_star c p (d ∷ s) h = ground (arith, means-star c p (d ∷ s) h, suffix_star c p s h)

-- `answer` is what the whole pattern says of the whole text, and every pattern in play is shorter than
-- `k`. While the loop runs, it has not lost the answer.
module _ (answer : Bool) (k : ℕ) where
  -- what the place to go back to is good for; `m` bounds the text that is left there
  abbrev Saved : ℕ → Bytes → Bytes → Back → Type 0
  Saved m p s none = answer ≡ true → means p s ≡ true
  Saved m p s (some (bp, bs)) =
      (answer ≡ some_suffix (means bp) bs)
      × (means bp bs ≡ true → means p s ≡ true)
      × (has b'*' bs ≡ false)
      × (length s ≤ length bs)
      × (length bs ≤ m)
      × (length bp < k)

  record OnCourse (f m : ℕ) (p s : Bytes) (back : Back) : Type 0 where
    sound : means p s ≡ true → answer ≡ true
    complete : answer ≡ true → some_suffix (means p) s ≡ true
    saved : Saved m p s back
    plain : has b'*' s ≡ false
    text_bound : length s ≤ m
    pattern_bound : length p < k
    fuel_left : m * k + length p < f

  -- A text is taken up anew at a star.
  OnCourse-star :
      (f m : ℕ) (p s : Bytes)
      → answer ≡ some_suffix (means p) s
      → has b'*' s ≡ false
      → length s ≤ m
      → length p < k
      → m * k + length p < f
      → OnCourse f m p s (some (p, s))
  OnCourse-star f m p s e n hs hp hf = record {
    sound = λ h. e ∙ suffix_self (means p) s h;
    complete = λ h. sym e ∙ h;
    saved = (e, λ h. h, n, omega arith, hs, hp);
    plain = n;
    text_bound = hs;
    pattern_bound = hp;
    fuel_left = hf;
  }

  Saved-byte :
      (m c d : ℕ) (p s : Bytes) (back : Back)
      → (c == b'*') ≡ false
      → Saved m (c ∷ p) (d ∷ s) back
      → Saved m p s back
  Saved-byte m c d p s none n h = λ g. ground (arith, h g, means-byte c d p s n)
  Saved-byte m c d p s (some (bp, bs)) n (e, down, plain, short, hs, hp) =
      (e, λ g. ground (arith, down g, means-byte c d p s n), plain, omega arith, hs, hp)

  -- Going back takes one byte from the text that is left, and so pays for the pattern.
  goes_back_lem :
      (f m d : ℕ) (p s : Bytes) (back : Back) (next : Bytes → Bytes → Back → Option Bool)
      → ((m' : ℕ) (p' s' : Bytes) (b : Back) → OnCourse f m' p' s' b → next p' s' b ≡ some answer)
      → OnCourse (suc f) m p (d ∷ s) back
      → means p (d ∷ s) ≡ false
      → goes_back back next ≡ some answer
  goes_back_lem f m d p s none next ih o n = ground (arith, o.saved)
  goes_back_lem f m d p s (some (bp, [])) next ih o n = absurd (omega (arith, o.saved))
  goes_back_lem f zero d p s (some (bp, x ∷ bs)) next ih o n = absurd (omega (arith, o.saved))
  goes_back_lem f (suc m) d p s (some (bp, x ∷ bs)) next ih o n =
      let (e, down, plain, _, _, _) = o.saved in
      ih m bp bs (some (bp, bs)) (
        OnCourse-star f m bp bs (ground (arith, down)) (ground arith) (omega arith) (omega arith)
          (omega arith))

  OnCourse-byte :
      (f m c d : ℕ) (p s : Bytes) (back : Back)
      → (c == b'*') ≡ false
      → (c == b'?' || c == d) ≡ true
      → OnCourse (suc f) m (c ∷ p) (d ∷ s) back
      → OnCourse f m p s back
  OnCourse-byte f m c d p s back n a o = record {
    sound = λ h. o.sound (ground (arith, means-byte c d p s n));
    complete = λ h. suffix_drop c p d s n (o.complete h);
    saved = Saved-byte m c d p s back n o.saved;
    plain = ground arith;
    text_bound = omega arith;
    pattern_bound = omega arith;
    fuel_left = omega arith;
  }

  wildcard_loop_lem :
      (f m : ℕ) (p s : Bytes) (back : Back)
      → OnCourse f m p s back
      → wildcard_loop f p s back ≡ some answer
  unfolding wildcard_loop
  wildcard_loop_lem zero m p s back o = absurd (omega arith)
  wildcard_loop_lem (suc f) m p [] back o = ground (arith, means_nil p, o.sound, o.complete)
  wildcard_loop_lem (suc f) m [] (d ∷ s) back o =
      goes_back_lem f m d [] s back (wildcard_loop f) (wildcard_loop_lem f) o (unfold means in refl)
  wildcard_loop_lem (suc f) m (c ∷ p) (d ∷ s) back o = elim (Bool-cases (c == b'*')) [
    | inl star ↦
        let ih = wildcard_loop_lem f m p (d ∷ s) (some (p, d ∷ s)) (
          OnCourse-star f m p (d ∷ s)
            (ground (
              arith,
              o.sound,
              o.complete,
              means-star c p (d ∷ s) star,
              suffix_star c p (d ∷ s) star,
              suffix_self (means p) (d ∷ s),
            ))
            o.plain o.text_bound (omega arith) (omega arith)) in
        ground arith
    | inr byte ↦ elim (Bool-cases (c == b'?' || c == d)) [
      | inl accepted ↦
          let ih =
            wildcard_loop_lem f m p s back (OnCourse-byte f m c d p s back byte accepted o) in
          ground arith
      | inr refused ↦
          let ih =
            goes_back_lem f m d (c ∷ p) s back (wildcard_loop f) (wildcard_loop_lem f) o
              (ground (arith, means-byte c d p s byte)) in
          ground arith
    ]
  ]

-- The loop ends within its fuel, and says of every text without a star whether the pattern means it.
pub matches_wildcard-means :
    (str pattern_text : Bytes)
    → has b'*' str ≡ false
    → matches_wildcard str pattern_text ≡ some (means pattern_text str)
unfolding matches_wildcard
matches_wildcard-means str pattern_text h =
    wildcard_loop_lem (means pattern_text str) (length pattern_text + 1)
      ((length str + 1) * (length pattern_text + 1)) (length str) pattern_text str none
      (record {
        sound = λ g. g;
        complete = λ g. suffix_self (means pattern_text) str g;
        saved = λ g. g;
        plain = h;
        text_bound = omega arith;
        pattern_bound = omega arith;
        fuel_left = grind arith;
      })
