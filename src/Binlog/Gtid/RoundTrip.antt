-- ===== src/Binlog/Gtid/RoundTrip.antt =====
-- The text of a GTID, and of a set of them, is read back.
use gh_ost_cpp.Base.{
  ltb, ◌==◌, ==_refl, length, take, drop, is_empty, any, any-append, Bytes, codes, bytes_eq,
  bytes_eq_iff, ℕ, suc, ◌<◌, ◌≡◌, refl, sym, ap, ◌∙◌, inl, true, false, not, ◌&&◌, some, [], ◌∷◌,
  ◌++◌, map, append-nil, append_assoc, arith,
}
use gh_ost_cpp.Strings.Trim.{is_space, trim, trim_self}
use gh_ost_cpp.Strings.Split.{split, has, split-cons, split_one}
use gh_ost_cpp.Strings.Number.{
  u64_mod, to_string, parse_uint64, parse_uint64-to_string, to_string-has, to_string-spaces,
}
use gh_ost_cpp.Binlog.Gtid.{
  GtidCoordinates, GtidSet, is_valid, to_text, find_char, parsed, parse, add_loop, add,
  set_text_onto, set_to_text, add_part, add_parts, parse_set,
}
use gh_ost_cpp.Binlog.Gtid.Order.{Lacks, IsWellFormed}

find_char-append :
    (c : ℕ) (a s : Bytes) → has c a ≡ false → find_char c (a ++ c ∷ s) ≡ some (length a)
unfolding find_char
find_char-append c [] s h = rw (==_refl c)
find_char-append c (x ∷ a) s h = ground (arith, find_char-append c a s)

take-length : (a : Bytes) (c : ℕ) (s : Bytes) → take (length a) (a ++ c ∷ s) ≡ a
take-length [] c s = refl
take-length (x ∷ a) c s = ap (◌∷◌ x) (take-length a c s)

drop-length : (a : Bytes) (c : ℕ) (s : Bytes) → drop (suc (length a)) (a ++ c ∷ s) ≡ s
drop-length [] c s = refl
drop-length (x ∷ a) c s = drop-length a c s

parse_found :
    (s : Bytes) (i : ℕ)
    → find_char b':' s ≡ some i
    → parse s ≡ parsed (take i s) (parse_uint64 (drop (suc i) s))
unfolding parse
parse_found s i e = ground arith

parse-append :
    (d : Bytes) (t : Bytes) → has b':' d ≡ false → parse (d ++ b':' ∷ t) ≡ parsed d (parse_uint64 t)
parse-append d t h = rw (
  parse_found (d ++ b':' ∷ t) (length d) (find_char-append b':' d t h),
  take-length d b':' t,
  drop-length d b':' t,
)

-- A GTID whose domain has no colon is read back from its text.
pub parse-to_text :
    (g : GtidCoordinates)
    → has b':' g.domain ≡ false
    → g.sequence < u64_mod
    → parse (to_text g) ≡ some g
unfolding to_text
parse-to_text g h fits =
    rw
      (
        append_assoc g.domain (codes ":") (to_string g.sequence),
        parse-append g.domain (to_string g.sequence) h,
        parse_uint64-to_string g.sequence fits,
      )
      (unfold parsed in refl)

-- What a domain may hold so that the text of a set can be read back.
pub record IsPlain (g : GtidCoordinates) : Type 0 where
  pub valid : is_valid g ≡ true
  pub no_colon : has b':' g.domain ≡ false
  pub no_comma : has b',' g.domain ≡ false
  pub no_space : any is_space g.domain ≡ false
  pub fits : g.sequence < u64_mod

abbrev pub ArePlain : GtidSet → Type 0
ArePlain [] = Unit
ArePlain (g ∷ s) = IsPlain g × ArePlain s

to_text-has :
    (g : GtidCoordinates)
    → IsPlain g
    → (has b',' (to_text g) ≡ false) × (any is_space (to_text g) ≡ false)
unfolding to_text
to_text-has g p = (
  rw (
    any-append (λ c. c == b',') (g.domain ++ codes ":") (to_string g.sequence),
    any-append (λ c. c == b',') g.domain (codes ":"),
    p.no_comma,
    to_string-has b',' g.sequence (inl (omega arith)),
  ),
  rw
      (
        any-append is_space (g.domain ++ codes ":") (to_string g.sequence),
        any-append is_space g.domain (codes ":"),
        p.no_space,
        to_string-spaces g.sequence,
      )
      (unfold is_space in refl),
)

to_text-cons : (g : GtidCoordinates) → IsPlain g → (c : ℕ) × (s : Bytes) × (to_text g ≡ c ∷ s)
unfolding to_text is_valid
to_text-cons g p = head g.domain (p.valid)
  where
    head :
        (d : Bytes)
        → (not (is_empty d) && ltb 0 g.sequence) ≡ true
        → (c : ℕ) × (s : Bytes) × ((d ++ codes ":") ++ to_string g.sequence ≡ c ∷ s)
    head [] h = absurd (cc)
    head (c ∷ d) h = (c, (d ++ codes ":") ++ to_string g.sequence, refl)

abbrev tail_text : GtidSet → Bytes
tail_text [] = []
tail_text (g ∷ s) = b',' ∷ (to_text g ++ tail_text s)

set_text_onto-eq :
    (g : GtidCoordinates) (s : GtidSet) (oss : Bytes)
    → set_text_onto oss (g ∷ s) ≡ oss ++ (to_text g ++ tail_text s)
unfolding set_text_onto
set_text_onto-eq g [] oss = rw (append-nil (to_text g))
set_text_onto-eq g (h ∷ s) oss =
    set_text_onto-eq h s ((oss ++ to_text g) ++ codes ",") ∙ simp append_assoc

split-set_text :
    (g : GtidCoordinates) (s : GtidSet)
    → ArePlain (g ∷ s)
    → split (to_text g ++ tail_text s) b',' ≡ map to_text (g ∷ s)
split-set_text g [] (p, _) =
    let (c, t, e) = to_text-cons g p in
    rw (append-nil (to_text g), e) (split_one b',' c t (rw e at ((to_text-has g p).0)))
split-set_text g (h ∷ s) (p, ps) =
    split-cons b',' (to_text g) (to_text h ++ tail_text s) (to_text-has g p).0
    ∙ ap (◌∷◌ (to_text g)) (split-set_text h s ps)

Lacks-last :
    (d : Bytes) (front : GtidSet) (g : GtidCoordinates) (s : GtidSet)
    → Lacks d (front ++ g ∷ s)
    → bytes_eq g.domain d ≡ false
Lacks-last d [] g s l = l.0
Lacks-last d (e ∷ front) g s l = Lacks-last d front g s l.1

add_loop_last :
    (front : GtidSet) (g : GtidCoordinates) (s : GtidSet)
    → IsWellFormed (front ++ g ∷ s)
    → add_loop g front ≡ front ++ g ∷ []
unfolding add_loop
add_loop_last [] g s w = refl
add_loop_last (e ∷ front) g s w = ground (
  arith,
  add_loop_last front g s w.2,
  Lacks-last e.domain front g s w.1,
  bytes_eq_iff e.domain g.domain,
  bytes_eq_iff g.domain e.domain,
)

add_part_parsed :
    (s : GtidSet) (part : Bytes) (g : GtidCoordinates)
    → parse (trim part) ≡ some g
    → add_part s part ≡ add s g
unfolding add_part
add_part_parsed s part g e = ground arith

add_part-to_text :
    (front : GtidSet) (g : GtidCoordinates) (s : GtidSet)
    → IsPlain g
    → IsWellFormed (front ++ g ∷ s)
    → add_part front (to_text g) ≡ front ++ g ∷ []
add_part-to_text front g s p w =
    add_part_parsed front (to_text g) g
      (ap parse (trim_self (to_text g) (to_text-has g p).1) ∙ parse-to_text g p.no_colon p.fits)
    ∙ (unfold add in rw (p.valid) (add_loop_last front g s w))

add_parts-to_text :
    (s front : GtidSet)
    → ArePlain s
    → IsWellFormed (front ++ s)
    → add_parts front (map to_text s) ≡ front ++ s
unfolding add_parts
add_parts-to_text [] front ps w = sym (append-nil front)
add_parts-to_text (g ∷ s) front (p, ps) w =
    ap (λ f. add_parts f (map to_text s)) (add_part-to_text front g s p w)
    ∙ add_parts-to_text s (front ++ g ∷ []) ps (rw (append_assoc front (g ∷ []) s) w)
    ∙ append_assoc front (g ∷ []) s

-- A set whose domains are distinct and hold no colon, comma or white space is read back from its
-- text: every domain, with its sequence number, in the order of the set.
pub parse_set-set_to_text :
    (s : GtidSet) → ArePlain s → IsWellFormed s → parse_set [] (set_to_text s) ≡ s
unfolding parse_set set_to_text
parse_set-set_to_text [] ps w = unfold split set_text_onto in refl
parse_set-set_to_text (g ∷ s) ps w =
    rw (set_text_onto-eq g s [], split-set_text g s ps) (add_parts-to_text (g ∷ s) [] ps w)
