-- ===== src/Tests/Transactions.antt =====
-- Sets of transactions.
use gh_ost_cpp.Base.{Bytes, codes, ℕ, ◌≡◌, refl, [], ◌∷◌, arith}
use gh_ost_cpp.Strings.Trim.{is_space}
use gh_ost_cpp.Binlog.Gtid.{GtidCoordinates, GtidSet, is_valid, set_to_text, parse_set}
use gh_ost_cpp.Binlog.Gtid.RoundTrip.{IsPlain, parse_set-set_to_text}

abbrev transaction : Bytes → ℕ → GtidCoordinates
transaction domain sequence = record { domain = domain; sequence = sequence }

abbrev two_domains : GtidSet
two_domains = transaction (codes "a") 5 ∷ transaction (codes "b") 7 ∷ []

transaction-IsPlain : IsPlain (transaction (codes "a") 5)
unfolding is_valid is_space
transaction-IsPlain = record {
  valid = refl;
  no_colon = refl;
  no_comma = refl;
  no_space = refl;
  fits = omega arith;
}

transaction-IsPlain_other : IsPlain (transaction (codes "b") 7)
unfolding is_valid is_space
transaction-IsPlain_other = record {
  valid = refl;
  no_colon = refl;
  no_comma = refl;
  no_space = refl;
  fits = omega arith;
}

parse_set-set_to_text_example : let s : GtidSet = two_domains in parse_set [] (set_to_text s) ≡ s
parse_set-set_to_text_example =
    parse_set-set_to_text two_domains (transaction-IsPlain, (transaction-IsPlain_other, tt))
      (unfold is_valid in (refl, (refl, tt), (refl, tt, tt)))
