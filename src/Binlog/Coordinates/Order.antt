-- ===== src/Binlog/Coordinates/Order.antt =====
-- The order of binlog coordinates.
use gh_ost_cpp.Base.{bytes_eq_iff, ◌<◌, ◌≡◌, ◌≢◌, ◌↔◌, ◌⊎◌, true, false, arith}
use gh_ost_cpp.Binlog.Coordinates.{
  BinlogCoordinates, get_sequence, is_same_as, before, at_most, after, at_least,
}

-- The file's sequence number first, then the position.
abbrev pub Precedes : BinlogCoordinates → BinlogCoordinates → Type 0
Precedes a b =
    (get_sequence a < get_sequence b)
    ⊎ ((get_sequence a ≡ get_sequence b) × (a.position < b.position))

before_iff : (a b : BinlogCoordinates) → (before a b ≡ true) ↔ Precedes a b
unfolding before
before_iff a b = ground arith

-- `operator<` is a strict order by sequence number and position: it holds exactly where that pair is
-- smaller, never in both directions, and it is transitive.
pub before-strict_order :
    (a b c : BinlogCoordinates)
    → ((before a b ≡ true) ↔ Precedes a b)
      × (before a b ≡ true → before b a ≡ false)
      × (before a b ≡ true → before b c ≡ true → before a c ≡ true)
unfolding before
before-strict_order a b c = (before_iff a b, ground arith, ground arith)

-- Across two series of files the operators contradict one another: at the same sequence number and
-- position each of two files is `>` and `>=` the other, and neither is `<=`.
pub after_both :
    (a b : BinlogCoordinates)
    → get_sequence a ≡ get_sequence b
    → a.position ≡ b.position
    → a.file ≢ b.file
    → (after a b ≡ true)
      × (after b a ≡ true)
      × (at_least a b ≡ true)
      × (at_least b a ≡ true)
      × (at_most a b ≡ false)
      × (at_most b a ≡ false)
unfolding at_most after at_least is_same_as before
after_both a b s p f = ground (arith, bytes_eq_iff a.file b.file, bytes_eq_iff b.file a.file)
