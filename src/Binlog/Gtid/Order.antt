-- ===== src/Binlog/Gtid/Order.antt =====
-- What `Add` does to a GTID set: for each domain the highest sequence number stays.
use gh_ost_cpp.Base.{
  leb, Bytes, bytes_eq, bytes_eq_iff, ◌≡◌, true, false, ◌&&◌, ◌||◌, [], ◌∷◌, arith,
}
use gh_ost_cpp.Binlog.Gtid.{GtidCoordinates, GtidSet, is_valid, add_loop, add, contains}

contains-add_loop :
    (g h : GtidCoordinates) (s : GtidSet)
    → contains (add_loop g s) h
      ≡ (contains s h || (bytes_eq g.domain h.domain && leb h.sequence g.sequence))
unfolding contains add_loop
contains-add_loop g h [] = ground arith
contains-add_loop g h (e ∷ s) = ground (
  arith,
  contains-add_loop g h s,
  bytes_eq_iff e.domain g.domain,
  bytes_eq_iff e.domain h.domain,
  bytes_eq_iff g.domain h.domain,
)

-- After `Add` of a valid GTID the set contains what it contained, and every GTID of that domain up to
-- the one added; `Add` of an invalid one changes nothing.
pub contains-add :
    (s : GtidSet) (g h : GtidCoordinates)
    → contains (add s g) h
      ≡ (contains s h || (is_valid g && (bytes_eq g.domain h.domain && leb h.sequence g.sequence)))
unfolding add
contains-add s g h = ground (arith, contains-add_loop g h s)

-- The order in which GTIDs are added does not show.
pub add_comm :
    (s : GtidSet) (g h k : GtidCoordinates)
    → contains (add (add s g) h) k ≡ contains (add (add s h) g) k
add_comm s g h k =
    rw
      (
        contains-add (add s g) h k,
        contains-add s g k,
        contains-add (add s h) g k,
        contains-add s h k,
      )
      (ground arith)

-- no entry has this domain
abbrev pub Lacks : Bytes → GtidSet → Type 0
Lacks d [] = Unit
Lacks d (e ∷ s) = (bytes_eq e.domain d ≡ false) × Lacks d s

-- Every entry is valid, and each domain stands once.
abbrev pub IsWellFormed : GtidSet → Type 0
IsWellFormed [] = Unit
IsWellFormed (e ∷ s) = (is_valid e ≡ true) × Lacks e.domain s × IsWellFormed s

Lacks-add_loop :
    (d : Bytes) (g : GtidCoordinates) (s : GtidSet)
    → bytes_eq g.domain d ≡ false
    → Lacks d s
    → Lacks d (add_loop g s)
unfolding add_loop
Lacks-add_loop d g [] h l = (h, tt)
Lacks-add_loop d g (e ∷ s) h l = ground (arith, Lacks-add_loop d g s h)

add_loop-IsWellFormed :
    (g : GtidCoordinates) (s : GtidSet)
    → is_valid g ≡ true
    → IsWellFormed s
    → IsWellFormed (add_loop g s)
unfolding add_loop
add_loop-IsWellFormed g [] v w = (v, tt, tt)
add_loop-IsWellFormed g (e ∷ s) v w = ground (
  arith,
  add_loop-IsWellFormed g s v,
  Lacks-add_loop e.domain g s,
  bytes_eq_iff e.domain g.domain,
  bytes_eq_iff g.domain e.domain,
)

-- `Add` keeps every entry valid and every domain once.
pub add-IsWellFormed : (s : GtidSet) (g : GtidCoordinates) → IsWellFormed s → IsWellFormed (add s g)
unfolding add
add-IsWellFormed s g w = ground (arith, add_loop-IsWellFormed g s)
