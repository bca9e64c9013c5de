-- ===== src/Mysql/InstanceKey/Order.antt =====
-- The comparisons of `InstanceKey`, and `ReplicaTerminologyMap`, of src/mysql/instance_key.cpp.
use gh_ost_cpp.Base.{
  ltb, ◌==◌, if◌then◌else◌, Bytes, codes, bytes_eq, bytes_eq_sym, ◌≡◌, refl, Bool, true, false, not,
  ◌&&◌, ◌||◌, [], ◌∷◌, arith,
}
use gh_ost_cpp.Mysql.InstanceKey.{InstanceKey, is_same_as}

-- `operator<` of two strings, which compares bytes
unfoldable pub bytes_before : Bytes → Bytes → Bool
bytes_before [] [] = false
bytes_before [] (y ∷ b) = true
bytes_before (x ∷ a) [] = false
bytes_before (x ∷ a) (y ∷ b) = ltb x y || (x == y && bytes_before a b)

unfoldable pub before : InstanceKey → InstanceKey → Bool
unfolding bytes_before
before a b = if not (bytes_eq a.host b.host) then bytes_before a.host b.host else ltb a.port b.port

-- `MasterToReplica` and `ReplicaToMaster`, by the flag of the map
unfoldable pub master_to_replica : Bool → Bytes → Bytes
master_to_replica use_replica_term term =
    if use_replica_term && bytes_eq term (codes "slave") then codes "replica" else term

unfoldable pub replica_to_master : Bool → Bytes → Bytes
replica_to_master use_replica_term term =
    if not use_replica_term && bytes_eq term (codes "replica") then codes "slave" else term

bytes_before_total :
    (a b : Bytes)
    → (bytes_eq a b || (bytes_before a b || bytes_before b a) ≡ true)
      × ((bytes_before a b && bytes_before b a) ≡ false)
      × ((bytes_eq a b && bytes_before a b) ≡ false)
unfolding bytes_before
bytes_before_total [] [] = (refl, refl, refl)
bytes_before_total [] (y ∷ b) = (refl, refl, refl)
bytes_before_total (x ∷ a) [] = (refl, refl, refl)
bytes_before_total (x ∷ a) (y ∷ b) =
    (let h = bytes_before_total a b in (ground arith, ground arith, ground arith))

-- Of two keys one is before the other or they are the same, and no two of the three hold.
pub before_total :
    (a b : InstanceKey)
    → (is_same_as a b || (before a b || before b a) ≡ true)
      × ((before a b && before b a) ≡ false)
      × ((is_same_as a b && before a b) ≡ false)
unfolding before is_same_as
before_total a b =
    (let h = bytes_before_total a.host b.host in
      let s = bytes_eq_sym a.host b.host in (ground arith, ground arith, ground arith))

bytes_before_trans :
    (a b c : Bytes) → bytes_before a b ≡ true → bytes_before b c ≡ true → bytes_before a c ≡ true
unfolding bytes_before
bytes_before_trans [] (y ∷ b) (z ∷ c) p q = refl
bytes_before_trans (x ∷ a) (y ∷ b) (z ∷ c) p q = ground (arith, bytes_before_trans a b c)
bytes_before_trans [] [] c p q = absurd (ground arith)
bytes_before_trans (x ∷ a) [] c p q = absurd (ground arith)
bytes_before_trans a (y ∷ b) [] p q = absurd (ground arith)
