-- ===== src/Mysql/InstanceKey/Keys.antt =====
-- `InstanceKeyMap`: a list of keys without repetition.
use gh_ost_cpp.Base.{
  if◌then◌else◌, Bool-cases, Bool-eq_of_iff, any, filterb, Bytes, bytes_eq, bytes_eq_iff, ◌≡◌, refl,
  sym, inl, inr, Bool, true, false, not, ◌&&◌, ◌||◌, Option, none, some, List, [], ◌∷◌, ◌++◌, arith,
}
use gh_ost_cpp.Mysql.InstanceKey.{InstanceKey, is_same_as}

abbrev pub Keys : Type 0
Keys = List InstanceKey

unfoldable pub contains : Keys → InstanceKey → Bool
contains ks k = any (λ x. is_same_as x k) ks

unfoldable pub add : Keys → InstanceKey → Keys
unfolding contains
add ks k = if not (contains ks k) then ks ++ k ∷ [] else ks

unfoldable pub remove : Keys → InstanceKey → Keys
remove ks k = filterb (λ x. not (is_same_as x k)) ks

unfoldable pub find_by_host : Keys → Bytes → Option InstanceKey
find_by_host [] host = none
find_by_host (k ∷ ks) host = if bytes_eq k.host host then some k else find_by_host ks host

-- no key stands twice
abbrev pub AreDistinct : Keys → Type 0
AreDistinct [] = Unit
AreDistinct (k ∷ ks) = (contains ks k ≡ false) × AreDistinct ks

contains-append :
    (ks : Keys) (k j : InstanceKey) → contains (ks ++ k ∷ []) j ≡ (contains ks j || is_same_as k j)
unfolding contains
contains-append [] k j = ground arith
contains-append (i ∷ ks) k j = ground (arith, contains-append ks k j)

is_same_as_comm : (a b : InstanceKey) → is_same_as a b ≡ is_same_as b a
unfolding is_same_as
is_same_as_comm a b =
    Bool-eq_of_iff (is_same_as a b) (is_same_as b a)
      (ground (arith, bytes_eq_iff a.host b.host, bytes_eq_iff b.host a.host))

is_same_as_trans : (i k j : InstanceKey) → is_same_as i k ≡ true → is_same_as i j ≡ is_same_as k j
unfolding is_same_as
is_same_as_trans i k j h = ground (arith, bytes_eq_iff i.host k.host)

AreDistinct-append :
    (ks : Keys) (k : InstanceKey)
    → AreDistinct ks
    → contains ks k ≡ false
    → AreDistinct (ks ++ k ∷ [])
unfolding contains
AreDistinct-append [] k d h = (refl, tt)
AreDistinct-append (i ∷ ks) k (d₁, d₂) h = (
  ground (arith, contains-append ks k i, is_same_as_comm i k),
  AreDistinct-append ks k d₂ (ground arith),
)

stays :
    (l : Keys) (k j : InstanceKey)
    → contains l k ≡ true
    → (contains l j || is_same_as k j) ≡ contains l j
unfolding contains
stays [] k j h = ground arith
stays (i ∷ l) k j h = ground (arith, stays l k j, is_same_as_trans i k j)

-- `Add` puts the key in, keeps the others, and never stores a key twice.
pub add_lem :
    (ks : Keys) (k : InstanceKey)
    → AreDistinct ks
    → AreDistinct (add ks k)
      × ((j : InstanceKey) → contains (add ks k) j ≡ (contains ks j || is_same_as k j))
unfolding add
add_lem ks k d = elim (Bool-cases (contains ks k)) [
  | inl h ↦ (rw h d, λ j. rw h (sym (stays ks k j h)))
  | inr h ↦ (rw h (AreDistinct-append ks k d h), λ j. rw h (contains-append ks k j))
]

-- `Remove` takes the key out and no other.
pub contains-remove :
    (ks : Keys) (k j : InstanceKey)
    → contains (remove ks k) j ≡ (contains ks j && not (is_same_as k j))
unfolding remove contains
contains-remove [] k j = refl
contains-remove (i ∷ ks) k j = ground (
  arith,
  contains-remove ks k j,
  is_same_as_trans i k j,
  is_same_as_trans i j k,
  is_same_as_comm j k,
)
