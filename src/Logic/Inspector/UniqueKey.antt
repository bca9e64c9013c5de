-- ===== src/Logic/Inspector/UniqueKey.antt =====
-- The key that the migration goes by.
use gh_ost_cpp.Base.{
  if◌then◌else◌, filterb, Bytes, ◌≡◌, refl, sym, ap, ◌∙◌, ◌⊎◌, inl, inr, Bool, true, false, ◌||◌,
  Option, none, some, List, [], ◌∷◌, arith,
}
use gh_ost_cpp.Mysql.Structure.{
  KeyInfo, TableStructure, is_unique, primary_in, get_primary_key, get_unique_keys,
}
use gh_ost_cpp.Logic.Inspector.{
  no_key, columns_eq, has_key_on, first_shared, same_columns, or_no_key, find_best_unique_key,
}

-- The key is one of them.
abbrev pub Among : KeyInfo → List KeyInfo → Type 0
Among k [] = ⊥
Among k (x ∷ xs) = (x ≡ k) ⊎ Among k xs

abbrev pub is_candidate : KeyInfo → Bool
is_candidate k = k.is_primary || is_unique k.type

-- One of the keys, primary or unique, with the same columns as some key of the other table.
abbrev pub IsShared : KeyInfo → List KeyInfo → List KeyInfo → Type 0
IsShared k keys ghost_keys =
    Among k keys × (is_candidate k ≡ true) × (has_key_on k.columns ghost_keys ≡ true)

kept-cons :
    (k x : KeyInfo) (xs : List KeyInfo) (b : Bool)
    → is_candidate x ≡ b
    → (Among k (filterb is_candidate xs) → Among k xs × (is_candidate k ≡ true))
    → Among k (if b then x ∷ filterb is_candidate xs else filterb is_candidate xs)
    → Among k (x ∷ xs) × (is_candidate k ≡ true)
kept-cons k x xs true e later (inl same) = (inl same, ap is_candidate (sym same) ∙ e)
kept-cons k x xs true e later (inr a) = let (found, passes) = later a in (inr found, passes)
kept-cons k x xs false e later a = let (found, passes) = later a in (inr found, passes)

Among-filterb :
    (k : KeyInfo) (keys : List KeyInfo)
    → Among k (filterb is_candidate keys)
    → Among k keys × (is_candidate k ≡ true)
Among-filterb k [] a = absurd a
Among-filterb k (x ∷ xs) a = kept-cons k x xs (is_candidate x) refl (Among-filterb k xs) a

-- Nothing was found, or one of the keys whose columns are those of some key of the ghost table.
abbrev Found : KeyInfo → List KeyInfo → List KeyInfo → Type 0
Found r keys ghost_keys = (r ≡ no_key) ⊎ (Among r keys × (has_key_on r.columns ghost_keys ≡ true))

Found-cons :
    (k r : KeyInfo) (ks ghost_keys : List KeyInfo) (b c : Bool)
    → has_key_on k.columns ghost_keys ≡ c
    → Found r ks ghost_keys
    → Found (if b then r else if c then k else r) (k ∷ ks) ghost_keys
Found-cons k r ks ghost_keys false true h f = inr (inl refl, h)
Found-cons k r ks ghost_keys true c h (inl none_found) = inl none_found
Found-cons k r ks ghost_keys true c h (inr (found, e)) = inr (inr found, e)
Found-cons k r ks ghost_keys false false h (inl none_found) = inl none_found
Found-cons k r ks ghost_keys false false h (inr (found, e)) = inr (inr found, e)

first_shared_lem :
    (keys ghost_keys : List KeyInfo) → Found (first_shared keys ghost_keys) keys ghost_keys
unfolding first_shared
first_shared_lem [] ghost_keys = inl refl
first_shared_lem (k ∷ ks) ghost_keys =
    Found-cons k (first_shared ks ghost_keys) ks ghost_keys k.is_primary
      (has_key_on k.columns ghost_keys) refl (first_shared_lem ks ghost_keys)

primary_in_lem :
    (keys : List KeyInfo) (k : KeyInfo)
    → primary_in keys ≡ some k
    → Among k keys × (k.is_primary ≡ true)
unfolding primary_in
primary_in_lem [] k e = ground arith
primary_in_lem (x ∷ xs) k e = ground (arith, primary_in_lem xs k)

has_key_on_lem :
    (columns : List Bytes) (g : KeyInfo) (keys : List KeyInfo)
    → Among g keys
    → columns_eq g.columns columns ≡ true
    → has_key_on columns keys ≡ true
has_key_on_lem columns g [] a e = absurd a
has_key_on_lem columns g (x ∷ xs) (inl same) e = rw same (rw e refl)
has_key_on_lem columns g (x ∷ xs) (inr a) e = ground (arith, has_key_on_lem columns g xs a e)

-- The key is empty, or shared.
abbrev pub IsChoice : KeyInfo → List KeyInfo → List KeyInfo → Type 0
IsChoice k keys ghost_keys = (k ≡ no_key) ⊎ IsShared k keys ghost_keys

first_shared-IsChoice :
    (keys ghost_keys : List KeyInfo)
    → IsChoice (first_shared (filterb is_candidate keys) ghost_keys) keys ghost_keys
first_shared-IsChoice keys ghost_keys =
    by_found (first_shared_lem (filterb is_candidate keys) ghost_keys)
  where
    by_found :
        Found
          (first_shared (filterb is_candidate keys) ghost_keys)
          (filterb is_candidate keys)
          ghost_keys
        → IsChoice (first_shared (filterb is_candidate keys) ghost_keys) keys ghost_keys
    by_found (inl none_found) = inl none_found
    by_found (inr (found, e)) =
        let r = first_shared (filterb is_candidate keys) ghost_keys in
        let (a, passes) = Among-filterb r keys found in inr (a, passes, e)

choice_lem :
    (keys ghost_keys : List KeyInfo) (k g : KeyInfo) (b : Bool)
    → primary_in keys ≡ some k
    → primary_in ghost_keys ≡ some g
    → columns_eq g.columns k.columns ≡ b
    → IsChoice
        (if b then k else first_shared (filterb is_candidate keys) ghost_keys)
        keys
        ghost_keys
choice_lem keys ghost_keys k g false e f h = first_shared-IsChoice keys ghost_keys
choice_lem keys ghost_keys k g true e f h =
    let (a, p) = primary_in_lem keys k e in
    let (c, _) = primary_in_lem ghost_keys g f in
    inr (a, ground arith, has_key_on_lem k.columns g ghost_keys c h)

best_lem :
    (keys ghost_keys : List KeyInfo) (p g : Option KeyInfo)
    → primary_in keys ≡ p
    → primary_in ghost_keys ≡ g
    → IsChoice
        (if same_columns p g
          then or_no_key p
          else first_shared (filterb is_candidate keys) ghost_keys)
        keys
        ghost_keys
best_lem keys ghost_keys (some k) (some g) e f =
    choice_lem keys ghost_keys k g (columns_eq g.columns k.columns) e f refl
best_lem keys ghost_keys none g e f = first_shared-IsChoice keys ghost_keys
best_lem keys ghost_keys (some k) none e f = first_shared-IsChoice keys ghost_keys

-- The key that the migration goes by is empty, which the caller takes for a failure, or it is a
-- primary or unique key of the original table and some key of the ghost table has the same columns.
pub find_best_unique_key_lem :
    (original ghost : TableStructure)
    → IsChoice (find_best_unique_key original ghost) original.keys ghost.keys
unfolding find_best_unique_key get_primary_key get_unique_keys
find_best_unique_key_lem original ghost =
    best_lem original.keys ghost.keys (primary_in original.keys) (primary_in ghost.keys) refl refl
