-- ===== src/Strings/Comments.antt =====
-- `RemoveSQLComments` of src/utils/string_utils.cpp.
use gh_ost_cpp.Base.{
  ◌==◌, if◌then◌else◌, Bytes, codes, ℕ, ◌≡◌, refl, Bool, true, false, ◌&&◌, ◌||◌, [], ◌∷◌, ◌++◌,
}

pub data Mode : Type 0 where
  in_code in_line in_block : Mode
  in_string : ℕ → Mode

-- What the loop does at a character: what it adds to the result, where it stands then, and whether it
-- steps over the next character, too.
pub record Turn : Type 0 where
  pub added : Bytes
  pub mode : Mode
  pub takes_two : Bool

abbrev turn : Bytes → Mode → Bool → Turn
turn added mode takes_two = record { added = added; mode = mode; takes_two = takes_two }

abbrev next_is : ℕ → Bytes → Bool
next_is c [] = false
next_is c (d ∷ s) = d == c

turn_at : Mode → ℕ → Bytes → Turn
turn_at (in_string q) c s =
    if c == q && next_is q s
    then turn (c ∷ q ∷ []) (in_string q) true
    else if c == q
    then turn (c ∷ []) in_code false
    else turn (c ∷ []) (in_string q) false
turn_at in_code c s =
    if c == b'\'' || c == b'"'
    then turn (c ∷ []) (in_string c) false
    else if c == b'-' && next_is b'-' s
    then turn [] in_line true
    else if c == b'/' && next_is b'*' s
    then turn [] in_block true
    else turn (c ∷ []) in_code false
turn_at in_line c s = if c == 10 then turn (c ∷ []) in_code false else turn [] in_line false
turn_at in_block c s =
    if c == b'*' && next_is b'/' s then turn [] in_code true else turn [] in_block false

remove_from : Mode → Bytes → Bytes
unfolding turn_at
remove_from mode [] = []
remove_from mode (c ∷ []) = (turn_at mode c []).added
remove_from mode (c ∷ d ∷ s) =
    let t = turn_at mode c (d ∷ s) in
    t.added ++ elim t.takes_two [ true ↦ remove_from t.mode s | false ↦ remove_from t.mode (d ∷ s) ]

unfoldable pub remove_sql_comments : Bytes → Bytes
unfolding remove_from
remove_sql_comments sql = remove_from in_code sql

remove_sql_comments_runs :
    (remove_sql_comments (codes "a /* b */ c") ≡ codes "a  c")
    × (remove_sql_comments (codes "'--' -- x") ≡ codes "'--' ")
unfolding remove_sql_comments
remove_sql_comments_runs = (refl, refl)
