-- ===== src/Mysql/InstanceKey.antt =====
-- `InstanceKey` and `InstanceKeyMap` of src/mysql/instance_key.cpp.
use gh_ost_cpp.Base.{
  ltb, ◌==◌, if◌then◌else◌, is_empty, any, Bytes, codes, bytes_eq, ℕ, ◌%◌, ◌^◌, ◌<◌, ◌≡◌, ap, ◌∙◌,
  inr, Bool, true, false, not, ◌&&◌, Option, none, some, List, [], ◌∷◌, ◌++◌, append_assoc, arith,
}
use gh_ost_cpp.Strings.Trim.{trim, is_space, trim_self}
use gh_ost_cpp.Strings.Split.{split, has, split-cons, split_one}
use gh_ost_cpp.Strings.Number.{
  u64_mod, parse_uint16, to_string, parse_uint16-to_string, to_string-has, to_string-head,
}
pub mod Keys
pub mod Order

pub record InstanceKey : Type 0 where
  pub host : Bytes
  pub port : ℕ

abbrev pub no_instance : InstanceKey
no_instance = record { host = []; port = 0 }

unfoldable pub is_valid : InstanceKey → Bool
is_valid k = not (is_empty k.host) && ltb 0 k.port

unfoldable pub to_text : InstanceKey → Bytes
unfolding is_valid to_string
to_text k = if is_valid k then (k.host ++ codes ":") ++ to_string k.port else []

unfoldable pub is_same_as : InstanceKey → InstanceKey → Bool
is_same_as a b = bytes_eq a.host b.host && a.port == b.port

parts_of : List Bytes → Option InstanceKey
unfolding trim parse_uint16
parts_of (h ∷ p ∷ []) = elim (parse_uint16 p) [
  | none ↦ none
  | some port ↦ some (record { host = trim h; port = port })
]
parts_of _ = none

unfoldable pub parse : Bytes → Option InstanceKey
unfolding split parts_of
parse s = parts_of (split s b':')

split-to_string : (n : ℕ) → split (to_string n) b':' ≡ to_string n ∷ []
split-to_string n =
    let (c, s, e, _, _) = to_string-head n in
    rw e (split_one b':' c s (rw e at (to_string-has b':' n (inr (omega arith)))))

parts_of_pair :
    (h p : Bytes) (port : ℕ)
    → parse_uint16 p ≡ some port
    → parts_of (h ∷ p ∷ []) ≡ some (record { host = trim h; port = port })
unfolding parts_of
parts_of_pair h p port e = ground arith

-- A host without colon or white space, and any number of 64 bits behind a colon, are read as that
-- host with the number modulo 2^16 as its port: a port in range is kept, and one out of range is not
-- refused but wraps.
pub parse_wraps :
    (host : Bytes) (n : ℕ)
    → has b':' host ≡ false
    → any is_space host ≡ false
    → n < u64_mod
    → parse (host ++ b':' ∷ to_string n) ≡ some (record { host = host; port = n % 2 ^ 16 })
unfolding parse
parse_wraps host n h s fits =
    rw (split-cons b':' host (to_string n) h, split-to_string n)
      (parts_of_pair host (to_string n) (n % 2 ^ 16) (parse_uint16-to_string n fits)
        ∙ ap (λ (t : Bytes). some (record { host = t; port = n % 2 ^ 16 })) (trim_self host s))

-- Valid keys of hosts without colon or white space are read back from their text.
pub parse-to_text :
    (k : InstanceKey)
    → is_valid k ≡ true
    → has b':' k.host ≡ false
    → any is_space k.host ≡ false
    → k.port < 2 ^ 16
    → parse (to_text k) ≡ some k
unfolding to_text
parse-to_text k v h s fits =
    rw (v, append_assoc k.host (codes ":") (to_string k.port))
      (parse_wraps k.host k.port h s (omega arith)
        ∙ ap (λ (n : ℕ). some (record { host = k.host; port = n })) (omega arith))
