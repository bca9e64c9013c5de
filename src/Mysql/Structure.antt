-- ===== src/Mysql/Structure.antt =====
-- `ColumnInfo`, `KeyInfo` and `TableStructure` of include/mysql/connection.hpp and
-- src/mysql/connection.cpp, with the enums of include/gh_ost/types.hpp that they use.
use gh_ost_cpp.Base.{
  if◌then◌else◌, any, filterb, Bytes, codes, bytes_eq, Bool, true, false, not, ◌||◌, Option, none,
  some, List, [], ◌∷◌, ◌++◌,
}
use gh_ost_cpp.Strings.Split.{join}
use gh_ost_cpp.Strings.Search.{to_lower}

pub data ColumnType : Type 0 where
  unknown_type integer float double decimal string text blob date_time date : ColumnType
  time timestamp year bool enum set json : ColumnType

pub data UniqueKeyType : Type 0 where
  primary unique not_unique : UniqueKeyType

pub record ColumnInfo : Type 0 where
  pub name : Bytes
  pub type : ColumnType
  pub type_detail : Bytes
  pub nullable : Bool
  pub default_value : Option Bytes
  pub auto_increment : Bool
  pub extra : Bytes

pub record KeyInfo : Type 0 where
  pub name : Bytes
  pub type : UniqueKeyType
  pub columns : List Bytes
  pub is_primary : Bool

pub record TableStructure : Type 0 where
  pub database : Bytes
  pub name : Bytes
  pub columns : List ColumnInfo
  pub keys : List KeyInfo

abbrev pub is_unique : UniqueKeyType → Bool
is_unique unique = true
is_unique _ = false

unfoldable pub has_primary_key : TableStructure → Bool
has_primary_key t = any (λ (k : KeyInfo). k.is_primary) t.keys

unfoldable pub has_unique_key : TableStructure → Bool
has_unique_key t = any (λ (k : KeyInfo). is_unique k.type) t.keys

column_in : Bytes → List ColumnInfo → Option ColumnInfo
unfolding to_lower
column_in name [] = none
column_in name (c ∷ cs) =
    if bytes_eq (to_lower c.name) (to_lower name) then some c else column_in name cs

unfoldable pub get_column : TableStructure → Bytes → Option ColumnInfo
unfolding column_in
get_column t name = column_in name t.columns

unfoldable pub primary_in : List KeyInfo → Option KeyInfo
primary_in [] = none
primary_in (k ∷ ks) = if k.is_primary then some k else primary_in ks

unfoldable pub get_primary_key : TableStructure → Option KeyInfo
unfolding primary_in
get_primary_key t = primary_in t.keys

unfoldable pub get_unique_keys : TableStructure → List KeyInfo
get_unique_keys t = filterb (λ (k : KeyInfo). k.is_primary || is_unique k.type) t.keys

type_name : ColumnType → Bytes
type_name integer = codes " INT"
type_name float = codes " FLOAT"
type_name double = codes " DOUBLE"
type_name decimal = codes " DECIMAL"
type_name string = codes " VARCHAR"
type_name text = codes " TEXT"
type_name blob = codes " BLOB"
type_name date_time = codes " DATETIME"
type_name date = codes " DATE"
type_name time = codes " TIME"
type_name timestamp = codes " TIMESTAMP"
type_name year = codes " YEAR"
type_name bool = codes " BOOL"
type_name enum = codes " ENUM"
type_name set = codes " SET"
type_name json = codes " JSON"
type_name unknown_type = codes " UNKNOWN"

unfoldable pub column_to_text : ColumnInfo → Bytes
unfolding type_name
column_to_text c =
    c.name
    ++ (type_name c.type
        ++ ((if not c.nullable then codes " NOT NULL" else [])
            ++ (if c.auto_increment then codes " AUTO_INCREMENT" else [])))

unfoldable pub key_to_text : KeyInfo → Bytes
unfolding join
key_to_text k =
    (if k.is_primary
      then codes "PRIMARY KEY"
      else if is_unique k.type
      then codes "UNIQUE KEY " ++ k.name
      else codes "INDEX " ++ k.name)
    ++ (codes " (" ++ (join k.columns (codes ", ") ++ codes ")"))
