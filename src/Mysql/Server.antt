-- ===== src/Mysql/Server.antt =====
-- The MySQL server, which the program reaches through `Connection` of include/mysql/connection.hpp and
-- which is no part of it. Its answers depend on the requests that it has received, oldest first.
use gh_ost_cpp.Base.{if◌then◌else◌, Bytes, bytes_eq, Bool, Option, none, some, List, [], ◌∷◌}
use gh_ost_cpp.Mysql.InstanceKey.{InstanceKey}

-- One row, `RowData`: its values and the names of its columns.
pub record Row : Type 0 where
  pub values : List Bytes
  pub column_names : List Bytes

-- `Execute` of a statement, and the transaction calls of `Connection`.
pub data Request : Type 0 where
  execute : Bytes → Request
  begin_transaction commit rollback : Request

pub record Server : Type 0 where
  -- does the call succeed
  pub accepts : List Request → Request → Bool
  -- the rows of `Query`
  pub rows : List Request → Bytes → List Row
  -- `QueryValue`
  pub value : List Request → Bytes → Option Bytes
  -- `TableExists` of a database and a table
  pub table_exists : List Request → Bytes → Bytes → Bool
  -- `IsConnected`, `GetInstanceKey`, and `GetMasterKey` where `IsReplica` holds
  pub is_connected : Bool
  pub instance_key : InstanceKey
  pub master_key : Option InstanceKey

-- The loop of `RowData::Get` on a column's name: the names and the values left. A row of `Query` has
-- as many values as names.
unfoldable pub value_of : List Bytes → List Bytes → Bytes → Option Bytes
value_of [] values name = none
value_of (c ∷ cs) [] name = none
value_of (c ∷ cs) (v ∷ vs) name =
    let later = value_of cs vs name in if bytes_eq c name then some v else later

unfoldable pub get : Row → Bytes → Option Bytes
get row name = value_of row.column_names row.values name
