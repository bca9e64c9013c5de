-- ===== src/Mysql/Connection.antt =====
-- `Connection` of src/mysql/connection.cpp, built on MySQL Connector/C++. What a call of the connector
-- does, and the clock, are parameters.
pub mod Handle
use gh_ost_cpp.Base.{
  if◌then◌else◌, get_elem?, is_empty, Bytes, codes, bytes_eq, ℕ, Bool, true, false, not, ◌&&◌,
  Option, none, some, List, [],
}
use gh_ost_cpp.Mysql.InstanceKey.{InstanceKey, no_instance}
use gh_ost_cpp.Mysql.Server.{Row}

-- `has_handle` is whether `connection_` is set; `in_transaction` starts uninitialised.
pub record Connection : Type 0 where
  pub has_driver : Bool
  pub has_handle : Bool
  pub connected : Bool
  pub impl_connected : Bool
  pub in_transaction : Bool
  pub database : Bytes
  pub instance_key : InstanceKey
  pub server_version : Bytes
  pub last_error : Bytes
  pub last_error_time : ℕ

unfoldable pub create : Bool → Bool → ℕ → Connection
create has_driver in_transaction error_time = record {
  has_driver = has_driver;
  has_handle = false;
  connected = false;
  impl_connected = false;
  in_transaction = in_transaction;
  database = [];
  instance_key = no_instance;
  server_version = [];
  last_error = [];
  last_error_time = error_time;
}

-- What `driver_->connect`, `isValid` and the question for the version do: no connection; one that
-- throws in `isValid`; one, valid or not, whose question throws; or one that answers, with a row or
-- without.
pub data Attempt : Type 0 where
  refused opens_unchecked : Bytes → Attempt
  opens_and_throws : Bool → Bytes → Attempt
  opens : Bool → Option Bytes → Attempt

-- what a call that returns a value does, or throws with a message
pub data Answer {ℓ} (A : Type ℓ) : Type ℓ where
  answers : A → Answer A
  throws : Bytes → Answer A

-- of a call that returns nothing
abbrev pub Done : Type 0
Done = Answer {0} Unit

abbrev note_error : Bytes → ℕ → Connection → Connection
note_error what now c = record c { last_error = what; last_error_time = now }

abbrev with_database : Bytes → Connection → Connection
with_database database c = if is_empty database then c else record c { database = database }

-- the part of `Connect` behind `driver_->connect`
abbrev opened : Bool → InstanceKey → Connection → Connection
opened valid key c = record c {
  has_handle = true;
  connected = valid;
  impl_connected = valid;
  instance_key = key;
}

unfoldable pub connect : Attempt → ℕ → InstanceKey → Bytes → Connection → Bool × Connection
connect attempt now key database c =
    if not c.has_driver
    then (false, record c { last_error = codes "MySQL driver not available" })
    else (let d = with_database database c in
        elim attempt [
          | refused what ↦ (false, note_error what now d)
          | opens_unchecked what ↦ (false, note_error what now (record d { has_handle = true }))
          | opens_and_throws valid what ↦ (false, note_error what now (opened valid key d))
          | opens valid none ↦ (true, opened valid key d)
          | opens valid (some version) ↦
              (true, record (opened valid key d) { server_version = version })
        ])

unfoldable pub disconnect : Connection → Connection
disconnect c = record c { has_handle = false; connected = false; impl_connected = false }

unfoldable pub is_connected : Connection → Bool
is_connected c = c.connected && c.impl_connected

unfoldable pub set_database : Done → Bytes → Connection → Connection
set_database answer database c =
    if c.has_handle
    then elim answer [
      | answers u ↦ record c { database = database }
      | throws what ↦ record c { last_error = what }
    ]
    else c

-- What a method leaves: its result, and whether it used `connection_`.
pub record Used {ℓ} (A : Type ℓ) : Type ℓ where
  pub result : A
  pub uses_handle : Bool
  pub next : Connection

pub record QueryResult : Type 0 where
  pub success : Bool
  pub error : Bytes
  pub affected_rows : ℕ
  pub last_insert_id : ℕ

abbrev failure : Bytes → QueryResult
failure error = record { success = false; error = error; affected_rows = 0; last_insert_id = 0 }

unfoldable pub execute : Answer ℕ → ℕ → Connection → Used QueryResult
unfolding is_connected
execute answer now c =
    if not (is_connected c)
    then record { result = failure (codes "Not connected"); uses_handle = false; next = c }
    else elim answer [
      | answers n ↦ record {
        result = record { success = true; error = []; affected_rows = n; last_insert_id = 0 };
        uses_handle = true;
        next = c;
      }
      | throws what ↦ record {
        result = failure what;
        uses_handle = true;
        next = note_error what now c;
      }
    ]

-- `Query`, with the rows that are read before the end or the throw
unfoldable pub query : List Row → Done → ℕ → Connection → Used (List Row)
unfolding is_connected
query rows answer now c =
    if not (is_connected c)
    then record { result = []; uses_handle = false; next = c }
    else elim answer [
      | answers u ↦ record { result = rows; uses_handle = true; next = c }
      | throws what ↦ record { result = rows; uses_handle = true; next = note_error what now c }
    ]

unfoldable pub query_row : List Row → Done → ℕ → Connection → Used (Option Row)
unfolding query
query_row rows answer now c =
    let q = query rows answer now c in
    record { result = get_elem? q.result 0; uses_handle = q.uses_handle; next = q.next }

unfoldable pub query_value : List Row → Done → ℕ → Connection → Used (Option Bytes)
unfolding query_row
query_value rows answer now c =
    let q = query_row rows answer now c in
    record {
      result = elim q.result [ none ↦ none | some row ↦ get_elem? row.values 0 ];
      uses_handle = q.uses_handle;
      next = q.next;
    }

unfoldable pub begin_transaction : Done → Connection → Bool × Connection
begin_transaction answer c =
    if c.has_handle
    then elim answer [
      | answers u ↦ (true, record c { in_transaction = true })
      | throws what ↦ (false, record c { last_error = what })
    ]
    else (false, c)

-- `Commit`, and `Rollback`, which differs in the call of the connector alone.
unfoldable pub end_transaction : Done → Connection → Bool × Connection
end_transaction answer c =
    if c.has_handle && c.in_transaction
    then elim answer [
      | answers u ↦ (true, record c { in_transaction = false })
      | throws what ↦ (false, record c { last_error = what })
    ]
    else (false, c)

unfoldable pub ping : List Row → Done → ℕ → Connection → Used Bool
unfolding query_value
ping rows answer now c =
    if c.has_handle
    then (let q = query_value rows answer now c in
        record {
          result = elim q.result [ none ↦ false | some v ↦ bytes_eq v (codes "1") ];
          uses_handle = q.uses_handle;
          next = q.next;
        })
    else record { result = false; uses_handle = false; next = c }
