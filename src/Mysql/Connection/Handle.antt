-- ===== src/Mysql/Connection/Handle.antt =====
-- No method of a connection uses a handle that is not there.
use gh_ost_cpp.Base.{Bytes, ℕ, ◌≡◌, Bool, false, not, ◌&&◌, List, [], ◌∷◌}
use gh_ost_cpp.Mysql.InstanceKey.{InstanceKey}
use gh_ost_cpp.Mysql.Server.{Row}
use gh_ost_cpp.Mysql.Connection.{
  Connection, Attempt, Answer, Done, connect, disconnect, set_database, execute, query_value,
  begin_transaction, end_transaction, ping,
}

-- A call of a method, with what the connector does in it.
pub data Call : Type 0 where
  connects : Attempt → ℕ → InstanceKey → Bytes → Call
  disconnects : Call
  sets_database : Done → Bytes → Call
  executes : Answer ℕ → ℕ → Call
  queries pings : List Row → Done → ℕ → Call
  begins ends : Done → Call

abbrev pub after_call : Call → Connection → Connection
after_call (connects attempt now key database) c = (connect attempt now key database c).1
after_call disconnects c = disconnect c
after_call (sets_database answer database) c = set_database answer database c
after_call (executes answer now) c = (execute answer now c).next
after_call (queries rows answer now) c = (query_value rows answer now c).next
after_call (pings rows answer now) c = (ping rows answer now c).next
after_call (begins answer) c = (begin_transaction answer c).1
after_call (ends answer) c = (end_transaction answer c).1

unfoldable pub run_calls : List Call → Connection → Connection
run_calls [] c = c
run_calls (call ∷ calls) c = run_calls calls (after_call call c)

-- Both flags of a connection are the same, and where they are set, so is the handle.
abbrev pub IsConsistent : Connection → Type 0
IsConsistent c = (c.connected ≡ c.impl_connected) × ((c.connected && not c.has_handle) ≡ false)

-- whether the handle is used where it is not there
abbrev pub misuses_handle : Call → Connection → Bool
misuses_handle (executes answer now) c = (execute answer now c).uses_handle && not c.has_handle
misuses_handle (queries rows answer now) c =
    (query_value rows answer now c).uses_handle && not c.has_handle
misuses_handle (pings rows answer now) c = (ping rows answer now c).uses_handle && not c.has_handle
misuses_handle _ c = false
