-- ===== src/Logic/Inspector/Tables.antt =====
-- `DetectReplica`, `CompareTables`, `ValidateOriginalTable` and `ValidateGhostTable` of
-- src/logic/inspector.cpp, which a migration does not call.
use gh_ost_cpp.Base.{
  if◌then◌else◌, codes, Bool, true, false, not, Option, none, some, List, [], ◌∷◌, ◌++◌,
}
use gh_ost_cpp.Mysql.InstanceKey.{InstanceKey}
use gh_ost_cpp.Mysql.Structure.{TableStructure, has_primary_key}
use gh_ost_cpp.Mysql.Server.{Request, Server}
use gh_ost_cpp.Mysql.Utils.{counts_any}
use gh_ost_cpp.Context.{MigrationContext}

-- `replica` is the key of the connection to the replica, if it is connected, and `found` is what the
-- connection's `GetReplicaKeys`, which has no implementation, would return.
unfoldable pub detect_replica :
    Option InstanceKey → List InstanceKey → MigrationContext → Bool × MigrationContext
detect_replica (some key) found ctx = (true, record ctx { replica_key = key })
detect_replica none [] ctx = (false, ctx)
detect_replica none (key ∷ keys) ctx = (true, record ctx { replica_key = key })

-- The comparison of the columns is logged and has no effect.
unfoldable pub compare_tables : MigrationContext → Bool
compare_tables ctx = true

module _ (srv : Server) (sent : List Request) where
  unfoldable pub has_foreign_keys : TableStructure → Bool
  has_foreign_keys s = counts_any srv sent (
      codes "SELECT COUNT(*) FROM information_schema.TABLE_CONSTRAINTS WHERE TABLE_SCHEMA = '"
      ++ (s.database
          ++ (codes "' AND TABLE_NAME = '"
              ++ (s.name ++ codes "' AND CONSTRAINT_TYPE = 'FOREIGN KEY'"))))

  -- Foreign keys are a warning.
  unfoldable pub validate_original_table : MigrationContext → Bool
  validate_original_table ctx = if not (has_primary_key ctx.original_structure) then false else true

  unfoldable pub validate_ghost_table : MigrationContext → Bool
  validate_ghost_table ctx = if not (has_primary_key ctx.ghost_structure) then false else true
