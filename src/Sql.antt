-- ===== src/Sql.antt =====
-- The ALTER statement and the statements built from it: include/sql/types.hpp, src/sql/types.cpp,
-- src/sql/builder.cpp and src/sql/parser.cpp.
pub mod Types
pub mod Builder
pub mod GhostTable
pub mod Pairs
pub mod Column
pub mod Operation
pub mod Parser
pub mod Query
pub mod Encoding
