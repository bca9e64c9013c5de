-- ===== src/Mysql.antt =====
-- include/mysql and src/mysql: the addresses of servers, the structure of tables, and the server as
-- the other parts see it.
pub mod InstanceKey
pub mod Structure
pub mod Server
pub mod Version
pub mod Statements
pub mod Utils
pub mod Connection
