-- ===== src/Tests/Applier.antt =====
-- The applier with events and chunks of `orders`.
use gh_ost_cpp.Mysql.Server.{Server}
use gh_ost_cpp.Logic.Applier.{Applier}
