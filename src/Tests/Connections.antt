-- ===== src/Tests/Connections.antt =====
-- A connection whose question for the version throws.
use gh_ost_cpp.Base.{codes, true, List, [], ◌∷◌}
use gh_ost_cpp.Mysql.Connection.{opens_and_throws}
use gh_ost_cpp.Mysql.Connection.Handle.{Call, connects, disconnects}

abbrev broken_start : List Call
broken_start =
    connects (opens_and_throws true (codes "Lost connection")) 5
      (record { host = codes "db1"; port = 3306 }) (codes "shop")
    ∷ disconnects
    ∷ []
