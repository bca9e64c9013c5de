-- ===== src/Tests/Positions.antt =====
-- Coordinates in the binary log.
use gh_ost_cpp.Base.{codes}
use gh_ost_cpp.Binlog.Coordinates.{BinlogCoordinates}

abbrev third_file : BinlogCoordinates
third_file = record { file = codes "mysql-bin.000003"; position = 120 }

abbrev fourth_file : BinlogCoordinates
fourth_file = record { file = codes "mysql-bin.000004"; position = 4 }

abbrev other_series : BinlogCoordinates
other_series = record { file = codes "relay-bin.000003"; position = 120 }
