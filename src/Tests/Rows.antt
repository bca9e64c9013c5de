-- ===== src/Tests/Rows.antt =====
-- The rows of an event.
use gh_ost_cpp.Base.{length, Bytes, codes, ◌≡◌, some, ◌++◌}
use gh_ost_cpp.Binlog.Rows.{BinlogRowData, to_insert_values_sql}
use gh_ost_cpp.Binlog.Rows.Values.{read_values, read_values-to_insert_values_sql}
use gh_ost_cpp.Tests.Data.{row}
use gh_ost_cpp.Binlog.Coordinates.{BinlogCoordinates}

abbrev third_file : BinlogCoordinates
third_file = record { file = codes "mysql-bin.000003"; position = 120 }

read_values-to_insert_values_sql_example :
    let row : BinlogRowData = row (codes "it's") in
    let rest : Bytes = codes ";" in
    read_values (length row.after_values) (to_insert_values_sql row ++ rest)
    ≡ some (row.after_values, rest)
read_values-to_insert_values_sql_example =
    read_values-to_insert_values_sql (row (codes "it's")) (codes ";")
