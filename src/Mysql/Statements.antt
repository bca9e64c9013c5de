-- ===== src/Mysql/Statements.antt =====
-- The statements that src/mysql/utils.cpp makes.
use gh_ost_cpp.Base.{if◌then◌else◌, is_empty, Bytes, codes, ℕ, not, ◌&&◌, List, [], ◌∷◌, ◌++◌}
use gh_ost_cpp.Strings.Split.{join}
use gh_ost_cpp.Strings.Number.{to_string}
use gh_ost_cpp.Strings.Quote.{escape_for_sql, quote_identifier}

-- `Connection::QuoteIdentifier`
abbrev pub quoted : Bytes → Bytes
quoted name = quote_identifier name b'`'

unfoldable pub format_value_for_sql : Bytes → Bytes
format_value_for_sql value = codes "'" ++ (escape_for_sql value ++ codes "'")

unfoldable pub build_select_all_sql : Bytes → Bytes → Bytes → Bytes → Bytes → ℕ → Bytes
unfolding format_value_for_sql
build_select_all_sql database table key_column min_value max_value limit =
    let key = quoted key_column in
    codes "SELECT * FROM "
    ++ (quoted database
        ++ (codes "."
            ++ (quoted table
                ++ ((if not (is_empty min_value) && not (is_empty max_value)
                      then codes " WHERE "
                        ++ (key
                            ++ (codes " > "
                                ++ (format_value_for_sql min_value
                                    ++ (codes " AND "
                                        ++ (key
                                            ++ (codes " <= " ++ format_value_for_sql max_value))))))
                      else [])
                    ++ (codes " ORDER BY " ++ (key ++ (codes " LIMIT " ++ to_string limit)))))))

unfoldable pub build_insert_sql : Bytes → Bytes → List Bytes → List Bytes → Bytes
build_insert_sql database table columns values =
    codes "INSERT INTO "
    ++ (quoted database
        ++ (codes "."
            ++ (quoted table
                ++ (codes " ("
                    ++ (join columns (codes ", ")
                        ++ (codes ")"
                            ++ (codes " VALUES (" ++ (join values (codes ", ") ++ codes ")"))))))))

-- the loop over the updates
unfoldable pub set_list : List (Bytes × Bytes) → Bytes
set_list [] = []
set_list ((column, value) ∷ []) = quoted column ++ (codes " = " ++ value)
set_list ((column, value) ∷ u ∷ us) =
    quoted column ++ (codes " = " ++ (value ++ (codes ", " ++ set_list (u ∷ us))))

unfoldable pub build_update_sql : Bytes → Bytes → Bytes → Bytes → List (Bytes × Bytes) → Bytes
unfolding set_list format_value_for_sql
build_update_sql database table key_column key_value updates =
    codes "UPDATE "
    ++ (quoted database
        ++ (codes "."
            ++ (quoted table
                ++ (codes " SET "
                    ++ (set_list updates
                        ++ (codes " WHERE "
                            ++ (quoted key_column
                                ++ (codes " = " ++ format_value_for_sql key_value))))))))

unfoldable pub build_delete_sql : Bytes → Bytes → Bytes → Bytes → Bytes
unfolding format_value_for_sql
build_delete_sql database table key_column key_value =
    codes "DELETE FROM "
    ++ (quoted database
        ++ (codes "."
            ++ (quoted table
                ++ (codes " WHERE "
                    ++ (quoted key_column ++ (codes " = " ++ format_value_for_sql key_value))))))
