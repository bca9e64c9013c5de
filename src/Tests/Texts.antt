-- ===== src/Tests/Texts.antt =====
-- Quoting, splitting and numbers.
use gh_ost_cpp.Base.{Bytes, codes, ◌≡◌, some, ◌++◌, arith}
use gh_ost_cpp.Strings.Quote.{quote_for_sql, literal}
use gh_ost_cpp.Strings.Quote.ReadBack.{literal-quote_for_sql}

literal-quote_for_sql_example :
    let s : Bytes = codes "it's" in
    let rest : Bytes = codes ", 2" in literal (quote_for_sql s b'\'' ++ rest) ≡ some (s, rest)
literal-quote_for_sql_example =
    literal-quote_for_sql (codes "it's") (codes ", 2") (λ e. ground arith)
