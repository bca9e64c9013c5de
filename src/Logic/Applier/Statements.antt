-- ===== src/Logic/Applier/Statements.antt =====
-- What `ApplyDMLEvent` sends to the server.
use gh_ost_cpp.Base.{
  if◌then◌else◌, Bool-cases, length, take, ℕ, zero, suc, ◌<◌, ◌≡◌, refl, sym, ◌∙◌, ◌⊎◌, inl, inr,
  Bool, true, false, List, [], ◌∷◌, ◌++◌, map, append-nil, append_assoc, arith,
}
use gh_ost_cpp.Binlog.Rows.{BinlogRowData, BinlogDmlEvent, DmlType}
use gh_ost_cpp.Mysql.Server.{Request, execute, Server}
use gh_ost_cpp.Context.{MigrationContext}
use gh_ost_cpp.Logic.Applier.{
  Applier, send, build_sql, apply_rows, apply_dml_event, count_applied, next_count,
}

-- The statements of the rows, in order.
abbrev pub statements_of_rows : DmlType → MigrationContext → List BinlogRowData → List Request
statements_of_rows type ctx rows = map (λ row. execute (build_sql type ctx row)) rows

-- The count, and the number of rows that went through.
abbrev pub counted : ℕ → ℕ → ℕ
counted count zero = count
counted count (suc n) = counted (next_count count) n

-- How a list of statements ends: all of them accepted, or cut after the first that is refused, which
-- is sent too.
abbrev pub Applied : List Request → ℕ → Bool × Applier → Applier → Type 0
Applied requests n result a =
    (((result.0 ≡ true) × (n ≡ length requests)) ⊎ ((result.0 ≡ false) × (n < length requests)))
    × ((result.1).sent ≡ a.sent ++ take (if result.0 then n else suc n) requests)
    × ((result.1).applied_count ≡ counted a.applied_count n)
    × ((result.1).context ≡ a.context)

abbrev pub with_sent : Request → Applier → Applier
with_sent r a = record a { sent = a.sent ++ r ∷ [] }

Applied-more :
    (r : Request) (requests : List Request) (n : ℕ) (result : Bool × Applier) (a : Applier)
    → Applied requests n result (count_applied (with_sent r a))
    → Applied (r ∷ requests) (suc n) result a
Applied-more r requests n (true, b) a (outcome, sent, count, same) =
    (ground arith, sent ∙ append_assoc a.sent (r ∷ []) (take n requests), count, same)
Applied-more r requests n (false, b) a (outcome, sent, count, same) =
    (ground arith, sent ∙ append_assoc a.sent (r ∷ []) (take (suc n) requests), count, same)

module _ (srv : Server) where
  pub send_lem :
      (r : Request) (a : Applier)
      → send srv r a ≡ (srv.accepts a.sent r, record a { sent = a.sent ++ r ∷ [] })
  unfolding send
  send_lem r a = refl

  apply_rows_lem :
      (type : DmlType) (rows : List BinlogRowData) (a : Applier)
      → (n : ℕ) × Applied (statements_of_rows type a.context rows) n (apply_rows srv type rows a) a
  unfolding apply_rows
  apply_rows_lem type [] a = (0, (inl (refl, refl), sym (append-nil a.sent), refl, refl))
  apply_rows_lem type (row ∷ rows) a =
      let r = execute (build_sql type a.context row) in
      let a₁ = with_sent r a in
      let (n, facts) = apply_rows_lem type rows (count_applied a₁) in
      elim (Bool-cases (srv.accepts a.sent r)) [
        | inl ok ↦
            rw (send_lem r a, ok)
              (
                suc n,
                Applied-more r (statements_of_rows type a.context rows) n
                    (apply_rows srv type rows (count_applied a₁)) a facts,
              )
        | inr refused ↦ rw (send_lem r a, refused) (0, (ground arith, refl, refl, refl))
      ]

  pub apply_dml_event_lem :
      (e : BinlogDmlEvent) (a : Applier)
      → (n : ℕ) × Applied
          (statements_of_rows e.dml_type a.context e.rows)
          n
          (apply_dml_event srv e a)
          a
  unfolding apply_dml_event
  apply_dml_event_lem e a = apply_rows_lem e.dml_type e.rows a
