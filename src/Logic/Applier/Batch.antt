-- ===== src/Logic/Applier/Batch.antt =====
-- `ApplyBatch` as a transaction.
use gh_ost_cpp.Base.{
  length, take, drop, ℕ, zero, suc, ◌≡◌, refl, sym, ap, ◌∙◌, ◌⊎◌, inl, inr, Bool, true, false,
  Option, none, some, List, [], ◌∷◌, ◌++◌, append-nil, arith,
}
use gh_ost_cpp.Binlog.Rows.{BinlogDmlEvent}
use gh_ost_cpp.Binlog.Entry.{BinlogEntry}
use gh_ost_cpp.Mysql.Server.{Request, begin_transaction, commit, rollback, Server}
use gh_ost_cpp.Context.{MigrationContext}
use gh_ost_cpp.Logic.Applier.{Applier, apply_dml_event, apply_if_any}
use gh_ost_cpp.Logic.Applier.Statements.{statements_of_rows, Applied, apply_dml_event_lem}

abbrev pub requests_of_event : MigrationContext → Option BinlogDmlEvent → List Request
requests_of_event ctx none = []
requests_of_event ctx (some e) = statements_of_rows e.dml_type ctx e.rows

-- The statements of all the events, in order.
abbrev pub requests_of_entries : MigrationContext → List BinlogEntry → List Request
requests_of_entries ctx [] = []
requests_of_entries ctx (entry ∷ entries) =
    requests_of_event ctx entry.dml_event ++ requests_of_entries ctx entries

-- All the requests, or a part of them from the first on.
abbrev pub Sends : List Request → Bool × Applier → Applier → Type 0
Sends requests result a =
    (((result.0 ≡ true) × ((result.1).sent ≡ a.sent ++ requests))
      ⊎ ((result.0 ≡ false)
          × ((part : List Request) × (rest : List Request) × (part ++ rest ≡ requests)
              × ((result.1).sent ≡ a.sent ++ part))))
    × ((result.1).context ≡ a.context)

take-drop : (n : ℕ) (l : List Request) → take n l ++ drop n l ≡ l
take-drop zero l = refl
take-drop (suc n) [] = refl
take-drop (suc n) (r ∷ l) = ap (λ t. r ∷ t) (take-drop n l)

take_all : (n : ℕ) (l : List Request) → n ≡ length l → take n l ≡ l
take_all zero [] e = refl
take_all zero (r ∷ l) e = ground arith
take_all (suc n) [] e = refl
take_all (suc n) (r ∷ l) e = ap (λ t. r ∷ t) (take_all n l (omega arith))

Applied-Sends :
    (requests : List Request) (n : ℕ) (result : Bool × Applier) (a : Applier)
    → Applied requests n result a
    → Sends requests result a
Applied-Sends requests n (true, b) a (outcome, sent, count, same) =
    (inl (refl, sent ∙ ap (λ l. a.sent ++ l) (take_all n requests (ground arith))), same)
Applied-Sends requests n (false, b) a (outcome, sent, count, same) = (
  inr (refl, (take (suc n) requests, drop (suc n) requests, take-drop (suc n) requests, sent)),
  same,
)

-- How a batch ends.
abbrev pub BatchEnds : List Request → Bool × Applier → Applier → Type 0
BatchEnds requests result a =
    ((result.0 ≡ true) × ((result.1).sent ≡ a.sent ++ begin_transaction ∷ requests ++ commit ∷ []))
    ⊎ ((result.0 ≡ false)
        × (((result.1).sent ≡ a.sent ++ begin_transaction ∷ [])
            ⊎ (((result.1).sent ≡ a.sent ++ begin_transaction ∷ requests ++ commit ∷ [])
                ⊎ ((part : List Request) × (rest : List Request) × (part ++ rest ≡ requests)
                    × ((result.1).sent ≡ a.sent ++ begin_transaction ∷ part ++ rollback ∷ [])))))

module _ (srv : Server) where
  pub apply_if_any_lem :
      (o : Option BinlogDmlEvent) (a : Applier)
      → Sends (requests_of_event a.context o) (apply_if_any srv o a) a
  unfolding apply_if_any
  apply_if_any_lem none a = (inl (refl, sym (append-nil a.sent)), refl)
  apply_if_any_lem (some e) a =
      let (n, facts) = apply_dml_event_lem srv e a in
      Applied-Sends (statements_of_rows e.dml_type a.context e.rows) n (apply_dml_event srv e a) a
        facts
