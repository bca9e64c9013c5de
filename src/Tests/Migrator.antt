-- ===== src/Tests/Migrator.antt =====
-- The migrator on a migration of `orders` in its row copy.
use gh_ost_cpp.Base.{if◌then◌else◌, Bytes, codes, ◌≡◌, refl, false, not, ◌&&◌, List, [], ◌∷◌, ◌++◌}
use gh_ost_cpp.Mysql.Server.{Server}
use gh_ost_cpp.Logic.Migrator.{
  Migrator, execute_cut_over, goes_on, handle_error, Turn, run_turns, row_copy_turn, pause,
  row_copy_stopped, row_copies, resumes,
}
use gh_ost_cpp.Logic.Migrator.CutOver.{
  lock_request, rename_request, unlock_request, execute_cut_over_lem,
}
use gh_ost_cpp.Context.{failed, failed_phase, MigrationContext}
use gh_ost_cpp.Logic.Migrator.Errors.{cleanup_requests, handle_error_lem}
use gh_ost_cpp.Logic.Migrator.RowCopy.{pause-never_resumes, row_copy-never_completes}
use gh_ost_cpp.Tests.Data.{context, migrator, obliging}

execute_cut_over_lem_example :
    let srv : Server = obliging in
    let m : Migrator = migrator in
    let before = m.applier.sent in
    let result = execute_cut_over srv m in
    let after = result.1 in
    let locked = srv.accepts before (lock_request m) in
    let renamed = srv.accepts (before ++ lock_request m ∷ []) (rename_request m) in
    (result.0 ≡ (locked && renamed))
    × (after.applier.sent
        ≡ before
          ++ (if locked
              then lock_request m ∷ rename_request m ∷ unlock_request ∷ []
              else lock_request m ∷ []))
    × (after.applier.context.is_cut_over_phase ≡ not (locked && renamed))
execute_cut_over_lem_example = execute_cut_over_lem obliging migrator

handle_error_lem_example :
    let srv : Server = obliging in
    let error : Bytes = codes "Row copy failed" in
    let m : Migrator = migrator in
    let after = handle_error srv error m in
    let c = after.applier.context in
    (c.status ≡ failed)
    × (c.current_phase ≡ failed_phase)
    × (c.last_error ≡ error)
    × (goes_on after ≡ false)
    × (after.is_streaming ≡ false)
    × (after.applier.sent ≡ m.applier.sent ++ cleanup_requests m)
handle_error_lem_example = handle_error_lem obliging (codes "Row copy failed") migrator

pause-never_resumes_example :
    let srv : Server = obliging in
    let ts : List Turn = resumes ∷ row_copies ∷ row_copies ∷ [] in
    let m : Migrator = migrator in
    let later = run_turns srv ts (row_copy_turn srv (pause m)) in
    (later.row_copy_at ≡ row_copy_stopped) × (later.row_copy_complete ≡ false)
pause-never_resumes_example =
    pause-never_resumes obliging (resumes ∷ row_copies ∷ row_copies ∷ []) migrator refl refl

row_copy-never_completes_example :
    let srv : Server = obliging in
    let ctx : MigrationContext = context in
    let key : Bytes = codes "1" in
    let ts : List Turn = row_copies ∷ row_copies ∷ row_copies ∷ [] in
    let m : Migrator = migrator in
    let later = run_turns srv ts m in
    (later.row_copy_complete ≡ false)
    × (later.applier.context.copied_row_count ≡ ctx.copied_row_count)
row_copy-never_completes_example =
    row_copy-never_completes obliging context (codes "1") (λ sent. refl) refl
      (row_copies ∷ row_copies ∷ row_copies ∷ []) migrator refl refl refl
