-- ===== src/Logic/Checkpoint/Resume.antt =====
-- Hints read back, and what a migration resumes from.
use gh_ost_cpp.Base.{
  if◌then◌else◌, codes, bytes_eq, ◌<◌, ◌≡◌, refl, Bool, true, false, not, ◌||◌, some, [], ◌∷◌,
  arith,
}
use gh_ost_cpp.Strings.Split.{has}
use gh_ost_cpp.Strings.Number.{u64_mod}
use gh_ost_cpp.Binlog.Coordinates.{BinlogCoordinates, is_valid, to_text, parse, parse-to_text}
use gh_ost_cpp.Mysql.Server.{Row, get, value_of}
use gh_ost_cpp.Context.{MigrationContext}
use gh_ost_cpp.Logic.Checkpoint.{
  Hint, completed, cancelled, panic_abort, CheckpointState, hint_to_string, parse_hint, is_complete,
  is_cancelled, can_resume, parse_changelog_entry, read_checkpoint, resume_from_checkpoint,
}

-- Every hint is read back from its text.
pub parse_hint-hint_to_string : (h : Hint) → parse_hint (hint_to_string h) ≡ h
unfolding parse_hint hint_to_string
parse_hint-hint_to_string h = ground arith

-- The migration that wrote the hint is over.
abbrev pub is_over : Hint → Bool
is_over completed = true
is_over cancelled = true
is_over panic_abort = true
is_over _ = false

-- The row of the changelog with the hint and the text of the coordinates.
abbrev pub changelog_row : Hint → BinlogCoordinates → Row
changelog_row h c = record {
  values = hint_to_string h ∷ to_text c ∷ [];
  column_names = codes "hint" ∷ codes "value" ∷ [];
}

if_not : {A : Type 0} (b : Bool) (x y : A) → (if not b then x else y) ≡ (if b then y else x)
if_not true x y = refl
if_not false x y = refl

can_resume_lem :
    (h : Hint) (s : CheckpointState) → s.hint ≡ hint_to_string h → can_resume s ≡ is_over h
unfolding can_resume is_complete is_cancelled hint_to_string
can_resume_lem h s e = rw e (by_hint h)
  where
    by_hint :
        (h : Hint)
        → (bytes_eq (hint_to_string h) (codes "completed")
            || (bytes_eq (hint_to_string h) (codes "cancelled")
                || bytes_eq (hint_to_string h) (codes "panic-abort")))
          ≡ is_over h
    by_hint h = ground arith

read_lem :
    (h : Hint) (c : BinlogCoordinates) (s : CheckpointState)
    → parse (to_text c) ≡ some c
    → read_checkpoint (some (changelog_row h c)) s
      ≡ (true, record { hint = hint_to_string h; value = to_text c; coordinates = c })
unfolding read_checkpoint parse_changelog_entry get value_of
read_lem h c s e = rw e refl

-- From a row with a hint and valid coordinates, whose file name has no colon, a migration resumes just
-- where the hint says that the migration that wrote it was over, and then at these coordinates: a
-- migration that was interrupted, and left a heartbeat, cannot resume.
pub resume_from_checkpoint-read_checkpoint :
    (h : Hint) (c : BinlogCoordinates) (s : CheckpointState) (ctx : MigrationContext)
    → is_valid c ≡ true
    → has b':' c.file ≡ false
    → c.position < u64_mod
    → resume_from_checkpoint (read_checkpoint (some (changelog_row h c)) s).1 ctx
      ≡ (if is_over h then (true, record ctx { current_coordinates = c }) else (false, ctx))
unfolding resume_from_checkpoint
resume_from_checkpoint-read_checkpoint h c s ctx v n f =
    let read : CheckpointState = record {
      hint = hint_to_string h;
      value = to_text c;
      coordinates = c;
    } in
    rw (read_lem h c s (parse-to_text c v n f), can_resume_lem h read refl)
      (if_not (is_over h) (false, ctx) (true, record ctx { current_coordinates = c }))
