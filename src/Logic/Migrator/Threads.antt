-- ===== src/Logic/Migrator/Threads.antt =====
-- The threads under every schedule: who sets the flags, and which loops end.
use gh_ost_cpp.Base.{all, ◌≡◌, Bool, true, false, not, List, [], ◌∷◌, arith}
use gh_ost_cpp.Mysql.Server.{Server}
use gh_ost_cpp.Logic.Migrator.{
  Migrator, Turn, cancels, take_turn, run_turns, row_copy_turn, events_apply_turn, heartbeat_turn,
  throttle_turn, pause, resume, throttle, unthrottle, begin_cancel,
}

abbrev pub is_cancel : Turn → Bool
is_cancel cancels = true
is_cancel _ = false

-- Nobody calls `Cancel`.
abbrev pub NeverCancels : List Turn → Type 0
NeverCancels ts = all (λ t. not (is_cancel t)) ts ≡ true

module _ (srv : Server) where
  -- What each turn keeps, a schedule keeps.
  pub run_turns-keeps :
      (P : Migrator → Type 0) (allowed : Turn → Bool)
      → ((t : Turn) (m : Migrator) → allowed t ≡ true → P m → P (take_turn srv t m))
      → (ts : List Turn) (m : Migrator) → all allowed ts ≡ true
      → P m
      → P (run_turns srv ts m)
  unfolding run_turns
  run_turns-keeps P allowed keeps [] m a p = p
  run_turns-keeps P allowed keeps (t ∷ ts) m a p =
      run_turns-keeps P allowed keeps ts (take_turn srv t m) (ground arith)
        (keeps t m (ground arith) p)

  abbrev BothLoop : Migrator → Type 0
  BothLoop m =
      (m.is_running ≡ true)
      × (m.is_cancelled ≡ false)
      × (m.heartbeat_alive ≡ true)
      × (m.throttle_alive ≡ true)

  take_turn-BothLoop :
      (t : Turn) (m : Migrator)
      → not (is_cancel t) ≡ true
      → BothLoop m
      → BothLoop (take_turn srv t m)
  unfolding take_turn row_copy_turn events_apply_turn heartbeat_turn throttle_turn pause resume
      throttle unthrottle begin_cancel
  take_turn-BothLoop t m n b = ground arith

  -- The heartbeat and the throttle thread of a running migration never end, in whatever order the
  -- threads run, unless somebody calls `Cancel`.
  pub heartbeat-never_ends :
      (ts : List Turn) (m : Migrator)
      → NeverCancels ts
      → m.is_running ≡ true
      → m.is_cancelled ≡ false
      → m.heartbeat_alive ≡ true
      → m.throttle_alive ≡ true
      → ((run_turns srv ts m).heartbeat_alive ≡ true) × ((run_turns srv ts m).throttle_alive ≡ true)
  heartbeat-never_ends ts m n r c h t =
      let (_, _, beats_on, checks_on) =
        run_turns-keeps BothLoop (λ u. not (is_cancel u)) take_turn-BothLoop ts m n (r, c, h, t) in
      (beats_on, checks_on)
