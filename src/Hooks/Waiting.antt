-- ===== src/Hooks/Waiting.antt =====
-- `ExecuteProcess` waits for a hook until it ends or the timeout is over, and no longer.
use gh_ost_cpp.Base.{ℕ, suc, ◌≤◌, ◌<◌, ◌≡◌, ◌⊎◌, Bool, true, false, Option, some}
use gh_ost_cpp.Hooks.{HookResult, still_running, ended, HookProcess, in_time, exit_result}

-- the readings of the clock, and of the child, in the rounds from `j` up to `k`
abbrev pub KeepsWaiting : HookProcess → ℕ → ℕ → ℕ → Type 0
KeepsWaiting p limit j k =
    (m : ℕ) → j ≤ m → m < k → (in_time p limit (suc m) ≡ true) × (p.waited (suc m) ≡ still_running)

-- The result `r` of a loop that ends behind the round `k`: the child has ended, or it is too late.
abbrev EndsAt : HookProcess → ℕ → ℕ → HookResult → Option (HookResult × ℕ) → Type 0
EndsAt p limit k r looped =
    ((exited : Bool) × (code : ℕ) × (in_time p limit (suc k) ≡ true)
      × (p.waited (suc k) ≡ ended exited code)
      × (looped ≡ some (exit_result exited code r, suc (suc k))))
    ⊎ ((in_time p limit (suc k) ≡ false) × (looped ≡ some (r, suc (suc k))))
