-- ===== src/Time/Limits.antt =====
-- How far apart a `RateLimiter` lets its callers through, and what a deadline leaves.
use gh_ost_cpp.Base.{
  leb, if◌then◌else◌, leb→le, Bool-cases, ℕ, ◌+◌, ◌*◌, ◌≤◌, inl, inr, List, [], ◌∷◌, arith,
}
use gh_ost_cpp.Time.{Elapsed, RateLimiter, should_proceed}

-- the times at which `ShouldProceed` returns true, of the times at which it is called
unfoldable pub granted : Elapsed → List ℕ → RateLimiter → List ℕ
granted elapsed [] l = []
granted elapsed (now ∷ nows) l =
    let result = should_proceed elapsed now l in
    let rest = granted elapsed nows result.1 in if result.0 then now ∷ rest else rest

-- Times that never go back, from one on.
abbrev pub Ascends : ℕ → List ℕ → Type 0
Ascends from [] = Unit
Ascends from (now ∷ nows) = (from ≤ now) × Ascends now nows

-- Each time is a number of milliseconds or more behind the one before.
abbrev pub Spaced : ℕ → ℕ → List ℕ → Type 0
Spaced millis last [] = Unit
Spaced millis last (now ∷ nows) = (last + millis * 1000000 ≤ now) × Spaced millis now nows

Ascends-from : (a b : ℕ) (nows : List ℕ) → a ≤ b → Ascends b nows → Ascends a nows
Ascends-from a b [] le h = tt
Ascends-from a b (now ∷ nows) le h = (omega (arith, h.0), h.1)

-- Called at times that never go back, a rate limiter lets no two callers through that are less than its
-- interval apart, where the milliseconds between two times are rounded down.
pub granted-Spaced :
    (elapsed : Elapsed) (nows : List ℕ) (l : RateLimiter)
    → ((a b : ℕ) → a ≤ b → a + elapsed a b * 1000000 ≤ b)
    → Ascends l.last_execution nows
    → Spaced l.interval_millis l.last_execution (granted elapsed nows l)
unfolding granted should_proceed
granted-Spaced elapsed [] l rounds h = tt
granted-Spaced elapsed (now ∷ nows) l rounds h =
    elim (Bool-cases (leb l.interval_millis (elapsed l.last_execution now))) [
      | inl e ↦ rw e (
          let far = rounds l.last_execution now h.0 in
          let long = leb→le l.interval_millis (elapsed l.last_execution now) e in
          (omega arith, granted-Spaced elapsed nows (record l { last_execution = now }) rounds h.1))
      | inr e ↦
          rw e
            (granted-Spaced elapsed nows l rounds (Ascends-from l.last_execution now nows h.0 h.1))
    ]
