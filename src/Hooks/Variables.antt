-- ===== src/Hooks/Variables.antt =====
-- Which hooks are registered, and which variables reach the process of a hook.
use gh_ost_cpp.Base.{
  ◌==◌, if◌then◌else◌, Bool-cases, is_empty, Bytes, codes, bytes_eq, bytes_eq_refl, bytes_eq-cases,
  bytes_eq_sym, ℕ, String, ◌≡◌, refl, sym, inl, inr, true, false, Option, none, some, List, [], ◌∷◌,
  ◌++◌, arith,
}
use gh_ost_cpp.Strings.Split.{split, split-cons, split_one, has, split_from}
use gh_ost_cpp.Context.Config.{HooksConfig}
use gh_ost_cpp.Context.{MigrationContext}
use gh_ost_cpp.Hooks.{
  System, no_result, create, execute_hook, HooksExecutor, assign, register, path_in, initialize,
  get_hook_path, set_variables,
}

-- the settings, by the names of their hooks
abbrev settings : HooksConfig → List (String × Option Bytes)
settings c =
    ("before-migration", c.hook_before_migration)
    ∷ ("after-migration", c.hook_after_migration)
    ∷ ("before-cut-over", c.hook_before_cut_over)
    ∷ ("after-cut-over", c.hook_after_cut_over)
    ∷ ("on-status", c.hook_on_status)
    ∷ ("on-throttle", c.hook_on_throttle)
    ∷ ("on-unthrottle", c.hook_on_unthrottle)
    ∷ ("on-failure", c.hook_on_failure)
    ∷ ("on-success", c.hook_on_success)
    ∷ []

abbrev or_else : Option Bytes → Option Bytes → Option Bytes
or_else none later = later
or_else (some path) later = some path

path_in-assign :
    (key path name : Bytes) (hooks : List (Bytes × Bytes))
    → path_in name (assign key path hooks)
      ≡ (if bytes_eq key name then some path else path_in name hooks)
path_in-assign key path name [] = refl
path_in-assign key path name ((n, p) ∷ hooks) =
    let later = path_in-assign key path name hooks in
    elim (bytes_eq-cases n key) [
      | inl e ↦ rw (e, bytes_eq_refl key) (ground arith)
      | inr e ↦ elim (bytes_eq-cases n name) [
        | inl f ↦ rw (e, sym f, bytes_eq_refl n, bytes_eq_sym key n, e) (ground arith)
        | inr f ↦ ground arith
      ]
    ]

path_in-register :
    (key : String) (path : Option Bytes) (name : Bytes) (hooks : List (Bytes × Bytes))
    → path_in name (register key path hooks) ≡ (
        if bytes_eq (codes key) name then or_else path (path_in name hooks) else path_in name hooks)
path_in-register key none name hooks = ground arith
path_in-register key (some path) name hooks = path_in-assign (codes key) path name hooks

-- the path that is set for a name
abbrev setting_of : Bytes → List (String × Option Bytes) → Option Bytes
setting_of name [] = none
setting_of name ((key, path) ∷ later) =
    or_else (setting_of name later) (if bytes_eq (codes key) name then path else none)

abbrev register_all : List (String × Option Bytes) → List (Bytes × Bytes) → List (Bytes × Bytes)
register_all [] hooks = hooks
register_all ((key, path) ∷ later) hooks = register_all later (register key path hooks)

path_in-register_all :
    (later : List (String × Option Bytes)) (name : Bytes) (hooks : List (Bytes × Bytes))
    → path_in name (register_all later hooks) ≡ or_else (setting_of name later) (path_in name hooks)
path_in-register_all [] name hooks = refl
path_in-register_all ((key, path) ∷ later) name hooks =
    rw
      (
        path_in-register_all later name (register key path hooks),
        path_in-register key path name hooks,
      )
      (ground arith)

-- After `Initialize`, each of the nine names has the path of its setting where that is set, and all
-- other names have what they had.
pub get_hook_path-initialize :
    (h : HooksExecutor) (name : Bytes)
    → get_hook_path (initialize h).1 name
      ≡ or_else (setting_of name (settings h.context.config.hooks)) (get_hook_path h name)
unfolding get_hook_path initialize
get_hook_path-initialize h name =
    path_in-register_all (settings h.context.config.hooks) name h.hooks

-- A variable whose text has no `=` in it reaches the process just where it is not empty.
pub set_variables-cons :
    (name value : Bytes) (env : List Bytes)
    → has 61 name ≡ false
    → has 61 value ≡ false
    → set_variables ((name ++ (codes "=" ++ value)) ∷ env)
      ≡ (if is_empty value then set_variables env else (name, value) ∷ set_variables env)
unfolding set_variables
set_variables-cons name [] env n v = rw (split-cons 61 name [] n) (unfold split split_from in refl)
set_variables-cons name (c ∷ value) env n v =
    rw (split-cons 61 name (c ∷ value) n, split_one 61 c value v) refl

split_from-starts :
    (d x : ℕ) (part s : Bytes)
    → (p : Bytes) × (ps : List Bytes) × (split_from d (x ∷ part) s ≡ p ∷ ps)
unfolding split_from
split_from-starts d x part [] = (x ∷ part, [], refl)
split_from-starts d x part (c ∷ s) = elim (Bool-cases (c == d)) [
  | inl e ↦ (x ∷ part, split_from d [] s, ground arith)
  | inr e ↦ (let (p, ps, f) = split_from-starts d x (part ++ c ∷ []) s in (p, ps, ground arith))
]

split-starts : (d c : ℕ) (s : Bytes) → (p : Bytes) × (ps : List Bytes) × (split (c ∷ s) d ≡ p ∷ ps)
unfolding split split_from
split-starts d c s = elim (Bool-cases (c == d)) [
  | inl e ↦ ([], split_from d [] s, ground arith)
  | inr e ↦ (let (p, ps, f) = split_from-starts d c [] s in (p, ps, ground arith))
]

-- A variable with a `=` in its text, and something behind it, does not reach the process.
pub set_variables-lost :
    (name before : Bytes) (c : ℕ) (behind : Bytes) (env : List Bytes)
    → has 61 name ≡ false
    → has 61 before ≡ false
    → set_variables ((name ++ (codes "=" ++ (before ++ (codes "=" ++ c ∷ behind)))) ∷ env)
      ≡ set_variables env
unfolding set_variables
set_variables-lost name before c behind env n b =
    let (p, ps, e) = split-starts 61 c behind in
    rw (split-cons 61 name (before ++ (61 ∷ c ∷ behind)) n, split-cons 61 before (c ∷ behind) b, e)
      refl

-- An executor whose `Initialize` has not been called, as that of a migration, runs no process: every
-- hook counts as a success and changes nothing.
pub execute_hook-create :
    (sys : System) (name : Bytes) (args : List Bytes) (ctx : MigrationContext)
    → execute_hook sys name args (create ctx)
      ≡ some (record no_result { success = true }, create ctx)
unfolding execute_hook create
execute_hook-create sys name args ctx = refl
