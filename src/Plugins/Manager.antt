-- ===== src/Plugins/Manager.antt =====
-- PluginManager: the plugins of the worker. Of each hook only its end matters, and whether it makes
-- the manager stop the worker.
use taskcluster_worker.Prelude.{
  ℕ, ◌≡◌, refl, Bool, true, false, not, ◌&&◌, List, [], ◌∷◌, ◌++◌, Option, none, some, arith,
  if◌then◌else◌, any, String,
}
use taskcluster_worker.Errors.{Err, fatal_internal, non_fatal_internal}
use taskcluster_worker.Plugins.Hooks.{Hook, answers, panics, hangs, has_incident}
use text.Mathlib.Text.{◌==◌ as str_eq}

-- `stringContains`.
unfoldable pub string_contains : List String → String → Bool
string_contains [] element = false
string_contains (s ∷ list) element =
    let rest = string_contains list element in if str_eq s element then true else rest

-- The loop over the keys of the configuration, in the order in which Go ranges over them.
unfoldable pub enabled : List String → List String → List String
unfolding string_contains
enabled disabled [] = []
enabled disabled (name ∷ names) =
    let rest = enabled disabled names in
    if not (string_contains disabled name) && not (str_eq name "disabled")
    then name ∷ rest
    else rest

-- What NewPlugin returns: a plugin, by number, or nil; and an error or nil.
abbrev pub Instance : Type 0
Instance = Option ℕ × Option Err

-- The plugin of one goroutine, and whether there is an error for it in the end. With an error and a
-- nil plugin the function panics, which makes another error of it.
unfoldable pub load_one : Hook Instance → Option ℕ × Bool
load_one (answers (p, none)) = (p, false)
load_one (answers (p, some e)) = (p, true)
load_one panics = (none, true)
load_one hangs = (none, true)

pub data Loaded : Type 0 where
  fails : List String → Loaded
  dies : Loaded
  loads : List ℕ → Loaded

-- The names of the plugins that failed.
abbrev pub failed_names : List (String × Hook Instance) → List String
failed_names [] = []
failed_names ((name, h) ∷ rest) =
    let others = failed_names rest in if (load_one h).1 then name ∷ others else others

-- `plugin.PayloadSchema()` of each plugin: a nil plugin makes the process die.
abbrev all_plugins : List (String × Hook Instance) → Option (List ℕ)
all_plugins [] = some []
all_plugins ((name, h) ∷ rest) = elim (load_one h).0 [
  | none ↦ none
  | some p ↦ elim (all_plugins rest) [ none ↦ none | some ps ↦ some (p ∷ ps) ]
]

-- `NewPluginManager`, up to the merging of the schemas.
unfoldable pub new_manager : List (String × Hook Instance) → Loaded
unfolding load_one
new_manager hs = elim (failed_names hs) [
  | n ∷ ns ↦ fails (n ∷ ns)
  | [] ↦ elim (all_plugins hs) [ none ↦ dies | some ps ↦ loads ps ]
]

-- `ReportIdle`, `ReportNonFatalError`, `Documentation`: whether the worker is stopped.
unfoldable pub report {ℓ} : {A : Type ℓ} → List (Hook A) → Bool
unfolding has_incident
report hs = any has_incident hs

-- One goroutine of `Dispose`: whether it sets `fatal`, `nonfatal`, and stops the worker.
unfoldable pub dispose_one : Hook (Option Err) → Bool × Bool × Bool
dispose_one (answers none) = (false, false, false)
dispose_one (answers (some fatal_internal)) = (true, false, false)
dispose_one (answers (some non_fatal_internal)) = (false, true, false)
dispose_one (answers (some e)) = (true, false, true)
dispose_one panics = (true, false, true)
dispose_one hangs = (true, false, true)

-- `Dispose`: its error, and whether it stops the worker.
unfoldable pub dispose_manager : List (Hook (Option Err)) → Option Err × Bool
unfolding dispose_one
dispose_manager hs = (
  if any (λ h. (dispose_one h).0) hs
      then some fatal_internal
      else if any (λ h. (dispose_one h).1) hs
      then some non_fatal_internal
      else none,
  any (λ h. (dispose_one h).2) hs,
)

-- A plugin that gives neither a plugin nor an error is not noticed: the process dies, although the
-- code means to turn this into an error.
nil_plugin_kills :
    (before after : List (String × Hook Instance)) (name : String)
    → failed_names (before ++ (name, answers (none, none)) ∷ after) ≡ []
    → new_manager (before ++ (name, answers (none, none)) ∷ after) ≡ dies
unfolding new_manager
nil_plugin_kills before after name h = ground (arith, no_plugins before)
  where
    no_plugins :
        (hs : List (String × Hook Instance))
        → all_plugins (hs ++ (name, answers (none, none)) ∷ after) ≡ none
    no_plugins [] = refl
    no_plugins ((n, h) ∷ hs) = ground (arith, no_plugins hs)
