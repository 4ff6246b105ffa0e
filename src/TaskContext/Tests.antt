-- ===== src/TaskContext/Tests.antt =====
-- Examples of the theorems on runtime/taskcontext.go.
use taskcluster_worker.Prelude.{◌≡◌, ◌↔◌, true, [], ◌∷◌, List, Any}
use taskcluster_worker.TaskContext.Scopes.{Scope, has_scopes, Satisfies, has_scopes_iff}

-- `a:*` and the requirement of `a:b`, or of `c`.
abbrev star : List Scope
star = (97 ∷ 58 ∷ 42 ∷ []) ∷ []

abbrev required_sets : List (List Scope)
required_sets = ((99 ∷ []) ∷ []) ∷ ((97 ∷ 58 ∷ 98 ∷ []) ∷ []) ∷ []

has_scopes_iff_example : (has_scopes star required_sets ≡ true) ↔ Any (Satisfies star) required_sets
has_scopes_iff_example = has_scopes_iff star required_sets
