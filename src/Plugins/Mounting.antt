-- ===== src/Plugins/Mounting.antt =====
-- Theorems on the volumes of plugins/cache/cache.go.
use mathlib.Core.List.{append-nil}
use taskcluster_worker.Prelude.{
  ℕ, ◌+◌, ◌≡◌, ◌≢◌, ◌⊎◌, refl, Bool, true, false, not, ◌&&◌, ◌||◌, List, [], ◌∷◌, ◌++◌, Option,
  none, some, arith, if◌then◌else◌, String,
}
use taskcluster_worker.Errors.{Err, non_fatal_internal, merge_if_any}
use taskcluster_worker.Plugins.Volumes.{
  Volumes, malformed_of, is_internal, internal_error, present, release_all, firsts, errors_of,
  get_caches, Attached, attaches, fails_fatal, fails_non_fatal, mutable_not_supported,
  immutable_not_supported, naming_conflict, feature_not_supported, fails, malformed,
}

abbrev pub any_internal : ℕ → (ℕ → Bool) → List (Option Err) → Bool
any_internal i canceled [] = false
any_internal i canceled (e ∷ es) =
    let rest = any_internal (i + 1) canceled es in (is_internal e && not (canceled i)) || rest

internal_error_lem :
    (i : ℕ) (canceled : ℕ → Bool) (es : List (Option Err)) (acc : Option Err)
    → internal_error i canceled es acc
      ≡ (if any_internal i canceled es then some non_fatal_internal else acc)
unfolding internal_error
internal_error_lem i canceled [] acc = refl
internal_error_lem i canceled (e ∷ es) acc = ground (
  arith,
  internal_error_lem (i + 1) canceled es
      (if is_internal e && not (canceled i) then some non_fatal_internal else acc),
)

-- The volumes that a task has got are released once each, and no others, by getCaches where it has
-- an error and else by Dispose, and by no later Dispose. The error is the context's, if the task is
-- canceled, else ErrNonFatalInternalError, if an error was found that is no malformed payload, the
-- context having no error then, and else the malformed payloads merged in order, if there are any.
volumes_released_once :
    (got : List (Option ℕ × Option Err)) (canceled : ℕ → Bool) (ctx_err : Option Err)
    → let c = get_caches got canceled ctx_err in
      let d = release_all c.0 in
      (c.1 ++ d.1 ≡ present (firsts got))
      × ((c.1 ≡ []) ⊎ (c.0.caches_error ≢ none))
      × ((release_all d.0).1 ≡ [])
      × (c.0.caches_error ≡ (elim ctx_err [
        | some e ↦ some e
        | none ↦
            if any_internal 0 canceled (errors_of got)
            then some non_fatal_internal
            else merge_if_any (malformed_of (errors_of got))
      ]))
unfolding get_caches release_all
volumes_released_once got canceled ctx_err =
    ground
      (arith, internal_error_lem 0 canceled (errors_of got) none, append-nil (present (firsts got)))

-- Independently of the loop: which answers are fatal, which are not, and the messages of the others.
abbrev pub any_fatal : List Attached → Bool
any_fatal [] = false
any_fatal (fails_fatal ∷ as') = true
any_fatal (fails ∷ as') = true
any_fatal (_ ∷ as') = any_fatal as'

abbrev pub any_non_fatal : List Attached → Bool
any_non_fatal [] = false
any_non_fatal (fails_non_fatal ∷ as') = true
any_non_fatal (_ ∷ as') = any_non_fatal as'

abbrev pub volume_complaints : List Attached → List (List String)
volume_complaints [] = []
volume_complaints (attaches ∷ as') = volume_complaints as'
volume_complaints (fails_fatal ∷ as') = volume_complaints as'
volume_complaints (fails_non_fatal ∷ as') = volume_complaints as'
volume_complaints (fails ∷ as') = volume_complaints as'
volume_complaints (malformed ms ∷ as') = ms ∷ volume_complaints as'
volume_complaints (mutable_not_supported ∷ as') = [] ∷ volume_complaints as'
volume_complaints (immutable_not_supported ∷ as') = [] ∷ volume_complaints as'
volume_complaints (naming_conflict ∷ as') = [] ∷ volume_complaints as'
volume_complaints (feature_not_supported ∷ as') = [] ∷ volume_complaints as'
