-- ===== src/Plugins/Uploads.antt =====
-- Theorems on the artifacts of plugins/artifacts/artifacts.go.
use mathlib.Core.List.{append_assoc, append-nil}
use taskcluster_worker.Prelude.{
  ◌≡◌, refl, Bool, true, false, not, ◌&&◌, ◌||◌, List, [], ◌∷◌, ◌++◌, none, some, arith,
  if◌then◌else◌, String, any,
}
use taskcluster_worker.Errors.{fatal_internal, non_fatal_internal, merge_if_any}
use taskcluster_worker.Plugins.Artifacts.{
  Extracted, fine, not_supported, not_found, interrupted, non_fatal, fatal, other_error, malformed,
  Upload, Artifact, file, folder, Uploads, no_uploads, unsupported_message, invalid_path,
  note_error, is_failure, is_error, process_file, process_entries, process_folder, process_all,
  conclude, stopped,
}

-- What each artifact contributes, independently of the loop.
abbrev pub is_missing : Artifact → Bool
is_missing (file path not_found u) = true
is_missing (folder path us not_found) = true
is_missing _ = false

abbrev pub is_fatal_for : Artifact → Bool
is_fatal_for (file path fatal u) = true
is_fatal_for (file path other_error u) = true
is_fatal_for (file path interrupted u) = true
is_fatal_for (folder path us fatal) = true
is_fatal_for (folder path us other_error) = true
is_fatal_for _ = false

abbrev any_canceled : List (Upload × Bool) → Bool
any_canceled [] = false
any_canceled ((u, canceled) ∷ us) =
    let rest = any_canceled us in if is_error u && canceled then true else rest

abbrev is_non_fatal_answer : Extracted → Bool
is_non_fatal_answer non_fatal = true
is_non_fatal_answer _ = false

abbrev is_fine : Extracted → Bool
is_fine fine = true
is_fine _ = false

abbrev pub is_non_fatal_for : Artifact → Bool
is_non_fatal_for (file path e u) = is_non_fatal_answer e || (is_fine e && is_failure u)
is_non_fatal_for (folder path us e) = any_canceled us || is_non_fatal_answer e

-- One message for each artifact whose extraction is not supported, or whose path is refused.
abbrev complaint_of : String → Extracted → List (List String)
complaint_of path not_supported = (unsupported_message ∷ []) ∷ []
complaint_of path (malformed ms) = (invalid_path path ms ∷ []) ∷ []
complaint_of path _ = []

abbrev pub payload_complaints : List Artifact → List (List String)
payload_complaints [] = []
payload_complaints (file path e u ∷ as') = complaint_of path e ++ payload_complaints as'
payload_complaints (folder path us e ∷ as') = complaint_of path e ++ payload_complaints as'

entries_lem :
    (us : List (Upload × Bool)) (s : Uploads)
    → process_entries us s ≡ record s { non_fatal_err = s.non_fatal_err || any_canceled us }
unfolding process_entries
entries_lem [] s = ground arith
entries_lem ((u, canceled) ∷ us) s = ground (
  arith,
  entries_lem us (if is_error u && canceled then record s { non_fatal_err = true } else s),
)

record Noted (as' : List Artifact) (s t : Uploads) : Type 0 where
  fails : t.has_failed ≡ (s.has_failed || any is_missing as')
  fatals : t.fatal_err ≡ (s.fatal_err || any is_fatal_for as')
  non_fatals : t.non_fatal_err ≡ (s.non_fatal_err || any is_non_fatal_for as')
  complains : t.errors ≡ s.errors ++ payload_complaints as'

process_all-Noted : (as' : List Artifact) (s : Uploads) → Noted as' s (process_all as' s)
unfolding process_all process_file process_folder note_error
process_all-Noted [] s = ground (arith, append-nil s.errors)
process_all-Noted (file path e u ∷ as') s = ground (
  arith,
  process_all-Noted as' (process_file path e u s),
  append_assoc s.errors (complaint_of path e) (payload_complaints as'),
  append-nil s.errors,
)
process_all-Noted (folder path us e ∷ as') s = ground (
  arith,
  process_all-Noted as' (process_folder path us e s),
  entries_lem us s,
  append_assoc s.errors (complaint_of path e) (payload_complaints as'),
  append-nil s.errors,
)

-- `Stopped` of the artifacts: the task passes exactly where no artifact is missing. It answers
-- ErrFatalInternalError if any extraction fails fatally or with an error that is not expected; else
-- ErrNonFatalInternalError if any fails so, if the upload of any file fails other than by
-- cancellation, or if any upload from a folder fails, by cancellation or otherwise, in a task that
-- is canceled then (one that fails in a task that is not canceled has no part in the answer,
-- against the comment at artifacts.go:441-443); else, if there are any, the complaints on the
-- payload merged in the order in which they were found: one message for each extraction that is not
-- supported, and one for each malformed path, with the path and the reasons joined.
pub stopped-artifacts :
    (as' : List Artifact)
    → stopped as' ≡ (
      not (any is_missing as'),
      if any is_fatal_for as'
          then some fatal_internal
          else if any is_non_fatal_for as'
          then some non_fatal_internal
          else merge_if_any (payload_complaints as'),
    )
unfolding stopped conclude
stopped-artifacts as' = ground (arith, process_all-Noted as' no_uploads)

abbrev none_canceled : List (Upload × Bool) → Bool
none_canceled [] = true
none_canceled ((u, canceled) ∷ us) = not canceled && none_canceled us

not_noticed : (us : List (Upload × Bool)) → none_canceled us ≡ true → any_canceled us ≡ false
not_noticed [] h = refl
not_noticed ((u, canceled) ∷ us) h = ground (arith, not_noticed us)

-- A folder whose files are all found, in a task that is not canceled, changes nothing, whichever of
-- its uploads fail: `Stopped` passes the task without an error, with none of them uploaded.
pub folder_failures_lost :
    (path : String) (us : List (Upload × Bool)) (s : Uploads)
    → none_canceled us ≡ true
    → (process_folder path us fine s ≡ s) × (stopped (folder path us fine ∷ []) ≡ (true, none))
unfolding process_folder note_error stopped conclude process_all
folder_failures_lost path us s h =
    ground (arith, entries_lem us s, entries_lem us no_uploads, not_noticed us h)
