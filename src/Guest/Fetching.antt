-- ===== src/Guest/Fetching.antt =====
-- Theorems on the artifacts and folders that the host gets from the guest.
use taskcluster_worker.Prelude.{
  ℕ, ◌+◌, ◌-◌, ◌≤◌, ◌<◌, ◌≡◌, ◌≢◌, ◌⊎◌, Bool, true, false, not, ◌&&◌, ◌||◌, List, [], ◌∷◌, Option,
  none, some, arith, if◌then◌else◌,
}
use taskcluster_worker.Errors.{non_fatal_internal, resource_not_found}
use taskcluster_worker.Guest.Resolving.{
  Method, put, handle_all, new_service, first_report, first_report_decides,
}
use taskcluster_worker.Guest.Retrying.{with_retries, with_retries_lem}
use taskcluster_worker.Guest.Tools.{
  ArtifactAttempt, holds, do_get_artifact, artifact_callback, get_artifact_without_retry,
  get_artifact, FolderAttempt, plain_files, do_list_folder, folder_callback,
  list_folder_without_retries, list_folder, Execution, run_result,
}

-- What an attempt shows: the file, that there is none, or neither.
attempt_cases :
    (a : ArtifactAttempt)
    → let (file, err) = get_artifact_without_retry a in
      ((holds a ≡ some file) × (file ≢ none) × (err ≡ none))
      ⊎ ((holds a ≡ some none) × (file ≡ none) × (err ≡ some resource_not_found))
      ⊎ ((file ≡ none) × (err ≡ some non_fatal_internal))
unfolding get_artifact_without_retry artifact_callback do_get_artifact
attempt_cases ArtifactAttempt.lost = ground arith
attempt_cases (ArtifactAttempt.replied none d) = ground arith
attempt_cases (ArtifactAttempt.replied (some bytes) d) = ground arith

-- GetArtifact makes three attempts at most. It returns a file without an error only if the guest has
-- opened the file in the last attempt, with these very bytes, and ErrResourceNotFound only if the guest
-- could not open it then; otherwise no file and ErrNonFatalInternalError, after three attempts. All
-- attempts before the last have failed with that error.
pub artifact_delivered :
    (guest : ℕ → ArtifactAttempt) (j : ℕ)
    → let (file, err, made) = get_artifact guest in
      (0 < made)
      × (made ≤ 3)
      × ((made ≤ j + 1) ⊎ ((get_artifact_without_retry (guest j)).1 ≡ some non_fatal_internal))
      × (((holds (guest (made - 1)) ≡ some file) × (file ≢ none) × (err ≡ none))
          ⊎ ((holds (guest (made - 1)) ≡ some none)
              × (file ≡ none)
              × (err ≡ some resource_not_found))
          ⊎ ((made ≡ 3) × (file ≡ none) × (err ≡ some non_fatal_internal)))
unfolding get_artifact
artifact_delivered guest j =
    let r = with_retries_lem (λ k. (get_artifact_without_retry (guest k)).1) j in
    let made = (with_retries (λ k. (get_artifact_without_retry (guest k)).1)).1 in
    (
      r.1,
      r.2,
      ground (arith, r.4, attempt_cases (guest j)),
      ground (arith, r.0, r.3, attempt_cases (guest (made - 1))),
    )

-- What the guest has answered of a folder: its plain files, or that it could not be read; `none` if the
-- answer has not arrived.
abbrev listing : FolderAttempt → Option (Option (List ℕ))
listing (FolderAttempt.replied folder below true) =
    if folder.fails then some none else some (some (plain_files (folder ∷ below)))
listing _ = none

folder_cases :
    (a : FolderAttempt)
    → let (files, err) = list_folder_without_retries a in
      ((listing a ≡ some (some files)) × (err ≡ none))
      ⊎ ((listing a ≡ some none) × (files ≡ []) × (err ≡ some resource_not_found))
      ⊎ ((listing a ≡ none) × (files ≡ []) × (err ≡ some non_fatal_internal))
unfolding list_folder_without_retries folder_callback do_list_folder
folder_cases FolderAttempt.lost = ground arith
folder_cases (FolderAttempt.replied folder below true) = ground arith
folder_cases (FolderAttempt.replied folder below false) = ground arith

-- ListFolder returns what the guest has answered in the last attempt, and no files with
-- ErrNonFatalInternalError where no answer has arrived in three.
folder_listed :
    (guest : ℕ → FolderAttempt)
    → let (files, err, made) = list_folder guest in
      ((listing (guest (made - 1)) ≡ some (some files)) × (err ≡ none))
      ⊎ ((listing (guest (made - 1)) ≡ some none) × (files ≡ []) × (err ≡ some resource_not_found))
      ⊎ ((made ≡ 3) × (files ≡ []) × (err ≡ some non_fatal_internal))
unfolding list_folder
folder_listed guest =
    let f = λ (k : ℕ). (list_folder_without_retries (guest k)).1 in
    let r = with_retries_lem f 0 in
    let made = (with_retries f).1 in ground (arith, r.0, r.3, folder_cases (guest (made - 1)))

-- Whatever else is reported later, the host takes the task for passed exactly where the guest found the
-- user, if one is configured, started the process, saw it succeed and flushed the log.
run_reported :
    (e : Execution) (later : List (Method × Bool))
    → (handle_all ((put, run_result e) ∷ later) new_service).1
      ≡ (((not e.user || e.user_found) && e.starts && e.succeeds && e.log_closes) ∷ [])
unfolding run_result first_report
run_reported e later = ground (arith, first_report_decides ((put, run_result e) ∷ later))
