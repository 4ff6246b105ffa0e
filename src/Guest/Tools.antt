-- ===== src/Guest/Tools.antt =====
-- commands/qemu-guest-tools/guesttools.go, and the callbacks of engines/qemu/metaservice/metaservice.go
-- that receive what it sends. Bytes and paths are numbers.
use taskcluster_worker.Prelude.{
  ℕ, ◌-◌, Bool, true, false, not, ◌&&◌, List, [], ◌∷◌, Option, none, some, if◌then◌else◌,
}
use taskcluster_worker.Errors.{Err, non_fatal_internal, resource_not_found}
use taskcluster_worker.Guest.Resolving.{Method, post}
use taskcluster_worker.Guest.Retrying.{with_retries}

-- `doGetArtifact`: the reply for a file that can be opened, with these bytes, or cannot.
pub record ArtifactReply : Type 0 where
  pub method : Method
  pub file_not_found : Bool
  pub body : List ℕ

unfoldable pub do_get_artifact : Option (List ℕ) → ArtifactReply
do_get_artifact none = record { method = post; file_not_found = true; body = [] }
do_get_artifact (some bytes) = record { method = post; file_not_found = false; body = bytes }

-- What the host's disk does, and whether the whole body arrives.
pub record Disk : Type 0 where
  pub creates : Bool
  pub copies : Bool
  pub seeks : Bool

abbrev pub is_post : Method → Bool
is_post post = true
is_post _ = false

-- The callback of `getArtifactWithoutRetry`: File and Err.
unfoldable pub artifact_callback : ArtifactReply → Disk → Option (List ℕ) × Option Err
artifact_callback r d =
    if not (is_post r.method)
    then (none, some non_fatal_internal)
    else if r.file_not_found
    then (none, some resource_not_found)
    else if not d.creates
    then (none, some non_fatal_internal)
    else if not d.copies
    then (none, some non_fatal_internal)
    else if not d.seeks
    then (none, some non_fatal_internal)
    else (some r.body, none)

-- An attempt: the action or its reply is lost, or the guest, where the file is so, replies and the
-- callback runs.
pub data ArtifactAttempt : Type 0 where
  lost : ArtifactAttempt
  replied : Option (List ℕ) → Disk → ArtifactAttempt

unfoldable pub get_artifact_without_retry : ArtifactAttempt → Option (List ℕ) × Option Err
unfolding artifact_callback do_get_artifact
get_artifact_without_retry lost = (none, some non_fatal_internal)
get_artifact_without_retry (replied file d) = artifact_callback (do_get_artifact file) d

-- `GetArtifact`, with how many attempts it has made.
unfoldable pub get_artifact : (ℕ → ArtifactAttempt) → Option (List ℕ) × Option Err × ℕ
unfolding get_artifact_without_retry with_retries
get_artifact guest =
    let (err, made) = with_retries (λ k. (get_artifact_without_retry (guest k)).1) in
    ((get_artifact_without_retry (guest (made - 1))).0, err, made)

-- What the guest has opened, if it has got the action.
abbrev pub holds : ArtifactAttempt → Option (Option (List ℕ))
holds lost = none
holds (replied file d) = some file

-- `filepath.Walk` calls its function with each path below a folder, if it is a plain file, and an error;
-- first with the folder itself.
pub record Visit : Type 0 where
  pub path : ℕ
  pub plain_file : Bool
  pub fails : Bool

unfoldable pub plain_files : List Visit → List ℕ
plain_files [] = []
plain_files (v ∷ vs) =
    let rest = plain_files vs in if v.plain_file && not v.fails then v.path ∷ rest else rest

-- `doListFolder`: Files and NotFound.
unfoldable pub do_list_folder : Visit → List Visit → List ℕ × Bool
unfolding plain_files
do_list_folder folder below =
    if folder.fails then ([], true) else (plain_files (folder ∷ below), false)

-- The callback of `listFolderWithoutRetries`, of a request with a JSON body that is read and parsed or
-- not.
unfoldable pub folder_callback : Bool → List ℕ × Bool → List ℕ × Option Err
folder_callback parses (files, not_found) =
    if not parses
    then ([], some non_fatal_internal)
    else if not_found
    then ([], some resource_not_found)
    else (files, none)

pub data FolderAttempt : Type 0 where
  lost : FolderAttempt
  replied : Visit → List Visit → Bool → FolderAttempt

unfoldable pub list_folder_without_retries : FolderAttempt → List ℕ × Option Err
unfolding folder_callback do_list_folder
list_folder_without_retries lost = ([], some non_fatal_internal)
list_folder_without_retries (replied folder below parses) =
    folder_callback parses (do_list_folder folder below)

unfoldable pub list_folder : (ℕ → FolderAttempt) → List ℕ × Option Err × ℕ
unfolding list_folder_without_retries with_retries
list_folder guest =
    let (err, made) = with_retries (λ k. (list_folder_without_retries (guest k)).1) in
    ((list_folder_without_retries (guest (made - 1))).0, err, made)

-- `Run`, after the task was received: whether the user is configured and found, the process starts, it
-- ends well, and the log is flushed; the result that is reported.
pub record Execution : Type 0 where
  pub user : Bool
  pub user_found : Bool
  pub starts : Bool
  pub succeeds : Bool
  pub log_closes : Bool

unfoldable pub run_result : Execution → Bool
run_result e =
    let result =
      (if e.user && not e.user_found then false else if e.starts then e.succeeds else false) in
    if e.log_closes then result else false
