-- ===== src/Plugins/Artifacts.antt =====
-- plugins/artifacts/artifacts.go: processFile, processDirectory and Stopped. The answers of the
-- result set and of the uploads are arguments. Artifacts are processed by several goroutines, which
-- change the state under locks or atomically: the list has those that are processed before the task
-- is canceled, in the order in which they do.
use Prim.Native.String.{◌++◌ as ◌+++◌}
use taskcluster_worker.Prelude.{
  ℕ, ◌+◌, Bool, true, false, not, ◌&&◌, List, [], ◌∷◌, ◌++◌, Option, some, if◌then◌else◌, String,
}
use taskcluster_worker.Errors.{Err, fatal_internal, non_fatal_internal, merge_if_any}

-- What ExtractFile and ExtractFolder return.
pub data Extracted : Type 0 where
  fine not_supported not_found interrupted non_fatal fatal other_error : Extracted
  malformed : List String → Extracted

-- How hashing and uploading one file ends: well, with context.Canceled, or with another error.
pub data Upload : Type 0 where
  uploads upload_canceled upload_fails : Upload

-- Each has its path. A folder has for each file how its upload ends, and whether the task is canceled
-- then.
pub data Artifact : Type 0 where
  file : (path : String) → Extracted → Upload → Artifact
  folder : (path : String) → List (Upload × Bool) → Extracted → Artifact

-- `errors` has the messages of the malformed payloads, and `missing` counts the error artifacts.
pub record Uploads : Type 0 where
  pub errors : List (List String)
  pub non_fatal_err : Bool
  pub fatal_err : Bool
  pub has_failed : Bool
  pub missing : ℕ

abbrev pub no_uploads : Uploads
no_uploads = record {
  errors = [];
  non_fatal_err = false;
  fatal_err = false;
  has_failed = false;
  missing = 0;
}

-- `NewMalformedPayloadError`: one message, of the strings one after the other.
abbrev pub concat : List String → String
concat [] = ""
concat (m ∷ ms) = m +++ concat ms

-- `strings.Join(messages, ";")`.
unfoldable pub join : List String → String
join [] = ""
join (m ∷ []) = m
join (m ∷ n ∷ ms) = m +++ (";" +++ join (n ∷ ms))

abbrev pub unsupported_message : String
unsupported_message =
    "Artifact extraction is not supported in current configuration of this workerType"

unfoldable pub invalid_path : String → List String → String
unfolding join
invalid_path path ms = concat ("Invalid path: '" ∷ path ∷ "' reason: " ∷ join ms ∷ [])

-- The error branches that both functions have, where `interrupted` is an unhandled error for a file.
unfoldable pub note_error : String → Extracted → Uploads → Uploads
unfolding invalid_path
note_error path fine s = s
note_error path not_supported s = record s { errors = s.errors ++ (unsupported_message ∷ []) ∷ [] }
note_error path not_found s = record s { has_failed = true; missing = s.missing + 1 }
note_error path (malformed ms) s = record s {
  errors = s.errors ++ (invalid_path path ms ∷ []) ∷ [];
}
note_error path non_fatal s = record s { non_fatal_err = true }
note_error path fatal s = record s { fatal_err = true }
note_error path other_error s = record s { fatal_err = true }
note_error path interrupted s = record s { fatal_err = true }

abbrev pub is_failure : Upload → Bool
is_failure upload_fails = true
is_failure _ = false

abbrev pub is_error : Upload → Bool
is_error uploads = false
is_error _ = true

unfoldable pub process_file : String → Extracted → Upload → Uploads → Uploads
unfolding note_error
process_file path fine u s = if is_failure u then record s { non_fatal_err = true } else s
process_file path e u s = note_error path e s

-- The handler of a folder, for each file.
unfoldable pub process_entries : List (Upload × Bool) → Uploads → Uploads
process_entries [] s = s
process_entries ((u, canceled) ∷ us) s =
    process_entries us (if is_error u && canceled then record s { non_fatal_err = true } else s)

unfoldable pub process_folder : String → List (Upload × Bool) → Extracted → Uploads → Uploads
unfolding note_error process_entries
process_folder path us interrupted s = process_entries us s
process_folder path us e s = note_error path e (process_entries us s)

unfoldable pub process_all : List Artifact → Uploads → Uploads
unfolding process_file process_folder
process_all [] s = s
process_all (file path e u ∷ as') s = process_all as' (process_file path e u s)
process_all (folder path us e ∷ as') s = process_all as' (process_folder path us e s)

-- `Stopped`, behind the loop.
unfoldable pub conclude : Uploads → Bool × Option Err
conclude s =
    let err = merge_if_any s.errors in
    let err' = (if s.non_fatal_err then some non_fatal_internal else err) in
    (not s.has_failed, if s.fatal_err then some fatal_internal else err')

unfoldable pub stopped : List Artifact → Bool × Option Err
unfolding conclude process_all
stopped as' = conclude (process_all as' no_uploads)
