-- ===== src/Errors.antt =====
-- runtime/errors.go and runtime/exceptionreason.go. A Go `error` is an `Option Err`: `nil` is `none`,
-- each sentinel that the code compares with is a constructor, and `other` stands for every error
-- value that the code does not tell apart.
use taskcluster_worker.Prelude.{
  ℕ, String, Bool, true, false, List, [], ◌∷◌, ◌++◌, Option, none, some,
}

pub data Err : Type 0 where
  fatal_internal : Err
  non_fatal_internal : Err
  malformed_payload : List String → Err
  disposable_in_use : Err
  size_not_supported : Err
  sandbox_terminated : Err
  sandbox_aborted : Err
  wait_group_draining : Err
  shell_terminated : Err
  shell_aborted : Err
  resource_not_found : Err
  other : ℕ → Err

-- `IsMalformedPayloadError`: the messages, if the error is one.
abbrev pub malformed_messages : Option Err → Option (List String)
malformed_messages (some (malformed_payload ms)) = some ms
malformed_messages _ = none

-- `MergeMalformedPayload`.
abbrev pub merge_messages : List (List String) → List String
merge_messages [] = []
merge_messages (ms ∷ rest) = ms ++ merge_messages rest

abbrev pub merge_malformed_payload : List (List String) → Err
merge_malformed_payload es = malformed_payload (merge_messages es)

-- No error where there are no messages to merge.
abbrev pub merge_if_any : List (List String) → Option Err
merge_if_any [] = none
merge_if_any (ms ∷ rest) = some (merge_malformed_payload (ms ∷ rest))

-- `err == ErrFatalInternalError` and its kin.
abbrev pub is_fatal : Option Err → Bool
is_fatal (some fatal_internal) = true
is_fatal _ = false

abbrev pub is_non_fatal : Option Err → Bool
is_non_fatal (some non_fatal_internal) = true
is_non_fatal _ = false

abbrev pub is_in_use : Err → Bool
is_in_use disposable_in_use = true
is_in_use _ = false

pub data ExceptionReason : Type 0 where
  no_exception canceled worker_shutdown malformed resource_unavailable : ExceptionReason
  internal_error superseded intermittent_task : ExceptionReason

-- `ExceptionReason.String`.
pub reason_string : ExceptionReason → String
reason_string no_exception = "no-reason"
reason_string canceled = "canceled"
reason_string worker_shutdown = "worker-shutdown"
reason_string malformed = "malformed-payload"
reason_string resource_unavailable = "resource-unavailable"
reason_string internal_error = "internal-error"
reason_string superseded = "superseded"
reason_string intermittent_task = "intermittent-task"
