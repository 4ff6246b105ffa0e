-- ===== src/TaskContext/Life.antt =====
-- The status, the log and the credentials of a TaskContext. The stream library's `Close` is the
-- argument of `close_log`, and the queue client is a number that names it.
use taskcluster_worker.Prelude.{
  ℕ, ◌≡◌, refl, Bool, true, false, ◌||◌, List, [], ◌∷◌, ◌++◌, Option, none, some, arith,
  if◌then◌else◌, String, any,
}
use taskcluster_worker.Errors.{Err}
use text.Mathlib.Text.{◌==◌ as str_eq}

pub data TaskStatus : Type 0 where
  unset aborted cancelled : TaskStatus

-- A line handed to the log: a message, the text of a MalformedPayloadError with its messages, or the
-- notice of an incident, whose identifier is random.
pub data LogLine : Type 0 where
  message : String → LogLine
  malformed_line : List String → LogLine
  incident : LogLine

pub record TaskContext : Type 0 where
  pub status : TaskStatus
  pub done_closed : Bool
  pub log_closed : Bool
  pub log : List LogLine
  pub queue : Option ℕ
  pub client_id : String
  pub access_token : String
  pub certificate : String

-- `NewTaskContext`, when the log file could be created.
abbrev pub new_context : TaskContext
new_context = record {
  status = unset;
  done_closed = false;
  log_closed = false;
  log = [];
  queue = none;
  client_id = "";
  access_token = "";
  certificate = "";
}

-- The `select` closes `c.done` only where it is open.
unfoldable pub abort : TaskContext → TaskContext
abort c =
    if c.done_closed
    then record c { status = aborted }
    else record c { status = aborted; done_closed = true }

unfoldable pub cancel : TaskContext → TaskContext
cancel c =
    if c.done_closed
    then record c { status = cancelled }
    else record c { status = cancelled; done_closed = true }

unfoldable pub is_aborted : TaskContext → Bool
is_aborted c = elim c.status [ aborted ↦ true | _ ↦ false ]

unfoldable pub is_cancelled : TaskContext → Bool
is_cancelled c = elim c.status [ cancelled ↦ true | _ ↦ false ]

-- `Err`: whether it is `context.Canceled`; it is nil otherwise.
unfoldable pub context_err : TaskContext → Bool
unfolding is_aborted is_cancelled
context_err c = is_aborted c || is_cancelled c

-- `CloseLog`, given what closing the stream returns.
unfoldable pub close_log : Option Err → TaskContext → TaskContext × Option Err
close_log closing c = if c.log_closed then (c, none) else (record c { log_closed = true }, closing)

-- `ExtractLog` returns `ErrLogNotClosed`, or opens the file.
unfoldable pub may_extract_log : TaskContext → Bool
may_extract_log c = c.log_closed

unfoldable pub set_queue_client : ℕ → TaskContext → TaskContext
set_queue_client q c = record c { queue = some q }

unfoldable pub set_credentials : String → String → String → TaskContext → TaskContext
set_credentials id token cert c = record c {
  client_id = id;
  access_token = token;
  certificate = cert;
}

-- What the authorizer asks for; `none` is its panic.
unfoldable pub credentials : TaskContext → Option (String × String × String)
credentials c =
    if str_eq c.client_id "" || str_eq c.access_token ""
    then none
    else some (c.client_id, c.access_token, c.certificate)

unfoldable pub log_error : LogLine → TaskContext → TaskContext
log_error l c = record c { log = c.log ++ l ∷ [] }

pub data Call : Type 0 where
  aborts cancels : Call
  closes_log : Option Err → Call
  sets_queue : ℕ → Call
  sets_credentials : String → String → String → Call
  logs : LogLine → Call

unfoldable pub step : TaskContext → Call → TaskContext
unfolding abort cancel close_log set_queue_client set_credentials log_error
step c aborts = abort c
step c cancels = cancel c
step c (closes_log e) = (close_log e c).0
step c (sets_queue q) = set_queue_client q c
step c (sets_credentials i t s) = set_credentials i t s c
step c (logs l) = log_error l c

unfoldable pub run : TaskContext → List Call → TaskContext
run c [] = c
run c (x ∷ xs) = run (step c x) xs

abbrev pub is_ending : Call → Bool
is_ending aborts = true
is_ending cancels = true
is_ending _ = false

step_ending :
    (c : TaskContext) (x : Call)
    → context_err c ≡ c.done_closed
    → (context_err (step c x) ≡ (step c x).done_closed)
      × ((step c x).done_closed ≡ (c.done_closed || is_ending x))
unfolding step context_err
step_ending c x h = ground arith

run_ending :
    (c : TaskContext) (xs : List Call)
    → context_err c ≡ c.done_closed
    → (context_err (run c xs) ≡ (run c xs).done_closed)
      × ((run c xs).done_closed ≡ (c.done_closed || any is_ending xs))
unfolding run
run_ending c [] h = (h, ground arith)
run_ending c (x ∷ xs) h = ground (arith, step_ending c x h, run_ending (step c x) xs)

-- As `context.Context` demands: after any calls on a new context, `Err` is `context.Canceled`
-- exactly when `Done` is closed, and that is so exactly when `Abort` or `Cancel` was called.
err_when_done :
    (xs : List Call)
    → (context_err (run new_context xs) ≡ (run new_context xs).done_closed)
      × ((run new_context xs).done_closed ≡ any is_ending xs)
err_when_done xs = run_ending new_context xs (unfold context_err in refl)
