-- ===== src/Plugins/Hooks.antt =====
-- taskPluginManager: one hook of each plugin of a task is called on a goroutine of its own, under
-- CapturePanic and a timeout. Each goroutine writes its own element of `errors`, so what they leave
-- does not depend on their order, but for the order of the log lines about incidents.
use taskcluster_worker.Prelude.{
  Bool, true, false, not, ◌||◌, List, [], ◌∷◌, ◌++◌, Option, none, some, if◌then◌else◌, map, any,
  String,
}
use taskcluster_worker.Errors.{
  Err, fatal_internal, non_fatal_internal, malformed_payload, malformed_messages,
  merge_malformed_payload, is_fatal, is_non_fatal,
}
use taskcluster_worker.TaskContext.Life.{LogLine, message, malformed_line, incident}
use taskcluster_worker.Atomics.Flag.{AtomicBool, new_bool, set_bool, swap_bool, get_bool}

-- How a hook ends: it answers, it panics, or it does not return within pluginHookTimeout.
pub data Hook {ℓ} (A : Type ℓ) : Type ℓ where
  answers : A → Hook A
  panics hangs : Hook A

-- `capturePanicOrTimeout`: whether there is an incident.
unfoldable pub has_incident {ℓ} : {A : Type ℓ} → Hook A → Bool
has_incident (answers a) = false
has_incident panics = true
has_incident hangs = true

-- What `errors[i]` holds when the hook is over.
abbrev pub written : Hook (Option Err) → Option Err
written (answers e) = e
written panics = none
written hangs = none

-- An error that has not been reported by whoever returned it, and is not the task's own fault.
abbrev pub is_unhandled : Option Err → Bool
is_unhandled none = false
is_unhandled (some fatal_internal) = false
is_unhandled (some non_fatal_internal) = false
is_unhandled (some (malformed_payload ms)) = false
is_unhandled (some e) = true

-- One goroutine of `spawnEachPlugin`: the element of `errors`, and the lines that it logs.
unfoldable pub spawn_one : Hook (Option Err) → Option Err × List LogLine
unfolding has_incident
spawn_one h =
    if has_incident h || is_unhandled (written h)
    then (some fatal_internal, incident ∷ [])
    else (written h, [])

-- The loop over `errors` that finds and collects.
unfoldable pub malformed_errors : List (Option Err) → List (List String)
malformed_errors [] = []
malformed_errors (e ∷ es) = elim (malformed_messages e) [
  | none ↦ malformed_errors es
  | some ms ↦ ms ∷ malformed_errors es
]

-- What is logged where a worker error overrules malformed payload errors.
abbrev overruled : List (List String) → List LogLine
overruled [] = []
overruled (ms ∷ rest) =
    message "Encountered an unhandled worker error, along with malformed payload errors"
    ∷ map malformed_line (ms ∷ rest)

-- The error that is returned, given `errors`.
unfoldable pub combine : List (Option Err) → Option Err
unfolding malformed_errors
combine es =
    if any is_fatal es
    then some fatal_internal
    else if any is_non_fatal es
    then some non_fatal_internal
    else elim (malformed_errors es) [
      | [] ↦ none
      | ms ∷ rest ↦ some (merge_malformed_payload (ms ∷ rest))
    ]

unfoldable pub spawned_errors : List (Hook (Option Err)) → List (Option Err)
unfolding spawn_one
spawned_errors hs = map (λ h. (spawn_one h).0) hs

unfoldable pub spawned_lines : List (Hook (Option Err)) → List LogLine
unfolding spawn_one
spawned_lines [] = []
spawned_lines (h ∷ hs) = (spawn_one h).1 ++ spawned_lines hs

-- The flag `working` of a taskPluginManager, with the log of its context.
pub record TaskPlugins : Type 0 where
  pub working : AtomicBool
  pub log : List LogLine

-- `spawnEachPlugin`; `none` is its panic, when a method runs or the plugins are disposed of.
unfoldable pub spawn_each :
    List (Hook (Option Err)) → TaskPlugins → Option (TaskPlugins × Option Err)
unfolding swap_bool set_bool spawned_errors spawned_lines combine
spawn_each hs m =
    let (w, busy) = swap_bool m.working true in
    if busy
    then none
    else some (
      record {
        working = set_bool w false;
        log = m.log ++ spawned_lines hs ++ (elim (combine (spawned_errors hs)) [
          | some (malformed_payload ms) ↦ []
          | none ↦ []
          | _ ↦ overruled (malformed_errors (spawned_errors hs))
        ]);
      },
      combine (spawned_errors hs),
    )

abbrev pub verdict_of : Hook (Bool × Option Err) → Hook (Option Err)
verdict_of (answers (s, e)) = answers e
verdict_of panics = panics
verdict_of hangs = hangs

abbrev pub denies : Hook (Bool × Option Err) → Bool
denies (answers (s, e)) = not s
denies _ = false

-- `result`, an atomic flag that each plugin can only clear.
unfoldable pub agree : AtomicBool → List (Hook (Bool × Option Err)) → AtomicBool
unfolding set_bool
agree b [] = b
agree b (h ∷ hs) = agree (if denies h then set_bool b false else b) hs

-- `Stopped`; the other hooks of a running task are `spawn_each` itself.
unfoldable pub stopped :
    List (Hook (Bool × Option Err)) → TaskPlugins → Option (TaskPlugins × Bool × Option Err)
unfolding spawn_each agree new_bool get_bool
stopped hs m = elim (spawn_each (map verdict_of hs) m) [
  | none ↦ none
  | some (m', e) ↦ some (m', get_bool (agree (new_bool true) hs), e)
]

-- What a plugin gives to `NewTaskPlugin`: its schema refuses the payload, or its own answer with
-- whether it made a TaskPlugin.
pub data Made : Type 0 where
  refuses : String → Made
  makes : Bool → Option Err → Made

-- The element of `taskPlugins`: the plugin's own, or a TaskPluginBase, which does nothing.
pub data Slot : Type 0 where
  own base empty : Slot

unfoldable pub make_one : Hook Made → Slot × Hook (Option Err)
make_one (answers (refuses why)) = (base, answers (some (malformed_payload (why ∷ []))))
make_one (answers (makes true e)) = (own, answers e)
make_one (answers (makes false e)) = (base, answers e)
make_one panics = (empty, panics)
make_one hangs = (empty, hangs)

-- `NewTaskPlugin`: the manager is returned with or without an error.
unfoldable pub new_task_plugins : List (Hook Made) → Option (TaskPlugins × List Slot × Option Err)
unfolding make_one spawn_each new_bool
new_task_plugins hs =
    elim (spawn_each (map (λ h. (make_one h).1) hs)
      (record { working = new_bool false; log = [] })) [
        | none ↦ none
        | some (m, e) ↦ some (m, map (λ h. (make_one h).0) hs, e)
      ]

-- What `Dispose` makes of one plugin's answer: only the two internal errors are allowed.
abbrev pub allowed_answer : Hook (Option Err) → Hook (Option Err)
allowed_answer (answers none) = answers none
allowed_answer (answers (some fatal_internal)) = answers (some fatal_internal)
allowed_answer (answers (some non_fatal_internal)) = answers (some non_fatal_internal)
allowed_answer (answers (some e)) = answers (some fatal_internal)
allowed_answer panics = panics
allowed_answer hangs = hangs

-- There is nothing to call where no TaskPlugin was made.
abbrev pub dispose_answer : Slot → Hook (Option Err) → Hook (Option Err)
dispose_answer empty h = answers none
dispose_answer _ h = allowed_answer h

-- An answer that is not allowed is reported, and its incident is logged.
abbrev dispose_line : Slot → Hook (Option Err) → List LogLine
dispose_line empty h = []
dispose_line _ (answers none) = []
dispose_line _ (answers (some fatal_internal)) = []
dispose_line _ (answers (some non_fatal_internal)) = []
dispose_line _ (answers (some e)) = incident ∷ []
dispose_line _ h = []

abbrev dispose_lines : List (Slot × Hook (Option Err)) → List LogLine
dispose_lines [] = []
dispose_lines ((s, h) ∷ hs) = dispose_line s h ++ dispose_lines hs

-- `Dispose`: the deferred `Set(true)` keeps every later call out.
unfoldable pub dispose :
    List (Slot × Hook (Option Err)) → TaskPlugins → Option (TaskPlugins × Option Err)
unfolding spawn_each set_bool
dispose hs m = elim (spawn_each (map (λ x. dispose_answer x.0 x.1) hs) m) [
  | none ↦ none
  | some (m', e) ↦
      some (record { working = set_bool m'.working true; log = m'.log ++ dispose_lines hs }, e)
]
