-- ===== src/TaskRun/Stages.antt =====
-- stages.go: what each stage calls and what it keeps. The answers of the engine, the plugins and the
-- log are a record, for a run asks each question once.
use taskcluster_worker.Prelude.{
  ℕ, Bool, List, [], ◌∷◌, Option, none, some, String, if◌then◌else◌, map,
}
use taskcluster_worker.Errors.{Err, malformed_payload, merge_malformed_payload, malformed_messages}
use taskcluster_worker.TaskContext.Life.{close_log}
use taskcluster_worker.TaskRun.State.{
  Stage, prepare, build, start, started, waiting, stopped, finished, resolved, TaskRun,
}

-- A call of a plugin or an engine, or any code under CapturePanic: it returns, or panics.
pub data Call {ℓ} (A : Type ℓ) : Type ℓ where
  returns : A → Call A
  panics : Call A

-- What `payloadSchema.Validate` returns: nil, a ValidationError with its issues, or another error.
pub data Validation : Type 0 where
  valid : Validation
  issues : List String → Validation
  violation : String → Validation

pub record World : Type 0 where
  pub schema_conflict : Bool
  pub validation : Validation
  pub new_sandbox_builder : Call (Option ℕ × Option Err)
  pub new_task_plugin : Call (Option ℕ × Option Err)
  pub build_sandbox : Call (Option Err)
  pub start_sandbox : Call (Option ℕ × Option Err)
  pub plugin_started : Call (Option Err)
  pub wait_for_result : Call (Option ℕ × Option Err)
  pub plugin_stopped : Call (Bool × Option Err)
  pub close_stream : Option Err
  pub plugin_finished : Call (Option Err)

-- How a stage ends: with an error or nil, with a panic that CapturePanic sees, or with a panic on a
-- goroutine of util.Parallel, where nothing recovers it and the process dies.
pub data Ending : Type 0 where
  returned : Option Err → Ending
  captured : Ending
  died : Ending

-- A method call on an interface that may be nil.
abbrev pub on_handle {ℓ} : {A : Type ℓ} → Option ℕ → Call A → Call A
on_handle none c = panics
on_handle (some h) c = c

abbrev pub ending : Call (Option Err) → Ending
ending (returns e) = returned e
ending panics = captured

unfoldable pub validation_error : Validation → Option Err
validation_error valid = none
validation_error (issues is) = some (merge_malformed_payload (map (λ i. i ∷ []) is))
validation_error (violation m) = some (malformed_payload (m ∷ []))

-- The return of `prepare` where the payload fits the schema.
unfoldable pub prefer_malformed : Option Err → Option Err → Option Err
prefer_malformed err1 err2 = elim (malformed_messages err1) [
  | some ms ↦ err1
  | none ↦ elim err2 [ none ↦ err1 | some e ↦ some e ]
]

-- The two functions that `prepare` runs in parallel. They write different fields.
create_sandbox_builder : World → Option Err → TaskRun → Call (TaskRun × Option Err)
create_sandbox_builder w (some verr) t = returns (t, none)
create_sandbox_builder w none t = elim w.new_sandbox_builder [
  | returns (b, e) ↦ returns (record t { sandbox_builder = b }, e)
  | panics ↦ panics
]

create_task_plugin : World → TaskRun → Call (TaskRun × Option Err)
create_task_plugin w t = elim w.new_task_plugin [
  | returns (p, e) ↦ returns (record t { task_plugin = p }, e)
  | panics ↦ panics
]

or_else : Option Err → Option Err → Option Err
or_else (some e) d = some e
or_else none d = d

unfoldable pub run_prepare : World → TaskRun → TaskRun × Ending
unfolding create_sandbox_builder create_task_plugin or_else validation_error prefer_malformed
run_prepare w t =
    if w.schema_conflict
    then (t, captured)
    else elim (create_sandbox_builder w (validation_error w.validation) t) [
      | panics ↦ (t, died)
      | returns (t1, err1) ↦ elim (create_task_plugin w t1) [
        | panics ↦ (t1, died)
        | returns (t2, err2) ↦
            (t2, returned (or_else (validation_error w.validation) (prefer_malformed err1 err2)))
      ]
    ]

unfoldable pub run_build : World → TaskRun → TaskRun × Ending
run_build w t = (t, ending (on_handle t.task_plugin w.build_sandbox))

unfoldable pub run_start : World → TaskRun → TaskRun × Ending
run_start w t = elim (on_handle t.sandbox_builder w.start_sandbox) [
  | returns (s, e) ↦ (record t { sandbox = s; sandbox_builder = none }, returned e)
  | panics ↦ (t, captured)
]

unfoldable pub run_started : World → TaskRun → TaskRun × Ending
run_started w t = (t, ending (on_handle t.task_plugin w.plugin_started))

unfoldable pub run_waiting : World → TaskRun → TaskRun × Ending
run_waiting w t = elim (on_handle t.sandbox w.wait_for_result) [
  | returns (r, e) ↦ (record t { result_set = r; sandbox = none }, returned e)
  | panics ↦ (t, captured)
]

unfoldable pub run_stopped : World → TaskRun → TaskRun × Ending
run_stopped w t = elim (on_handle t.task_plugin w.plugin_stopped) [
  | returns (s, e) ↦ (record t { success = s }, returned e)
  | panics ↦ (t, captured)
]

-- `finished` panics where the log cannot be closed.
unfoldable pub run_finished : World → TaskRun → TaskRun × Ending
unfolding close_log
run_finished w t = elim t.controller [
  | none ↦ (t, captured)
  | some c ↦
      let t' = record t { controller = some (close_log w.close_stream c).0 } in
      elim (close_log w.close_stream c).1 [
        | some e ↦ (t', captured)
        | none ↦ (t', ending (on_handle t.task_plugin w.plugin_finished))
      ]
]

-- `stages[stage](t)`. The map has no entry for `resolved`: calling nil panics.
unfoldable pub run_stage : World → Stage → TaskRun → TaskRun × Ending
unfolding run_prepare run_build run_start run_started run_waiting run_stopped run_finished
run_stage w prepare t = run_prepare w t
run_stage w build t = run_build w t
run_stage w start t = run_start w t
run_stage w started t = run_started w t
run_stage w waiting t = run_waiting w t
run_stage w stopped t = run_stopped w t
run_stage w finished t = run_finished w t
run_stage w resolved t = (t, captured)
