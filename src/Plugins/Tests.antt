-- ===== src/Plugins/Tests.antt =====
-- Examples of the theorems on the plugins and their manager.
use taskcluster_worker.Prelude.{
  not, ℕ, ◌⊎◌, ◌||◌, ◌&&◌, ◌<◌, ◌==◌, true, ◌≡◌, refl, false, List, [], ◌∷◌, Option, none, some,
  any, if◌then◌else◌,
}
use taskcluster_worker.Errors.{
  merge_if_any, Err, fatal_internal, non_fatal_internal, malformed_payload,
}
use taskcluster_worker.Plugins.Reboot.{
  Event, starts_task, timer, finishes, on_failure, new_plugin, after, asks, reaches_limit, tasks,
  runs_command, reboots_once,
}
use taskcluster_worker.Plugins.Hooks.{Hook, answers, TaskPlugins, spawn_each}
use taskcluster_worker.Plugins.Verdicts.{breaks, stumbles, complaints, spawn_each_verdict}
use taskcluster_worker.Atomics.Flag.{get_bool}
use taskcluster_worker.Plugins.Watchdog.{watchdog_counts}
use taskcluster_worker.Plugins.Volumes.{Volumes}
use taskcluster_worker.Plugins.Watchdog as Watchdog
use taskcluster_worker.Prelude.Int.{pos}
use taskcluster_worker.Plugins.Artifacts as Artifacts
use taskcluster_worker.Plugins.Uploads.{
  stopped-artifacts, folder_failures_lost, is_missing, is_fatal_for, is_non_fatal_for,
  payload_complaints,
}

abbrev idle_plugins : TaskPlugins
idle_plugins = record { working = record { value = 0 }; log = [] }

abbrev two_hooks : List (Hook (Option Err))
two_hooks = answers none ∷ answers (some (malformed_payload ("bad" ∷ []))) ∷ []

two_hooks_spawned :
    spawn_each two_hooks idle_plugins ≡ some (idle_plugins, some (malformed_payload ("bad" ∷ [])))
unfolding spawn_each
two_hooks_spawned = refl

spawn_each_verdict_example :
    (some (malformed_payload ("bad" ∷ [])) ≡ (
      if any breaks two_hooks
      then some fatal_internal
      else if any stumbles two_hooks
      then some non_fatal_internal
      else merge_if_any (complaints two_hooks)))
    × (get_bool idle_plugins.working ≡ false)
spawn_each_verdict_example =
    spawn_each_verdict two_hooks idle_plugins idle_plugins (some (malformed_payload ("bad" ∷ [])))
      two_hooks_spawned

abbrev one_started : Watchdog.Watch
one_started = record {
  dog = Watchdog.count_up Watchdog.new_watchdog;
  tasks = record { started = true; stopped = false } ∷ [];
  due = 2;
}

Reach-one_started : Watchdog.Reach one_started
unfolding Watchdog.take_effect Watchdog.hook Watchdog.count_up
Reach-one_started =
    Watchdog.next (Watchdog.next Watchdog.here (Watchdog.makes refl))
      (Watchdog.hooks Watchdog.starts [] [] Watchdog.new_task_plugin refl refl)

watchdog_counts_example :
    (one_started.dog.running ≡ pos (Watchdog.busy one_started.tasks))
    × ((one_started.dog.watching ≡ false)
        ⊎ (0 < one_started.due)
        ⊎ (one_started.dog.is_armed ≡ (Watchdog.busy one_started.tasks == 0)))
watchdog_counts_example = watchdog_counts Reach-one_started

abbrev two_volumes : List (Option ℕ × Option Err)
two_volumes = (some 4, none) ∷ (none, some (malformed_payload [])) ∷ []

abbrev one_volume : Volumes
one_volume = record { handles = some 4 ∷ []; caches_error = none; caches_disposed = false }

abbrev one_each : List Artifacts.Artifact
one_each =
    Artifacts.file "a" Artifacts.not_found Artifacts.uploads
    ∷ Artifacts.folder "b" [] (Artifacts.malformed ("not a folder" ∷ "empty" ∷ []))
    ∷ []

stopped-artifacts_example : Artifacts.stopped one_each ≡ (
  not (any is_missing one_each),
  if any is_fatal_for one_each
      then some fatal_internal
      else if any is_non_fatal_for one_each
      then some non_fatal_internal
      else merge_if_any (payload_complaints one_each),
)
stopped-artifacts_example = stopped-artifacts one_each

folder_failures_lost_example :
    (Artifacts.process_folder "b"
        ((Artifacts.upload_fails, false) ∷ [])
        Artifacts.fine
        Artifacts.no_uploads
      ≡ Artifacts.no_uploads)
    × (Artifacts.stopped
          (Artifacts.folder "b" ((Artifacts.upload_fails, false) ∷ []) Artifacts.fine ∷ [])
        ≡ (true, none))
folder_failures_lost_example =
    folder_failures_lost "b" ((Artifacts.upload_fails, false) ∷ []) Artifacts.no_uploads refl

abbrev failing_task : List Event
failing_task = starts_task ∷ finishes on_failure false ∷ timer ∷ []

reboots_once_example :
    let p = after failing_task (new_plugin 0 true true) in
    let asked = any (asks true) failing_task || reaches_limit 0 (tasks failing_task) in
    (p.stops ≡ (if asked then 1 else 0)) × (runs_command p ≡ (asked && true))
reboots_once_example = reboots_once 0 true true failing_task
