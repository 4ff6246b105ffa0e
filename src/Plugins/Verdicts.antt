-- ===== src/Plugins/Verdicts.antt =====
-- What the hooks of a task's plugins come to, told of the plugins one by one.
use taskcluster_worker.Prelude.{
  ◌≡◌, refl, Bool, true, false, not, ◌&&◌, List, [], ◌∷◌, ◌++◌, Option, none, some, arith,
  if◌then◌else◌, any, String,
}
use taskcluster_worker.Errors.{
  merge_if_any, Err, fatal_internal, non_fatal_internal, malformed_payload, is_fatal, is_non_fatal,
}
use taskcluster_worker.Atomics.Flag.{AtomicBool, new_bool, set_bool, get_bool}
use taskcluster_worker.Plugins.Hooks.{
  Hook, answers, spawned_errors, malformed_errors, combine, TaskPlugins, spawn_each, stopped, agree,
  denies, dispose, Slot,
}

-- A plugin brings the worker down: it panicked, hung, or failed with an error of its own or a fatal
-- one.
abbrev pub breaks : Hook (Option Err) → Bool
breaks (answers none) = false
breaks (answers (some non_fatal_internal)) = false
breaks (answers (some (malformed_payload ms))) = false
breaks _ = true

-- A plugin failed in a way that does not matter to other tasks.
abbrev pub stumbles : Hook (Option Err) → Bool
stumbles (answers (some non_fatal_internal)) = true
stumbles _ = false

-- What a plugin finds wrong with the payload.
abbrev pub complaint : Hook (Option Err) → List (List String)
complaint (answers (some (malformed_payload ms))) = ms ∷ []
complaint _ = []

abbrev pub complaints : List (Hook (Option Err)) → List (List String)
complaints [] = []
complaints (h ∷ hs) = complaint h ++ complaints hs

any_fatal : (hs : List (Hook (Option Err))) → any is_fatal (spawned_errors hs) ≡ any breaks hs
unfolding spawned_errors
any_fatal [] = refl
any_fatal (h ∷ hs) = ground (arith, any_fatal hs)

any_non_fatal :
    (hs : List (Hook (Option Err))) → any is_non_fatal (spawned_errors hs) ≡ any stumbles hs
unfolding spawned_errors
any_non_fatal [] = refl
any_non_fatal (h ∷ hs) = ground (arith, any_non_fatal hs)

all_complaints :
    (hs : List (Hook (Option Err))) → malformed_errors (spawned_errors hs) ≡ complaints hs
unfolding spawned_errors malformed_errors
all_complaints [] = refl
all_complaints (h ∷ hs) = ground (arith, all_complaints hs)

combine_spawned :
    (hs : List (Hook (Option Err)))
    → combine (spawned_errors hs) ≡ (
        if any breaks hs
        then some fatal_internal
        else if any stumbles hs
        then some non_fatal_internal
        else merge_if_any (complaints hs))
unfolding combine
combine_spawned hs = rw (any_fatal hs, any_non_fatal hs, all_complaints hs) (ground arith)

-- While no hook of the task's plugins runs and they are not disposed of, calling a hook of each
-- plugin gives the fatal error if some plugin panics, hangs, or fails with a fatal error or one that
-- is not its to return; else the non-fatal error, if some plugin returns it; else a malformed
-- payload error with the messages of all plugins, in their order, if there are any; and else nil.
-- The plugins may be called again after it.
pub spawn_each_verdict :
    (hs : List (Hook (Option Err))) (m m' : TaskPlugins) (e : Option Err)
    → spawn_each hs m ≡ some (m', e)
    → (e ≡ (
        if any breaks hs
        then some fatal_internal
        else if any stumbles hs
        then some non_fatal_internal
        else merge_if_any (complaints hs)))
      × (get_bool m'.working ≡ false)
unfolding spawn_each get_bool
spawn_each_verdict hs m m' e h = (ground (arith, combine_spawned hs), ground arith)

agree-denies :
    (b : AtomicBool) (hs : List (Hook (Bool × Option Err)))
    → get_bool (agree b hs) ≡ (get_bool b && not (any denies hs))
unfolding agree get_bool set_bool
agree-denies b [] = ground arith
agree-denies b (h ∷ hs) = ground (arith, agree-denies (if denies h then set_bool b false else b) hs)

-- Stopped answers that the task succeeded exactly when no plugin denies it; a plugin that panics or
-- hangs does not.
stopped_unanimous :
    (hs : List (Hook (Bool × Option Err))) (m m' : TaskPlugins) (s : Bool) (e : Option Err)
    → stopped hs m ≡ some (m', s, e)
    → s ≡ not (any denies hs)
unfolding stopped
stopped_unanimous hs m m' s e h = ground (arith, agree-denies (new_bool true) hs)

-- Once Dispose has returned, every hook of the task's plugins panics, before any plugin is called.
disposed_for_good :
    (hs : List (Slot × Hook (Option Err))) (m m' : TaskPlugins) (e : Option Err)
    (later : List (Hook (Option Err)))
    → dispose hs m ≡ some (m', e)
    → spawn_each later m' ≡ none
unfolding dispose spawn_each
disposed_for_good hs m m' e later h = ground arith
