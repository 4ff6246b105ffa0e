-- ===== src/Engines/ScriptLaws.antt =====
-- What the sandbox of engines/script/sandbox.go returns.
use taskcluster_worker.Prelude.{
  ◌≡◌, ◌≢◌, ◌⊎◌, refl, Bool, true, false, ◌&&◌, List, [], ◌∷◌, none, some, arith,
}
use taskcluster_worker.Errors.{fatal_internal, sandbox_terminated}
use taskcluster_worker.Engines.Contract.{
  Outcome, aborted, Call, event, kills, aborts, after_call, DecidesOnce,
}
use taskcluster_worker.Engines.ScriptSandbox.{
  Found, walk_error, open_error, folder, file, upload_artifacts, Exit, succeeds, signaled,
  ScriptSandbox, exit_error, is_ok, run, resolve, kill, abort, wait_for_result, process_ends,
  resolves, happens, script_sandbox,
}

pub record Settled (s : ScriptSandbox) : Type 0 where
  pub agreed :
      ((s.resolved ≡ false) × (s.result_set ≡ none) × (s.result_error ≡ none) × (s.folder ≡ 0))
      ⊎ ((s.resolved ≡ true)
          × (s.result_set ≢ none)
          × (s.result_error ≡ none)
          × (s.result_abort ≡ some sandbox_terminated)
          × (s.folder ≡ 1))
      ⊎ ((s.resolved ≡ true) × (s.result_set ≡ none) × (s.result_error ≢ none) × (s.folder ≡ 1))

call-Settled :
    (c : Call script_sandbox) (s : ScriptSandbox)
    → Settled s
    → Settled (after_call script_sandbox c s)
unfolding after_call happens run resolve kill abort
call-Settled (event (process_ends e fs)) s v = ground (arith, v)
call-Settled (event resolves) s v = ground (arith, v)
call-Settled (kills a) s v = ground (arith, v)
call-Settled (aborts a) s v = ground (arith, v)

keeps_result :
    (c : Call script_sandbox) (s : ScriptSandbox) (o : Outcome)
    → wait_for_result s ≡ some o
    → wait_for_result (after_call script_sandbox c s) ≡ some o
unfolding after_call happens run resolve kill abort wait_for_result
keeps_result (event (process_ends e fs)) s o v = ground (arith, v)
keeps_result (event resolves) s o v = ground (arith, v)
keeps_result (kills a) s o v = ground (arith, v)
keeps_result (aborts a) s o v = ground (arith, v)

either_one :
    (s : ScriptSandbox) (o : Outcome)
    → Settled s
    → wait_for_result s ≡ some o
    → ((o.result_set ≢ none) × (o.error ≡ none)) ⊎ ((o.result_set ≡ none) × (o.error ≢ none))
unfolding wait_for_result
either_one s o v e = ground (arith, v)

aborts_first :
    (a : Exit) (s : ScriptSandbox)
    → wait_for_result s ≡ none
    → Settled s
    → wait_for_result (abort a s).0 ≡ some aborted
unfolding wait_for_result abort run
aborts_first a s e v = ground (arith, v)

aborts_late :
    (a : Exit) (s : ScriptSandbox) (o : Outcome)
    → Settled s
    → wait_for_result s ≡ some o
    → o.error ≡ none
    → abort a s ≡ (s, some sandbox_terminated)
unfolding wait_for_result abort
aborts_late a s o v e n = ground (arith, v)

aborts_keep :
    (a : Exit) (s : ScriptSandbox) (o : Outcome) → wait_for_result s ≡ some o → (abort a s).0 ≡ s
unfolding wait_for_result abort
aborts_keep a s o e = ground (arith, e)

pub script_sandbox-DecidesOnce : DecidesOnce script_sandbox Settled
script_sandbox-DecidesOnce = record {
  stays_valid = call-Settled;
  same_result = λ c s o v e. keeps_result c s o e;
  set_or_error = either_one;
  abort_first = λ a s v e. aborts_first a s e v;
  abort_late = aborts_late;
  abort_keeps = λ a s o v e. aborts_keep a s o e;
}

-- A script that Kill ends with its signal is not resolved as failed: WaitForResult returns
-- ErrFatalInternalError and no ResultSet, whatever artifacts there are.
kill_is_fatal :
    (s : ScriptSandbox) (fs : List Found)
    → s.resolved ≡ false
    → s.ended ≡ none
    → s.result_set ≡ none
    → wait_for_result (resolve (run signaled fs (kill s).0))
      ≡ some (record { result_set = none; error = some fatal_internal })
unfolding wait_for_result resolve run kill exit_error
kill_is_fatal s fs h e n = ground arith

abbrev closes_fine : Found → Bool
closes_fine (walk_error e) = false
closes_fine (open_error e) = false
closes_fine folder = true
closes_fine (file upload close) = is_ok close

abbrev all_close_fine : List Found → Bool
all_close_fine [] = true
all_close_fine (f ∷ fs) = closes_fine f && all_close_fine fs

-- Where every path can be walked and opened and every file closes without an error,
-- uploadArtifacts returns no error, whichever uploads fail: a script that succeeds is resolved as a
-- success with none of its artifacts uploaded.
upload_errors_lost :
    (s : ScriptSandbox) (fs : List Found)
    → all_close_fine fs ≡ true
    → s.resolved ≡ false
    → s.is_aborted ≡ false
    → s.ended ≡ none
    → (upload_artifacts fs ≡ none) × ((resolve (run succeeds fs s)).result_set ≡ some true)
unfolding resolve run upload_artifacts exit_error
upload_errors_lost s fs f h a e = ground (arith, lost fs f)
  where
    lost : (gs : List Found) → all_close_fine gs ≡ true → upload_artifacts gs ≡ none
    lost [] g = refl
    lost (g ∷ gs) k = ground (arith, lost gs)
