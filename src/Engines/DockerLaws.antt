-- ===== src/Engines/DockerLaws.antt =====
-- What the sandbox of engines/docker/sandbox.go returns, and what becomes of what it holds.
use taskcluster_worker.Prelude.{
  ◌≡◌, ◌≢◌, ◌⊎◌, inl, inr, refl, ap, ◌∙◌, true, false, List, [], ◌∷◌, none, some, arith,
}
use taskcluster_worker.Errors.{non_fatal_internal, sandbox_terminated}
use taskcluster_worker.Engines.Contract.{
  Outcome, aborted, Call, event, after_call, after_calls, DecidesOnce, KillFails, killed,
  not_killed,
}
use taskcluster_worker.Engines.DockerSandbox.{
  all_held, Setup, new_sandbox, DockerSandbox, fresh, wait_fails, Answers, kill, abort, wait,
  terminate, dispose, wait_for_result, docker_sandbox, given_back,
}
use taskcluster_worker.Engines.DockerHeld.{
  Accounted, undecided, passed_on, freed, kept, stays, call-Accounted,
}

keeps_result :
    (c : Call docker_sandbox) (s : DockerSandbox) (o : Outcome)
    → wait_for_result s ≡ some o
    → wait_for_result (after_call docker_sandbox c s) ≡ some o
unfolding wait_for_result
keeps_result c s o e = ground (arith, e, stays c s)

either_one :
    (s : DockerSandbox) (o : Outcome)
    → Accounted s
    → wait_for_result s ≡ some o
    → ((o.result_set ≢ none) × (o.error ≡ none)) ⊎ ((o.result_set ≡ none) × (o.error ≢ none))
unfolding wait_for_result
either_one s o (undecided e) h = ground (arith, e, h)
either_one s o (passed_on b e) h = ground (arith, e, h)
either_one s o (freed x f e) h = ground (arith, e, h)
either_one s o (kept e) h = ground (arith, e, h)

aborts_first :
    (a : Answers) (s : DockerSandbox)
    → wait_for_result s ≡ none
    → Accounted s
    → wait_for_result (abort a s).0 ≡ some aborted
unfolding wait_for_result abort dispose
aborts_first a s h (undecided e) = ground (arith, e, h)
aborts_first a s h (passed_on b e) = ground (arith, e, h)
aborts_first a s h (freed x f e) = ground (arith, e, h)
aborts_first a s h (kept e) = ground (arith, e, h)

aborts_late :
    (a : Answers) (s : DockerSandbox) (o : Outcome)
    → Accounted s
    → wait_for_result s ≡ some o
    → o.error ≡ none
    → abort a s ≡ (s, some sandbox_terminated)
unfolding wait_for_result abort dispose
aborts_late a s o (undecided e) h n = ground (arith, e, h)
aborts_late a s o (passed_on b e) h n = ground (arith, e, h)
aborts_late a s o (freed x f e) h n = ground (arith, e, h, n)
aborts_late a s o (kept e) h n = ground (arith, e, h, n)

aborts_keep :
    (a : Answers) (s : DockerSandbox) (o : Outcome) → wait_for_result s ≡ some o → (abort a s).0 ≡ s
unfolding wait_for_result abort dispose
aborts_keep a s o e = ground (arith, e)

kills_first :
    (a : Answers) (s : DockerSandbox)
    → Accounted s
    → wait_for_result s ≡ none
    → (wait_for_result (kill a s).0 ≡ some killed)
      ⊎ (wait_for_result (kill a s).0 ≡ some not_killed)
unfolding wait_for_result kill terminate dispose
kills_first a s (undecided e) h = ground (arith, e, h)
kills_first a s (passed_on b e) h = ground (arith, e, h)
kills_first a s (freed x f e) h = ground (arith, e, h)
kills_first a s (kept e) h = ground (arith, e, h)

pub docker_sandbox-DecidesOnce : DecidesOnce docker_sandbox Accounted
docker_sandbox-DecidesOnce = record {
  stays_valid = call-Accounted;
  same_result = λ c s o v e. keeps_result c s o e;
  set_or_error = λ s o v e. either_one s o v e;
  abort_first = λ a s v e. aborts_first a s e v;
  abort_late = aborts_late;
  abort_keeps = λ a s o v e. aborts_keep a s o e;
}

pub docker_sandbox-KillFails : KillFails docker_sandbox Accounted
docker_sandbox-KillFails = record { kill_first = kills_first }

calls-Accounted :
    (cs : List (Call docker_sandbox)) (s : DockerSandbox)
    → Accounted s
    → Accounted (after_calls docker_sandbox cs s)
unfolding after_calls
calls-Accounted [] s v = v
calls-Accounted (c ∷ cs) s v =
    calls-Accounted cs (after_call docker_sandbox c s) (call-Accounted c s v)

-- Whatever is called on a new sandbox in whatever order, it gives back the container, the storage
-- and the handles of network and image either not at all or each once, and never when it has passed
-- them to a ResultSet. It passes them on exactly where it returns a ResultSet, and then once; and it
-- keeps them only while it is not resolved, or where it returns ErrNonFatalInternalError.
pub docker_resources :
    (cs : List (Call docker_sandbox))
    → let s = after_calls docker_sandbox cs fresh in
      ((s.result_set ≢ none) × (s.held ≡ given_back 0 1))
      ⊎ ((s.result_set ≡ none)
          × ((s.held ≡ given_back 1 0)
              ⊎ ((s.held ≡ all_held)
                  × ((s.resolved ≡ false) ⊎ (s.result_err ≡ some non_fatal_internal)))))
docker_resources cs =
    told (after_calls docker_sandbox cs fresh) (calls-Accounted cs fresh (undecided refl))
  where
    told :
        (s : DockerSandbox)
        → Accounted s
        → ((s.result_set ≢ none) × (s.held ≡ given_back 0 1))
          ⊎ ((s.result_set ≡ none)
              × ((s.held ≡ given_back 1 0)
                  ⊎ ((s.held ≡ all_held)
                      × ((s.resolved ≡ false) ⊎ (s.result_err ≡ some non_fatal_internal)))))
    told s (undecided e) = inr (ground (arith, e))
    told s (passed_on b e) = inl (ground (arith, e))
    told s (freed x f e) = inr (ground (arith, e))
    told s (kept e) = inr (ground (arith, e))

all_stay :
    (cs : List (Call docker_sandbox)) (s : DockerSandbox)
    → s.resolved ≡ true
    → after_calls docker_sandbox cs s ≡ s
unfolding after_calls
all_stay [] s h = refl
all_stay (c ∷ cs) s h = ap (after_calls docker_sandbox cs) (stays c s h) ∙ all_stay cs s h

-- Where waiting for the container fails before Kill or Abort is called, WaitForResult returns
-- ErrNonFatalInternalError, but nothing that the sandbox holds is given back then or by any later
-- call.
wait_error_leaks :
    (cs : List (Call docker_sandbox))
    → let s = after_calls docker_sandbox (event wait_fails ∷ cs) fresh in
      (wait_for_result s ≡ some (record { result_set = none; error = some non_fatal_internal }))
      × (s.held ≡ all_held)
unfolding after_calls after_call wait wait_for_result
wait_error_leaks cs = ground (arith, all_stay cs (wait wait_fails fresh) refl)

-- `newSandbox` returns a sandbox exactly where the network, the container, the folder, the
-- attachment and the start succeed, which then holds everything. Otherwise it has released the
-- image, once, but it has given back neither the network nor the container nor the folder.
new_sandbox_lem :
    (u : Setup)
    → (((new_sandbox u).1 ≡ none)
        × ((new_sandbox u).0 ≡ all_held)
        × (u.network ≡ none)
        × (u.container ≡ none)
        × (u.folder ≡ none)
        × (u.attach ≡ none)
        × (u.start ≡ none))
      ⊎ (((new_sandbox u).1 ≢ none)
          × ((new_sandbox u).0 ≡ record all_held { image = 1 })
          × ((u.network ≢ none)
              ⊎ (u.container ≢ none)
              ⊎ (u.folder ≢ none)
              ⊎ (u.attach ≢ none)
              ⊎ (u.start ≢ none)))
unfolding new_sandbox
new_sandbox_lem u = ground arith
