-- ===== src/Guest/Tests.antt =====
-- Examples of the theorems on engines/qemu/metaservice.
use taskcluster_worker.Prelude.{
  ℕ, zero, suc, ◌+◌, ◌-◌, ◌≤◌, ◌<◌, ◌≡◌, ◌≢◌, ◌⊎◌, refl, true, false, [], ◌∷◌, none, some,
}
use taskcluster_worker.Errors.{non_fatal_internal, resource_not_found}
use taskcluster_worker.Guest.Tools.{
  ArtifactAttempt, lost, replied, get_artifact, get_artifact_without_retry, holds,
}
use taskcluster_worker.Guest.Fetching.{artifact_delivered}
use taskcluster_worker.Guest.Resolving.{
  get, put, new_service, handle_all, answers, first_report, to_list, first_report_decides,
}
use taskcluster_worker.Guest.Asking.{
  Action, asked, poll_gets, handle_reply, wait_times_out, awaits_done, returned, Reach, here, next,
  gets, replies, gives_up_waiting, action_settles,
}

first_report_decides_example :
    handle_all ((get, true) ∷ (put, false) ∷ (put, true) ∷ []) new_service ≡ (
      answers none ((get, true) ∷ (put, false) ∷ (put, true) ∷ []),
      to_list (first_report ((get, true) ∷ (put, false) ∷ (put, true) ∷ [])),
    )
first_report_decides_example = first_report_decides ((get, true) ∷ (put, false) ∷ (put, true) ∷ [])

abbrev late : Action
late = wait_times_out (handle_reply (poll_gets asked)).0

Reach-late : Reach late
unfolding poll_gets handle_reply wait_times_out
Reach-late =
    next (next (next here (gets refl refl)) (replies refl refl)) (gives_up_waiting refl refl)

action_settles_example :
    (late.runs ≤ 1)
    × (late.closes ≤ 1)
    × (((late.running ≡ false) × (late.poller_has ≡ false)) ⊎ (late.closes ≡ 0))
    × ((late.asker ≢ returned) ⊎ ((late.running ≡ false) × ((handle_reply late).1 ≡ true)))
    × ((late.asker ≢ awaits_done)
        ⊎ (late.running ≡ true)
        ⊎ (late.poller_has ≡ true)
        ⊎ (0 < late.closes))
action_settles_example = action_settles Reach-late

abbrev second_reply : ℕ → ArtifactAttempt
second_reply zero = lost
second_reply (suc k) =
    replied (some (1 ∷ 2 ∷ [])) (record { creates = true; copies = true; seeks = true })

artifact_delivered_example :
    let (file, err, made) = get_artifact second_reply in
    (0 < made)
    × (made ≤ 3)
    × ((made ≤ 0 + 1) ⊎ ((get_artifact_without_retry (second_reply 0)).1 ≡ some non_fatal_internal))
    × (((holds (second_reply (made - 1)) ≡ some file) × (file ≢ none) × (err ≡ none))
        ⊎ ((holds (second_reply (made - 1)) ≡ some none)
            × (file ≡ none)
            × (err ≡ some resource_not_found))
        ⊎ ((made ≡ 3) × (file ≡ none) × (err ≡ some non_fatal_internal)))
artifact_delivered_example = artifact_delivered second_reply 0
