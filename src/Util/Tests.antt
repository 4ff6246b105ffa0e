-- ===== src/Util/Tests.antt =====
-- Examples of the theorems on runtime/util.
use taskcluster_worker.Prelude.{
  ◌+◌, ◌*◌, ◌≤◌, ◌≡◌, ◌⊎◌, refl, true, false, [], arith, length, ltb, if◌then◌else◌,
}
use taskcluster_worker.Util.Spawning.{
  Spawner, new_spawner, spawn, sleep, give_back, Step, spawns, sleeps, gives_back, Reach, here,
  next, occurs, spawn_with_limit_lem,
}

abbrev second_runs : Spawner
second_runs = spawn (give_back [] 0 [] (sleep (spawn (new_spawner 1))))

reached : Reach 2 1 4 second_runs
unfolding spawn sleep give_back
reached =
    next
      (next
        (next (next here (spawns refl refl (omega arith) (omega arith) refl))
          (sleeps refl refl (omega arith) refl refl))
        (gives_back [] [] 0 refl refl))
      (spawns refl refl (omega arith) (omega arith) refl)

spawn_with_limit_example :
    (length second_runs.running ≤ 1)
    × (occurs 0 second_runs.running + occurs 0 second_runs.leaving + occurs 0 second_runs.left ≤ 1)
    × ((second_runs.returned ≡ false) ⊎ (occurs 0 second_runs.left ≡ (if ltb 0 2 then 1 else 0)))
    × ((second_runs.returned ≡ true) ⊎ ((t : Spawner) × Step 2 second_runs t))
    × (4 ≤ 4 * 2 + 1)
spawn_with_limit_example = spawn_with_limit_lem 2 1 4 0 (omega arith) reached
