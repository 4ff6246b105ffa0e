-- ===== src/Atomics/Tests.antt =====
-- Examples of the theorems on runtime/atomics.
use taskcluster_worker.Prelude.{none, ◌≢◌, ◌⊎◌, ◌≤◌, ◌≡◌, ◌↔◌, refl, true, arith}
use taskcluster_worker.Atomics.Once.{
  once_safe, open_chan, closed_chan, do_enter, do_leave, is_done, Shared, enter, leave, Reach, here,
  next,
}

abbrev inside : Shared
inside = record { once = record { chan = open_chan; started = true }; calls = 1; running = 1 }

abbrev finished_once : Shared
finished_once = record {
  once = record { chan = closed_chan; started = true };
  calls = 1;
  running = 0;
}

Reach-inside : Reach inside
unfolding do_enter
Reach-inside = next here (enter refl refl)

Reach-finished : Reach finished_once
unfolding do_leave
Reach-finished =
    next Reach-inside
      (leave (record { chan = closed_chan; started = true }) (omega arith) refl refl)

once_safe_example :
    (finished_once.calls ≤ 1)
    × (finished_once.running ≤ finished_once.calls)
    × ((finished_once.running ≡ 0) ⊎ (do_leave finished_once.once ≢ none))
    × (((is_done finished_once.once).1 ≡ true)
        ↔ ((finished_once.calls ≡ 1) × (finished_once.running ≡ 0)))
once_safe_example = once_safe Reach-finished
