-- ===== src/Worker/Reclaiming.antt =====
-- worker.go: reclaimDelay, and the goroutine of processClaim that reclaims the task while it runs.
-- Times are seconds; a duration may be negative.
use taskcluster_worker.Prelude.{
  ℕ, ◌+◌, ◌≡◌, Bool, true, false, List, [], ◌∷◌, Option, none, some, arith, if◌then◌else◌, ◌⊎◌,
}
use taskcluster_worker.Prelude.Int.{ℤ, pos, pos_part, sub_ℕ, ltb_ℤ, ◌≤ℤ◌}
use taskcluster_worker.TaskRun.State.{AbortReason, shutdown, task_canceled}

pub record Options : Type 0 where
  pub reclaim_offset : ℕ
  pub minimum_reclaim_delay : ℕ

-- `time.Until(takenUntil) - ReclaimOffset`, but never less than the minimum.
unfoldable pub reclaim_delay : Options → ℕ → ℕ → ℤ
reclaim_delay o now taken_until =
    let delay = sub_ℕ taken_until (now + o.reclaim_offset) in
    if ltb_ℤ delay (pos o.minimum_reclaim_delay) then pos o.minimum_reclaim_delay else delay

-- The delay is never below the configured minimum, and where it is above it, the task is reclaimed
-- the configured offset before the claim runs out.
reclaim_delay_bounds :
    (o : Options) (now taken_until : ℕ)
    → (pos o.minimum_reclaim_delay ≤ℤ reclaim_delay o now taken_until)
      × ((reclaim_delay o now taken_until ≡ pos o.minimum_reclaim_delay)
          ⊎ (now + pos_part (reclaim_delay o now taken_until) + o.reclaim_offset ≡ taken_until))
unfolding reclaim_delay
reclaim_delay_bounds o now taken_until = ground arith

-- The credentials that a reclaim returns, by number.
pub record Reclaim : Type 0 where
  pub taken_until : ℕ
  pub credentials : ℕ

-- What ReclaimTask answers: a new claim, the conflict of a task that was canceled, or an error.
pub data Answer : Type 0 where
  reclaimed : Reclaim → Answer
  conflict failed : Answer

-- What the `select` of the loop sees next.
pub data Happening : Type 0 where
  task_done worker_stops : Happening
  delay_over : Answer → Happening

-- What the goroutine has done: the client in use, whether and why it aborted the run, the calls of
-- ReclaimTask, and whether it has returned.
pub record Reclaimer : Type 0 where
  pub client : ℕ
  pub taken_until : ℕ
  pub abortion : Option AbortReason
  pub calls : ℕ
  pub returned : Bool

unfoldable pub react : Happening → Reclaimer → Reclaimer
react task_done r = record r { returned = true }
react worker_stops r = record r { abortion = some shutdown; returned = true }
react (delay_over conflict) r = record r {
  abortion = some task_canceled;
  calls = r.calls + 1;
  returned = true;
}
react (delay_over failed) r = record r { calls = r.calls + 1 }
react (delay_over (reclaimed c)) r = record r {
  client = c.credentials;
  taken_until = c.taken_until;
  calls = r.calls + 1;
}

-- The loop, over what happens.
unfoldable pub reclaim_loop : List Happening → Reclaimer → Reclaimer
unfolding react
reclaim_loop [] r = r
reclaim_loop (h ∷ hs) r =
    let rest = reclaim_loop hs (react h r) in if (react h r).returned then react h r else rest

-- The last claim that was obtained before the loop returned.
abbrev pub last_client : ℕ → List Happening → ℕ
last_client c (delay_over (reclaimed x) ∷ hs) = last_client x.credentials hs
last_client c (delay_over failed ∷ hs) = last_client c hs
last_client c _ = c

abbrev pub first_end : List Happening → Option (Option AbortReason)
first_end [] = none
first_end (task_done ∷ hs) = some none
first_end (worker_stops ∷ hs) = some (some shutdown)
first_end (delay_over conflict ∷ hs) = some (some task_canceled)
first_end (delay_over failed ∷ hs) = first_end hs
first_end (delay_over (reclaimed x) ∷ hs) = first_end hs

abbrev pub aborted_by : Option (Option AbortReason) → Option AbortReason
aborted_by none = none
aborted_by (some o) = o

abbrev pub has_ended : Option (Option AbortReason) → Bool
has_ended none = false
has_ended (some o) = true

-- Whatever happens, the loop uses the credentials of the last claim that it obtained, and it returns
-- at the first of three: the task is done, and then it does not abort it; the worker stops, and then
-- it aborts the task with worker-shutdown; or the queue says that the task was canceled, and then it
-- aborts it as such. A failure to reclaim is tried again.
reclaim_loop_lem :
    (hs : List Happening) (r : Reclaimer)
    → r.returned ≡ false
    → r.abortion ≡ none
    → ((reclaim_loop hs r).client ≡ last_client r.client hs)
      × ((reclaim_loop hs r).returned ≡ has_ended (first_end hs))
      × ((reclaim_loop hs r).abortion ≡ aborted_by (first_end hs))
unfolding reclaim_loop
reclaim_loop_lem [] r h a = ground arith
reclaim_loop_lem (task_done ∷ hs) r h a = ground arith
reclaim_loop_lem (worker_stops ∷ hs) r h a = ground arith
reclaim_loop_lem (delay_over conflict ∷ hs) r h a = ground arith
reclaim_loop_lem (delay_over failed ∷ hs) r h a =
    ground (arith, reclaim_loop_lem hs (react (delay_over failed) r) h a)
reclaim_loop_lem (delay_over (reclaimed c) ∷ hs) r h a =
    ground (arith, reclaim_loop_lem hs (react (delay_over (reclaimed c)) r) h a)
