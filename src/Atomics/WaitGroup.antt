-- ===== src/Atomics/WaitGroup.antt =====
-- runtime/atomics/waitgroup.go. The counter is an integer (a Go `int`, which no program fills).
use taskcluster_worker.Prelude.{
  zero, ◌≢◌, ◌≡◌, Bool, true, false, ◌&&◌, List, [], ◌∷◌, any, ◌⊎◌, Option, none, some, arith,
  if◌then◌else◌,
}
use taskcluster_worker.Prelude.Int.{ℤ, pos, negsuc, ◌+ℤ◌, ltb_ℤ}

-- `armed` tells whether the condition variable has its lock, so whether `Broadcast` is called.
pub record WaitGroup : Type 0 where
  pub count : ℤ
  pub draining : Bool
  pub armed : Bool

abbrev pub zero_wait_group : WaitGroup
zero_wait_group = record { count = pos 0; draining = false; armed = false }

-- How a method that changes the counter ends.
pub data Signal : Type 0 where
  rejected broadcast silent panicked : Signal

unfoldable pub test_and_broadcast : WaitGroup → Signal
test_and_broadcast wg =
    if ltb_ℤ wg.count (pos 0) then panicked else if wg.armed then broadcast else silent

-- `rejected` is `ErrWaitGroupDraining`.
unfoldable pub add : WaitGroup → ℤ → WaitGroup × Signal
unfolding test_and_broadcast
add wg delta =
    if ltb_ℤ (pos 0) delta && wg.draining
    then (wg, rejected)
    else let wg' = record wg { count = wg.count +ℤ delta } in (wg', test_and_broadcast wg')

unfoldable pub done : WaitGroup → WaitGroup × Signal
unfolding test_and_broadcast
done wg = let wg' = record wg { count = wg.count +ℤ negsuc 0 } in (wg', test_and_broadcast wg')

unfoldable pub drain : WaitGroup → WaitGroup
drain wg = record wg { draining = true }

abbrev is_zero : ℤ → Bool
is_zero (pos zero) = true
is_zero _ = false

-- The waiting methods set the condition's lock, then wait while their test fails: `none`.
unfoldable pub arm : WaitGroup → WaitGroup
arm wg = record wg { armed = true }

unfoldable pub wait : WaitGroup → Option WaitGroup
unfolding arm
wait wg = if is_zero wg.count then some (arm wg) else none

-- A waiting method returns with the wait group, or panics on a bad argument, or goes on waiting.
pub data Waited : Type 0 where
  returns : WaitGroup → Waited
  panics blocks : Waited

unfoldable pub wait_for_less_than : WaitGroup → ℤ → Waited
unfolding arm
wait_for_less_than wg count =
    if ltb_ℤ (pos 0) count
    then (if ltb_ℤ wg.count count then returns (arm wg) else blocks)
    else panics

unfoldable pub wait_and_drain : WaitGroup → Option WaitGroup
unfolding arm
wait_and_drain wg = if is_zero wg.count then some (record (arm wg) { draining = true }) else none

pub data Call : Type 0 where
  adds : ℤ → Call
  dones drains : Call

unfoldable pub step : WaitGroup → Call → WaitGroup × Signal
unfolding add done drain
step wg (adds delta) = add wg delta
step wg dones = done wg
step wg drains = (drain wg, silent)

-- The wait group after a sequence of calls, and what each call signalled.
unfoldable pub run : WaitGroup → List Call → WaitGroup × List Signal
run wg [] = (wg, [])
run wg (c ∷ cs) = let (wg', s) = step wg c in let (last, ss) = run wg' cs in (last, s ∷ ss)

abbrev pub is_panic : Signal → Bool
is_panic panicked = true
is_panic _ = false

abbrev pub is_broadcast : Signal → Bool
is_broadcast broadcast = true
is_broadcast _ = false

step_drained :
    (wg : WaitGroup) (c : Call)
    → wg.count ≡ pos 0
    → wg.draining ≡ true
    → is_panic (step wg c).1 ≡ false
    → ((step wg c).0.count ≡ pos 0) × ((step wg c).0.draining ≡ true)
unfolding step ◌+ℤ◌
step_drained wg c z d h = ground arith

run_drained :
    (wg : WaitGroup) (cs : List Call)
    → wg.count ≡ pos 0
    → wg.draining ≡ true
    → any is_panic (run wg cs).1 ≡ false
    → ((run wg cs).0.count ≡ pos 0) × ((run wg cs).0.draining ≡ true)
unfolding run
run_drained wg [] z d h = (z, d)
run_drained wg (c ∷ cs) z d h = ground (arith, step_drained wg c z d, run_drained (step wg c).0 cs)

-- Once `WaitAndDrain` has returned, the counter is zero and stays zero: whatever calls follow, as
-- long as none of them panics.
wait_and_drain_final :
    (wg wg' : WaitGroup) (cs : List Call)
    → wait_and_drain wg ≡ some wg'
    → any is_panic (run wg' cs).1 ≡ false
    → ((run wg' cs).0.count ≡ pos 0) × ((run wg' cs).0.draining ≡ true)
unfolding wait_and_drain
wait_and_drain_final wg wg' cs e h = ground (arith, run_drained wg' cs)

step_armed :
    (wg : WaitGroup) (c : Call)
    → wg.armed ≡ true
    → is_panic (step wg c).1 ≡ false
    → ((step wg c).0.armed ≡ true)
      × ((is_broadcast (step wg c).1 ≡ true) ⊎ ((step wg c).0.count ≡ wg.count))
unfolding step ◌+ℤ◌
step_armed wg c a h = ground arith

-- No wake-up is lost: from the moment on that a waiter has set the condition's lock, calls that
-- bring a counter that is not zero to zero, none of them panicking, broadcast at least once.
wake_up_not_lost :
    (wg : WaitGroup) (cs : List Call)
    → wg.armed ≡ true
    → wg.count ≢ pos 0
    → any is_panic (run wg cs).1 ≡ false
    → (run wg cs).0.count ≡ pos 0
    → any is_broadcast (run wg cs).1 ≡ true
unfolding run
wake_up_not_lost wg [] a n h z = absurd (n z)
wake_up_not_lost wg (c ∷ cs) a n h z =
    ground (arith, step_armed wg c a, wake_up_not_lost (step wg c).0 cs)
