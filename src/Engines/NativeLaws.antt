-- ===== src/Engines/NativeLaws.antt =====
-- What the sandbox of engines/native/sandbox.go returns, and its shells.

use taskcluster_worker.Prelude.{
  inl, ◌≡◌, ◌≢◌, ◌⊎◌, Bool, true, false, List, [], ◌∷◌, none, some, arith, if◌then◌else◌,
}
use taskcluster_worker.Prelude.Int.{pos, ◌+ℤ◌}
use taskcluster_worker.Errors.{sandbox_terminated, sandbox_aborted}
use taskcluster_worker.Atomics.WaitGroup.{add, done, arm, wait_and_drain}
use taskcluster_worker.Engines.Contract.{
  Outcome, aborted, Call, event, kills, aborts, after_call, after_calls, DecidesOnce, KillFails,
  killed,
}
use taskcluster_worker.Engines.NativeSandbox.{
  NativeSandbox, fresh, new_shell, shell_done, drained, finish, kill, abort, wait_for_result, Event,
  starts_shell, ends_shell, process_ends, finishes, happens, native_sandbox,
}
use taskcluster_worker.Engines.NativeShells.{
  Counted, Counted-happens, abort_shells_lem, length-zero,
}

-- What it has decided, and what it has removed for it.
pub record Decided (s : NativeSandbox) : Type 0 where
  pub agreed :
      ((s.resolved ≡ false)
        × (s.result_set ≡ none)
        × (s.result_err ≡ none)
        × (s.user ≡ 0)
        × (s.folder ≡ 0))
      ⊎ ((s.resolved ≡ true)
          × (s.result_set ≢ none)
          × (s.result_err ≡ none)
          × (s.abort_err ≡ some sandbox_terminated)
          × (s.user ≡ 0)
          × (s.folder ≡ 0))
      ⊎ ((s.resolved ≡ true)
          × (s.result_set ≡ none)
          × (s.result_err ≡ some sandbox_aborted)
          × (s.user ≡ (if s.create_user then 1 else 0))
          × (s.folder ≡ s.user))

Decided-happens : (e : Event) (s : NativeSandbox) → Decided s → Decided (happens e s)
unfolding happens new_shell shell_done drained finish add done wait_and_drain arm ◌+ℤ◌
Decided-happens (starts_shell b) s v = ground (arith, v)
Decided-happens (ends_shell x) s v = ground (arith, v)
Decided-happens (process_ends b) s v = ground (arith, v)
Decided-happens finishes s v = ground (arith, v)

Decided-kill : (s : NativeSandbox) → Counted s → Decided s → Decided (kill s).0
unfolding kill
Decided-kill s c v = ground (arith, v, abort_shells_lem (record s { resolved = true }))

Decided-abort : (s : NativeSandbox) → Counted s → Decided s → Decided (abort s).0
unfolding abort
Decided-abort s c v = ground (arith, v, abort_shells_lem (record s { resolved = true }))

pub record Ended (s : NativeSandbox) : Type 0 where
  pub resolved : (s.resolved ≡ false) ⊎ ((s.shells ≡ []) × (s.sessions.draining ≡ true))
  pub terminated : (s.terminated ≡ none) ⊎ ((s.shells ≡ []) × (s.sessions.draining ≡ true))

Ended-happens : (e : Event) (s : NativeSandbox) → Counted s → Ended s → Ended (happens e s)
unfolding happens new_shell shell_done drained finish add done wait_and_drain arm ◌+ℤ◌
Ended-happens (starts_shell b) s c v = ground (arith, v)
Ended-happens (ends_shell x) s c v = ground (arith, v)
Ended-happens (process_ends b) s c v = ground (arith, v, c, length-zero s.shells)
Ended-happens finishes s c v = ground (arith, v)

pub record Sound (s : NativeSandbox) : Type 0 where
  pub counts : Counted s
  pub decides : Decided s
  pub ends : Ended s

Sound-kill : (s : NativeSandbox) → Sound s → Sound (kill s).0
unfolding kill
Sound-kill s v = record {
  counts = ground (arith, v.counts, abort_shells_lem (record s { resolved = true }));
  decides = Decided-kill s v.counts v.decides;
  ends = ground (arith, v.counts, v.ends, abort_shells_lem (record s { resolved = true }));
}

Sound-abort : (s : NativeSandbox) → Sound s → Sound (abort s).0
unfolding abort
Sound-abort s v = record {
  counts = ground (arith, v.counts, abort_shells_lem (record s { resolved = true }));
  decides = Decided-abort s v.counts v.decides;
  ends = ground (arith, v.counts, v.ends, abort_shells_lem (record s { resolved = true }));
}

call-Sound :
    (c : Call native_sandbox) (s : NativeSandbox) → Sound s → Sound (after_call native_sandbox c s)
unfolding after_call
call-Sound (event e) s v = record {
  counts = Counted-happens e s v.counts;
  decides = Decided-happens e s v.decides;
  ends = Ended-happens e s v.counts v.ends;
}
call-Sound (kills a) s v = Sound-kill s v
call-Sound (aborts a) s v = Sound-abort s v

keeps_result :
    (c : Call native_sandbox) (s : NativeSandbox) (o : Outcome)
    → wait_for_result s ≡ some o
    → wait_for_result (after_call native_sandbox c s) ≡ some o
unfolding wait_for_result after_call happens new_shell shell_done drained finish kill abort
keeps_result (event (starts_shell b)) s o e = ground arith
keeps_result (event (ends_shell x)) s o e = ground arith
keeps_result (event (process_ends b)) s o e = ground arith
keeps_result (event finishes) s o e = ground arith
keeps_result (kills a) s o e = ground arith
keeps_result (aborts a) s o e = ground arith

either_one :
    (s : NativeSandbox) (o : Outcome)
    → Sound s
    → wait_for_result s ≡ some o
    → ((o.result_set ≢ none) × (o.error ≡ none)) ⊎ ((o.result_set ≡ none) × (o.error ≢ none))
unfolding wait_for_result
either_one s o v e = ground (arith, v.decides)

aborts_first :
    (s : NativeSandbox)
    → wait_for_result s ≡ none
    → Sound s
    → wait_for_result (abort s).0 ≡ some aborted
unfolding wait_for_result abort
aborts_first s e v =
    ground (arith, v.decides, v.counts, abort_shells_lem (record s { resolved = true }))

aborts_late :
    (s : NativeSandbox) (o : Outcome)
    → Sound s
    → wait_for_result s ≡ some o
    → o.error ≡ none
    → abort s ≡ (s, some sandbox_terminated)
unfolding wait_for_result abort
aborts_late s o v e n = ground (arith, v.decides)

aborts_keep : (s : NativeSandbox) (o : Outcome) → wait_for_result s ≡ some o → (abort s).0 ≡ s
unfolding wait_for_result abort
aborts_keep s o e = ground (arith, e)

kills_first :
    (s : NativeSandbox)
    → Sound s
    → wait_for_result s ≡ none
    → wait_for_result (kill s).0 ≡ some killed
unfolding wait_for_result kill
kills_first s v e =
    ground (arith, v.decides, v.counts, abort_shells_lem (record s { resolved = true }))

pub native_sandbox-DecidesOnce : DecidesOnce native_sandbox Sound
native_sandbox-DecidesOnce = record {
  stays_valid = call-Sound;
  same_result = λ c s o v e. keeps_result c s o e;
  set_or_error = either_one;
  abort_first = λ a s v e. aborts_first s e v;
  abort_late = λ a s o v e n. aborts_late s o v e n;
  abort_keeps = λ a s o v e. aborts_keep s o e;
}

pub native_sandbox-KillFails : KillFails native_sandbox Sound
native_sandbox-KillFails = record { kill_first = λ a s v e. inl (kills_first s v e) }

pub fresh-Sound : (create_user : Bool) → Sound (fresh create_user)
fresh-Sound create_user = record {
  counts = ground arith;
  decides = ground arith;
  ends = ground arith;
}

calls-Sound :
    (cs : List (Call native_sandbox)) (s : NativeSandbox)
    → Sound s
    → Sound (after_calls native_sandbox cs s)
unfolding after_calls
calls-Sound [] s v = v
calls-Sound (c ∷ cs) s v = calls-Sound cs (after_call native_sandbox c s) (call-Sound c s v)

-- Once WaitForResult of a new sandbox returns, no shell runs and NewShell starts none but returns
-- ErrSandboxTerminated. Then the temporary user and the home folder, where the engine made them,
-- were removed once each if there is no ResultSet, and else not at all.
pub shells_ended :
    (create_user starts : Bool) (cs : List (Call native_sandbox)) (o : Outcome)
    → let s = after_calls native_sandbox cs (fresh create_user) in
      wait_for_result s ≡ some o
      → (s.shells ≡ [])
        × (s.sessions.count ≡ pos 0)
        × (new_shell starts s ≡ (s, some sandbox_terminated))
        × (s.folder ≡ s.user)
        × (s.user ≡ (if s.create_user then (elim o.result_set [ none ↦ 1 | some b ↦ 0 ]) else 0))
unfolding wait_for_result new_shell add
shells_ended create_user starts cs o e =
    told (after_calls native_sandbox cs (fresh create_user))
      (calls-Sound cs (fresh create_user) (fresh-Sound create_user)) e
  where
    told :
        (s : NativeSandbox)
        → Sound s
        → wait_for_result s ≡ some o
        → (s.shells ≡ [])
          × (s.sessions.count ≡ pos 0)
          × (new_shell starts s ≡ (s, some sandbox_terminated))
          × (s.folder ≡ s.user)
          × (s.user ≡ (if s.create_user then (elim o.result_set [ none ↦ 1 | some b ↦ 0 ]) else 0))
    told s v e = ground (arith, v.counts, v.decides, v.ends)
