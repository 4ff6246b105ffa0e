-- ===== src/TaskRun/Verdict.antt =====
-- TaskRun.Dispose tells of every failure.
use taskcluster_worker.Prelude.{
  ◌≡◌, refl, Bool, true, false, List, [], ◌∷◌, ◌++◌, Option, none, some, arith, if◌then◌else◌, ◌||◌,
  any,
}
use taskcluster_worker.Errors.{Err, fatal_internal, non_fatal_internal}
use taskcluster_worker.TaskRun.State.{TaskRun}
use taskcluster_worker.TaskRun.Stages.{Call, returns, panics}
use taskcluster_worker.TaskRun.Dispose.{
  Teardown, Event, Phase, ◌>>◌, capture, close_context, run_exception_hook, release_plugin,
  release_builder, release_sandbox, release_result, release_context, verdict, phases, dispose,
}

-- Failures. An outcome counts as fatal, or as non-fatal, or as neither.
abbrev pub is_fatal_outcome : Call (Option Err) → Bool
is_fatal_outcome panics = true
is_fatal_outcome (returns none) = false
is_fatal_outcome (returns (some non_fatal_internal)) = false
is_fatal_outcome (returns (some e)) = true

abbrev pub is_non_fatal_outcome : Call (Option Err) → Bool
is_non_fatal_outcome (returns (some non_fatal_internal)) = true
is_non_fatal_outcome _ = false

abbrev pub fatal_event : Event → Bool
fatal_event e = is_fatal_outcome e.outcome

abbrev pub non_fatal_event : Event → Bool
non_fatal_event e = is_non_fatal_outcome e.outcome

abbrev Counts : Phase → Type 0
Counts p =
    (t : TaskRun)
    → ((p t).0.fatal_err ≡ (t.fatal_err || any fatal_event (p t).1))
      × ((p t).0.non_fatal_err ≡ (t.non_fatal_err || any non_fatal_event (p t).1))

or_assoc : (a b c : Bool) → ((a || b) || c) ≡ (a || (b || c))
or_assoc a b c = ground arith

any-append : (p : Event → Bool) (xs ys : List Event) → any p (xs ++ ys) ≡ (any p xs || any p ys)
any-append p [] ys = refl
any-append p (x ∷ xs) ys = ground (arith, any-append p xs ys)

record Counted (p : Phase) : Type 0 where
  counts : Counts p

infixl 5 ◌then◌
◌then◌ : {p q : Phase} → Counted p → Counted q → Counted (p >> q)
◌then◌ {p} {q} hp hq = record {
  counts = λ t.
      let es = (p t).1 in
      let fs = (q (p t).0).1 in
      let (f1, n1) = hp.counts t in
      let (f2, n2) = hq.counts (p t).0 in
      ground (arith, any-append fatal_event es fs, any-append non_fatal_event es fs);
}

capture-Counts :
    (o : Call (Option Err)) (t : TaskRun)
    → ((capture o t).fatal_err ≡ (t.fatal_err || is_fatal_outcome o))
      × ((capture o t).non_fatal_err ≡ (t.non_fatal_err || is_non_fatal_outcome o))
unfolding capture
capture-Counts o t = ground arith

module _ (d : Teardown) where
  close_context-Counted : Counted (close_context d)
  unfolding close_context
  close_context-Counted = record { counts = λ t. ground arith }

  hook-Counted : Counted (run_exception_hook d)
  unfolding run_exception_hook
  hook-Counted = record { counts = λ t. ground arith }

  plugin-Counted : Counted (release_plugin d)
  unfolding release_plugin
  plugin-Counted = record { counts = λ t. ground arith }

  builder-Counted : Counted (release_builder d)
  unfolding release_builder
  builder-Counted = record { counts = λ t. ground arith }

  sandbox-Counted : Counted (release_sandbox d)
  unfolding release_sandbox
  sandbox-Counted = record { counts = λ t. ground arith }

  result-Counted : Counted (release_result d)
  unfolding release_result
  result-Counted = record { counts = λ t. ground arith }

  context-Counted : Counted (release_context d)
  unfolding release_context
  context-Counted = record { counts = λ t. ground arith }

  phases-Counted : Counted (phases d)
  unfolding phases
  phases-Counted =
      close_context-Counted then hook-Counted then plugin-Counted then builder-Counted
      then sandbox-Counted then result-Counted then context-Counted

-- Dispose returns the fatal error if the run has seen one, or if a call of Dispose panicked or
-- failed with any error but the non-fatal one; if not, the non-fatal error if the run or a call of
-- Dispose has seen that; and else nil.
pub dispose_verdict :
    (d : Teardown) (t : TaskRun)
    → (dispose d t).2 ≡ (
        if t.fatal_err || any fatal_event (dispose d t).1
        then some fatal_internal
        else if t.non_fatal_err || any non_fatal_event (dispose d t).1
        then some non_fatal_internal
        else none)
unfolding dispose
dispose_verdict d t =
    let (f, n) = (phases-Counted d).counts t in rw (← f, ← n) (unfold verdict in refl)
