-- ===== src/Engines/Disposing.antt =====
-- What TaskRun.Dispose does with a sandbox that decides once.
use taskcluster_worker.Prelude.{
  ℕ, ◌≡◌, refl, ap, ◌∙◌, Bool, false, List, Option, none, some, arith, count, ◌==◌,
}
use taskcluster_worker.Errors.{Err, sandbox_terminated}
use taskcluster_worker.Engines.Contract.{
  Outcome, Sandbox, Call, after_calls, DecidesOnce, calls_valid,
}
use taskcluster_worker.TaskRun.State.{TaskRun}
use taskcluster_worker.TaskRun.Stages.{returns}
use taskcluster_worker.TaskRun.Dispose.{Teardown, Action, disposes_result, dispose}
use taskcluster_worker.TaskRun.Disposal.{Held, held, actions, plan, dispose_releases}

-- The answer of WaitForResult to a task run, for which a ResultSet is a number.
abbrev pub late_answer : ℕ → Option Outcome → Option ℕ × Option Err
late_answer n none = (none, none)
late_answer n (some o) = (elim o.result_set [ none ↦ none | some b ↦ some n ], o.error)

abbrev pub is_disposal : ℕ → Action → Bool
is_disposal n (disposes_result m) = m == n
is_disposal n _ = false

-- What Abort and WaitForResult then answer.
late_answers :
    (S : Sandbox) (Valid : S.State → Type 0) (s : S.State) (cs : List (Call S)) (a : S.Answers)
    (n : ℕ) (b : Bool) (d : Teardown)
    → DecidesOnce S Valid
    → Valid s
    → S.result (after_calls S cs s) ≡ some (record { result_set = some b; error = none })
    → d.abort_sandbox ≡ returns (S.abort a (after_calls S cs s)).1
    → d.late_result ≡ returns (late_answer n (S.result (S.abort a (after_calls S cs s)).0))
    → (d.abort_sandbox ≡ returns (some sandbox_terminated))
      × (d.late_result ≡ returns (some n, none))
late_answers S Valid s cs a n b d h v e da dl =
    let u = after_calls S cs s in
    let o : Outcome = record { result_set = some b; error = none } in
    let w : Valid u = calls_valid S Valid h cs s v in
    let late : S.abort a u ≡ (u, some sandbox_terminated) = h.abort_late a u o w e refl in
    (
      da ∙ ap (λ p. returns p.1) late,
      dl
          ∙ ap (λ p. returns (late_answer n (S.result p.0))) late
          ∙ ap (λ q. returns (late_answer n q)) e,
    )

planned :
    (d : Teardown) (k : Held) (h n : ℕ)
    → d.abort_sandbox ≡ returns (some sandbox_terminated)
    → d.late_result ≡ returns (some n, none)
    → k.sandbox ≡ some h
    → k.result ≡ none
    → count (is_disposal n) (plan d k) ≡ 1
planned d k h n told answered x r = ground (arith, told, answered, x, r)

-- Where a sandbox that decides once has come to a ResultSet, after any calls, and the task run has
-- not taken it, Dispose disposes of that ResultSet too, exactly once, whatever else fails on the way.
pub late_result_disposed :
    (S : Sandbox) (Valid : S.State → Type 0) (s : S.State) (cs : List (Call S)) (a : S.Answers)
    (h n : ℕ) (b : Bool) (d : Teardown) (t : TaskRun)
    → DecidesOnce S Valid
    → Valid s
    → S.result (after_calls S cs s) ≡ some (record { result_set = some b; error = none })
    → d.abort_sandbox ≡ returns (S.abort a (after_calls S cs s)).1
    → d.late_result ≡ returns (late_answer n (S.result (S.abort a (after_calls S cs s)).0))
    → t.sandbox ≡ some h
    → t.result_set ≡ none
    → (count (is_disposal n) (actions (dispose d t).1) ≡ 1)
      × ((dispose d t).0.result_set ≡ none)
      × ((dispose d t).0.sandbox ≡ none)
late_result_disposed S Valid s cs a h n b d t once v e da dl x r =
    let (told, answered) = late_answers S Valid s cs a n b d once v e da dl in
    let (calls, left) = dispose_releases d t in
    (
      ap (count (is_disposal n)) calls ∙ planned d (held t) h n told answered x r,
      ap (λ k. k.result) left,
      ap (λ k. k.sandbox) left,
    )
