-- ===== src/Worker/Superseding.antt =====
-- worker.go: which of the claims that superseding obtains is run. Tasks are named by numbers; the
-- answers of the queue to each candidate are given with it.
use taskcluster_worker.Prelude.{
  ℕ, ◌≡◌, refl, ap, Bool, true, false, arith, List, [], ◌∷◌, ◌++◌, Option, none, some, ◌==◌,
  if◌then◌else◌, ◌&&◌, not, count,
}

pub record Claim : Type 0 where
  pub task_id : ℕ
  pub run_id : ℕ

-- A candidate: the state of its last run, or that it has none, or that there was an error; and what
-- ClaimTask answers.
pub data Status : Type 0 where
  unknown no_runs : Status
  last_run : (run_id : ℕ) → (pending : Bool) → Status

pub record Candidate : Type 0 where
  pub task_id : ℕ
  pub status : Status
  pub claimable : Bool

-- The function that is spawned for each candidate.
unfoldable pub attempt : ℕ → Candidate → Option Claim
attempt initial c = if c.task_id == initial then none else elim c.status [
  | unknown ↦ none
  | no_runs ↦ none
  | last_run run pending ↦
      if pending && c.claimable then some (record { task_id = c.task_id; run_id = run }) else none
]

-- `claims`: the initial claim, and those of `claimAttempts` that were made.
unfoldable pub valid_claims : ℕ → List Candidate → List Claim
unfolding attempt
valid_claims initial [] = []
valid_claims initial (c ∷ cs) = elim (attempt initial c) [
  | none ↦ valid_claims initial cs
  | some claim ↦ claim ∷ valid_claims initial cs
]

-- The last of the claims, and those before it.
unfoldable pub split_last : Claim → List Claim → Claim × List Claim
split_last first [] = (first, [])
split_last first (next ∷ rest) = let (last, before) = split_last next rest in (last, first ∷ before)

-- The claim to run, and those to be resolved as superseded when it is done.
unfoldable pub supersede : Claim → List Candidate → Claim × List Claim
unfolding valid_claims split_last
supersede claim candidates = split_last claim (valid_claims claim.task_id candidates)

split_last-append :
    (first : Claim) (rest : List Claim)
    → (split_last first rest).1 ++ (split_last first rest).0 ∷ [] ≡ first ∷ rest
unfolding split_last
split_last-append first [] = refl
split_last-append first (next ∷ rest) = ap (◌∷◌ first) (split_last-append next rest)

-- Whether the queue gives the claim of a candidate that is asked for, and what the last of those
-- claims is, told of the superseder's list from its first to its last.
abbrev pub is_given : Candidate → Bool
is_given c = elim c.status [
  | unknown ↦ false
  | no_runs ↦ false
  | last_run run pending ↦ pending && c.claimable
]

abbrev claim_of : Candidate → Claim
claim_of c = record {
  task_id = c.task_id;
  run_id = elim c.status [ unknown ↦ 0 | no_runs ↦ 0 | last_run run pending ↦ run ];
}

abbrev pub last_given : ℕ → Claim → List Candidate → Claim
last_given initial latest [] = latest
last_given initial latest (c ∷ cs) =
    last_given initial (if is_given c && not (c.task_id == initial) then claim_of c else latest) cs

abbrev pub claims_of : ℕ → List Claim → ℕ
claims_of t claims = count (λ (c : Claim). c.task_id == t) claims

attempt_lem :
    (initial : ℕ) (c : Candidate)
    → attempt initial c
      ≡ (if is_given c && not (c.task_id == initial) then some (claim_of c) else none)
unfolding attempt
attempt_lem initial c = by_status c.status refl
  where
    by_status :
        (st : Status)
        → c.status ≡ st
        → attempt initial c
          ≡ (if is_given c && not (c.task_id == initial) then some (claim_of c) else none)
    by_status unknown e = ground (arith, e)
    by_status no_runs e = ground (arith, e)
    by_status (last_run run pending) e = ground (arith, e)

split_last-valid_claims :
    (initial : ℕ) (latest : Claim) (cs : List Candidate)
    → (split_last latest (valid_claims initial cs)).0 ≡ last_given initial latest cs
unfolding split_last valid_claims
split_last-valid_claims initial latest [] = refl
split_last-valid_claims initial latest (c ∷ cs) = ground (
  arith,
  attempt_lem initial c,
  split_last-valid_claims initial latest cs,
  split_last-valid_claims initial (claim_of c) cs,
)

claims_of-valid_claims :
    (initial t : ℕ) (cs : List Candidate)
    → claims_of t (valid_claims initial cs)
      ≡ (if t == initial then 0 else count (λ (c : Candidate). c.task_id == t && is_given c) cs)
unfolding valid_claims
claims_of-valid_claims initial t [] = ground arith
claims_of-valid_claims initial t (c ∷ cs) =
    ground (arith, attempt_lem initial c, claims_of-valid_claims initial t cs)

-- The claim that is run is the last that the queue gives in the order of the superseder's list, where
-- entries for the initial task are not asked for, or the initial claim if it gives none. With those
-- that are to be resolved as superseded, it has the initial task exactly once, whether or not the
-- superseder lists it, and every other task exactly as often as the list has it with a last run that
-- is pending and a claim that succeeds: none is lost, and none is taken twice from one entry.
pub supersede_lem :
    (claim : Claim) (candidates : List Candidate) (t : ℕ)
    → let (last, before) = supersede claim candidates in
      (last ≡ last_given claim.task_id claim candidates)
      × (claims_of t (before ++ last ∷ []) ≡ (
          if t == claim.task_id
          then 1
          else count (λ (c : Candidate). c.task_id == t && is_given c) candidates))
unfolding supersede
supersede_lem claim candidates t = (
  split_last-valid_claims claim.task_id claim candidates,
  ground (
    arith,
    split_last-append claim (valid_claims claim.task_id candidates),
    claims_of-valid_claims claim.task_id t candidates,
  ),
)

-- What the `select` of the goroutine of a superseded claim sees next: the ten minutes, with the
-- credentials that ReclaimTask returns or its failure; or the end of the task that is run, with
-- whether ReportException succeeds.
pub data Moment : Type 0 where
  ten_minutes : Option ℕ → Moment
  stop_reclaiming : Bool → Moment

-- The goroutine: the credentials it holds, those with which it has reported `superseded`, and
-- whether it has called `tasksResolved.Done()`.
pub record Resolver : Type 0 where
  pub credentials : ℕ
  pub reported : Option ℕ
  pub done : Bool

unfoldable pub resolver_step : Moment → Resolver → Resolver
resolver_step (ten_minutes none) r = record r { done = true }
resolver_step (ten_minutes (some c)) r = record r { credentials = c }
resolver_step (stop_reclaiming accepted) r = record r { reported = some r.credentials; done = true }

unfoldable pub resolver_loop : List Moment → Resolver → Resolver
unfolding resolver_step
resolver_loop [] r = r
resolver_loop (m ∷ ms) r =
    let rest = resolver_loop ms (resolver_step m r) in
    if (resolver_step m r).done then resolver_step m r else rest

-- What came of a claim, told of the moments: nothing yet, lost to a failed reclaim, or reported with
-- the credentials of its last reclaim.
pub data Fate : Type 0 where
  kept lost : Fate
  reported_with : ℕ → Fate

abbrev pub fate : ℕ → List Moment → Fate
fate c [] = kept
fate c (ten_minutes none ∷ ms) = lost
fate c (ten_minutes (some d) ∷ ms) = fate d ms
fate c (stop_reclaiming accepted ∷ ms) = reported_with c

abbrev pub shows : Fate → Option ℕ × Bool
shows kept = (none, false)
shows lost = (none, true)
shows (reported_with c) = (some c, true)

-- A superseded claim is kept until the task that is run is done, and is then reported as
-- superseded, with the credentials of its last reclaim; but one whose reclaim fails is given up
-- without a report. `tasksResolved.Done()` is called in both cases, and not before.
resolver_loop_lem :
    (ms : List Moment) (r : Resolver)
    → r.done ≡ false
    → r.reported ≡ none
    → ((resolver_loop ms r).reported, (resolver_loop ms r).done) ≡ shows (fate r.credentials ms)
unfolding resolver_loop
resolver_loop_lem [] r d n = ground arith
resolver_loop_lem (ten_minutes none ∷ ms) r d n = ground arith
resolver_loop_lem (ten_minutes (some c) ∷ ms) r d n =
    ground (arith, resolver_loop_lem ms (resolver_step (ten_minutes (some c)) r) d n)
resolver_loop_lem (stop_reclaiming a ∷ ms) r d n = ground arith
