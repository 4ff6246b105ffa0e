-- ===== src/Engines/Contract.antt =====
-- engines/sandbox.go: the interface `Sandbox`, with demands that its comments make of WaitForResult,
-- Kill and Abort: `DecidesOnce` leaves out that an Abort after an error of WaitForResult is to return
-- ErrSandboxTerminated, and Kill, which is in `KillFails`. An implementation decides under an
-- atomics.Once, whose other callers wait for the one that decides, so each call is one transition.
use taskcluster_worker.Prelude.{
  ◌≡◌, ◌≢◌, ◌⊎◌, inl, inr, refl, ap, ◌∙◌, Bool, false, List, [], ◌∷◌, ◌++◌, Option, none, some,
}
use taskcluster_worker.Errors.{Err, non_fatal_internal, sandbox_terminated, sandbox_aborted}

-- What WaitForResult returns; a ResultSet is what its method Success says.
pub record Outcome : Type 0 where
  pub result_set : Option Bool
  pub error : Option Err

pub record Sandbox : Type 1 where
  pub State : Type 0
  -- What happens of itself: the process ends, the virtual machine crashes.
  pub Event : Type 0
  -- What the system answers to the calls of Kill and Abort.
  pub Answers : Type 0
  pub happens : Event → State → State
  pub kill : Answers → State → State × Option Err
  pub abort : Answers → State → State × Option Err
  -- `none` while WaitForResult waits.
  pub result : State → Option Outcome

abbrev pub aborted : Outcome
aborted = record { result_set = none; error = some sandbox_aborted }

pub data Call (S : Sandbox) : Type 0 where
  event : S.Event → Call S
  kills aborts : S.Answers → Call S

unfoldable pub after_call : (S : Sandbox) → Call S → S.State → S.State
after_call S (event e) s = S.happens e s
after_call S (kills a) s = (S.kill a s).0
after_call S (aborts a) s = (S.abort a s).0

unfoldable pub after_calls : (S : Sandbox) → List (Call S) → S.State → S.State
after_calls S [] s = s
after_calls S (c ∷ cs) s = after_calls S cs (after_call S c s)

-- What WaitForResult has to return is decided once: the demands on the states that satisfy an
-- invariant.
pub record DecidesOnce (S : Sandbox) (Valid : S.State → Type 0) : Type 0 where
  pub stays_valid : (c : Call S) (s : S.State) → Valid s → Valid (after_call S c s)
  pub same_result :
      (c : Call S) (s : S.State) (o : Outcome)
      → Valid s
      → S.result s ≡ some o
      → S.result (after_call S c s) ≡ some o
  pub set_or_error :
      (s : S.State) (o : Outcome)
      → Valid s
      → S.result s ≡ some o
      → ((o.result_set ≢ none) × (o.error ≡ none)) ⊎ ((o.result_set ≡ none) × (o.error ≢ none))
  pub abort_first :
      (a : S.Answers) (s : S.State)
      → Valid s
      → S.result s ≡ none
      → S.result (S.abort a s).0 ≡ some aborted
  pub abort_late :
      (a : S.Answers) (s : S.State) (o : Outcome)
      → Valid s
      → S.result s ≡ some o
      → o.error ≡ none
      → S.abort a s ≡ (s, some sandbox_terminated)
  pub abort_keeps :
      (a : S.Answers) (s : S.State) (o : Outcome)
      → Valid s
      → S.result s ≡ some o
      → (S.abort a s).0 ≡ s

abbrev pub killed : Outcome
killed = record { result_set = some false; error = none }

abbrev pub not_killed : Outcome
not_killed = record { result_set = none; error = some non_fatal_internal }

-- Kill, before WaitForResult has anything to return, makes it return a failed ResultSet, or the
-- non-fatal error where the system does not let it be carried out.
pub record KillFails (S : Sandbox) (Valid : S.State → Type 0) : Type 0 where
  pub kill_first :
      (a : S.Answers) (s : S.State)
      → Valid s
      → S.result s ≡ none
      → (S.result (S.kill a s).0 ≡ some killed) ⊎ (S.result (S.kill a s).0 ≡ some not_killed)

module _ (S : Sandbox) (Valid : S.State → Type 0) (h : DecidesOnce S Valid) where
  pub calls_valid : (cs : List (Call S)) (s : S.State) → Valid s → Valid (after_calls S cs s)
  unfolding after_calls
  calls_valid [] s v = v
  calls_valid (c ∷ cs) s v = calls_valid cs (after_call S c s) (h.stays_valid c s v)

  calls_same :
      (cs : List (Call S)) (s : S.State) (o : Outcome)
      → Valid s
      → S.result s ≡ some o
      → S.result (after_calls S cs s) ≡ some o
  unfolding after_calls
  calls_same [] s o v e = e
  calls_same (c ∷ cs) s o v e =
      calls_same cs (after_call S c s) o (h.stays_valid c s v) (h.same_result c s o v e)

  after_calls-append :
      (cs ds : List (Call S)) (s : S.State)
      → after_calls S (cs ++ ds) s ≡ after_calls S ds (after_calls S cs s)
  unfolding after_calls
  after_calls-append [] ds s = refl
  after_calls-append (c ∷ cs) ds s = after_calls-append cs ds (after_call S c s)

-- For a sandbox that decides once, and any calls from any threads: what WaitForResult
-- returns it returns for good, whatever is called later. It is an error and no ResultSet, or it is a
-- ResultSet and no error, and then Abort changes nothing and returns ErrSandboxTerminated.
outcome_for_good :
    (S : Sandbox) (Valid : S.State → Type 0) (s : S.State) (cs ds : List (Call S)) (a : S.Answers)
    (o : Outcome)
    → DecidesOnce S Valid
    → Valid s
    → S.result (after_calls S cs s) ≡ some o
    → let t = after_calls S cs s in
      (S.result (after_calls S (cs ++ ds) s) ≡ some o)
      × (((o.result_set ≢ none) × (o.error ≡ none) × (S.abort a t ≡ (t, some sandbox_terminated)))
          ⊎ ((o.result_set ≡ none) × (o.error ≢ none)))
outcome_for_good S Valid s cs ds a o h v e =
    let t = after_calls S cs s in
    let w : Valid t = calls_valid S Valid h cs s v in
    (
      ap S.result (after_calls-append S Valid h cs ds s) ∙ calls_same S Valid h ds t o w e,
      elim (h.set_or_error t o w e) [
        | inl b ↦ inl (b.0, b.1, h.abort_late a t o w e b.1)
        | inr b ↦ inr b
      ],
    )

-- For such a sandbox, if WaitForResult had nothing to return yet when Abort was called, it returns
-- ErrSandboxAborted for good, whatever was called before and is called later.
abort_for_good :
    (S : Sandbox) (Valid : S.State → Type 0) (s : S.State) (cs ds : List (Call S)) (a : S.Answers)
    → DecidesOnce S Valid
    → Valid s
    → S.result (after_calls S cs s) ≡ none
    → S.result (after_calls S (cs ++ aborts a ∷ ds) s) ≡ some aborted
unfolding after_calls after_call
abort_for_good S Valid s cs ds a h v e =
    let t = after_calls S cs s in
    let w : Valid t = calls_valid S Valid h cs s v in
    ap S.result (after_calls-append S Valid h cs (aborts a ∷ ds) s)
    ∙ calls_same S Valid h ds (S.abort a t).0 aborted (h.stays_valid (aborts a) t w)
        (h.abort_first a t w e)
