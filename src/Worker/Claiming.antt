-- ===== src/Worker/Claiming.antt =====
-- Worker.Start, as a step relation: the loop's own steps, tasks that end, and calls of StopNow and
-- StopGracefully, in any order. The queue is a parameter: to a number of calls made before and a number of tasks
-- asked for, how many it gives.
use taskcluster_worker.Prelude.{
  ℕ, ◌+◌, ◌-◌, ◌≤◌, ◌<◌, ◌≡◌, ◌≢◌, ◌⊎◌, inl, inr, refl, Bool, true, false, arith,
}

-- Where the loop is: at its test, at ClaimWork, at WaitForLessThan, at the delay, at WaitForIdle
-- behind the loop, or at the end.
pub data Phase : Type 0 where
  testing claiming waiting sleeping draining over : Phase

pub record Loop : Type 0 where
  pub concurrency : ℕ
  pub phase : Phase
  pub active : ℕ
  pub asked : ℕ
  pub polls : ℕ
  pub stopping_gracefully : Bool
  pub stopping_now : Bool

unfoldable pub start : ℕ → Loop
start concurrency = record {
  concurrency = concurrency;
  phase = testing;
  active = 0;
  asked = 0;
  polls = 0;
  stopping_gracefully = false;
  stopping_now = false;
}

pub data Step (claim_work : ℕ → ℕ → ℕ) (l : Loop) : Loop → Type 0 where
  enter :
      {m : Loop}
      → l.phase ≡ testing
      → l.stopping_gracefully ≡ false
      → m ≡ record l { phase = claiming; asked = l.concurrency - l.active }
      → Step claim_work l m
  leave :
      {m : Loop}
      → l.phase ≡ testing
      → l.stopping_gracefully ≡ true
      → m ≡ record l { phase = draining }
      → Step claim_work l m
  break :
      {m : Loop}
      → l.phase ≡ claiming
      → l.stopping_gracefully ≡ true
      → m ≡ record l { phase = draining }
      → Step claim_work l m
  claims :
      {m : Loop}
      → l.phase ≡ claiming
      → m ≡ record l {
        phase = waiting;
        active = l.active + claim_work l.polls l.asked;
        polls = l.polls + 1;
      }
      → Step claim_work l m
  has_capacity :
      {m : Loop}
      → l.phase ≡ waiting
      → l.active < l.concurrency
      → m ≡ record l { phase = sleeping }
      → Step claim_work l m
  wakes : {m : Loop} → l.phase ≡ sleeping → m ≡ record l { phase = testing } → Step claim_work l m
  is_idle :
      {m : Loop}
      → l.phase ≡ draining
      → l.active ≡ 0
      → m ≡ record l { phase = over }
      → Step claim_work l m
  task_ends :
      {m : Loop} → 0 < l.active → m ≡ record l { active = l.active - 1 } → Step claim_work l m
  stop_gracefully : {m : Loop} → m ≡ record l { stopping_gracefully = true } → Step claim_work l m
  stop_now :
      {m : Loop}
      → m ≡ record l { stopping_gracefully = true; stopping_now = true }
      → Step claim_work l m

pub data Reach (claim_work : ℕ → ℕ → ℕ) (n : ℕ) : Loop → Type 0 where
  here : Reach claim_work n (start n)
  next : {l m : Loop} → Reach claim_work n l → Step claim_work l m → Reach claim_work n m

record Ended (l : Loop) : Type 0 where
  ended : l.phase ≡ over → (l.active ≡ 0) × (l.stopping_gracefully ≡ true)
  drained : l.phase ≡ draining → l.stopping_gracefully ≡ true

record Bounded (n : ℕ) (l : Loop) : Type 0 where
  limit : l.concurrency ≡ n
  bounded : l.active ≤ n
  room : (l.phase ≡ testing) ⊎ (l.phase ≡ sleeping) → l.active < n
  capacity : l.phase ≡ claiming → (0 < l.asked) × (l.active + l.asked ≤ n)

module _ (queue : ℕ → ℕ → ℕ) where
  Step-Ended : {l m : Loop} → Step queue l m → Ended l → Ended m
  Step-Ended (enter p s e) v = ground (arith, e, p, s)
  Step-Ended (leave p s e) v = ground (arith, e, p, s)
  Step-Ended (break p s e) v = ground (arith, e, p, s)
  Step-Ended (claims p e) v = ground (arith, e, p)
  Step-Ended (has_capacity p s e) v = ground (arith, e, p, s)
  Step-Ended (wakes p e) v = ground (arith, e, p)
  Step-Ended (is_idle p s e) v = ground (arith, e, p, s)
  Step-Ended (task_ends p e) v = ground (arith, e, p)
  Step-Ended (stop_gracefully e) v = ground (arith, e)
  Step-Ended (stop_now e) v = ground (arith, e)

  Reach-Ended : (n : ℕ) {l : Loop} → Reach queue n l → Ended l
  unfolding start
  Reach-Ended n here = ground arith
  Reach-Ended n (next r s) = Step-Ended s (Reach-Ended n r)

module _ (queue : ℕ → ℕ → ℕ) (obeys : (polls asked : ℕ) → queue polls asked ≤ asked) (n : ℕ) where
  Step-Bounded : {l m : Loop} → Step queue l m → Bounded n l → Bounded n m
  Step-Bounded (enter p s e) v = ground (arith, e, p, s)
  Step-Bounded (leave p s e) v = ground (arith, e, p, s)
  Step-Bounded (break p s e) v = ground (arith, e, p, s)
  Step-Bounded {l} (claims p e) v = ground (arith, e, p, obeys l.polls l.asked)
  Step-Bounded (has_capacity p s e) v = ground (arith, e, p, s)
  Step-Bounded (wakes p e) v = ground (arith, e, p)
  Step-Bounded (is_idle p s e) v = ground (arith, e, p, s)
  Step-Bounded (task_ends p e) v = ground (arith, e, p)
  Step-Bounded (stop_gracefully e) v = ground (arith, e)
  Step-Bounded (stop_now e) v = ground (arith, e)

  Reach-Bounded : {l : Loop} → 0 < n → Reach queue n l → Bounded n l
  unfolding start
  Reach-Bounded h here = ground arith
  Reach-Bounded h (next r s) = Step-Bounded s (Reach-Bounded h r)

-- Whatever happens, a worker never has more active tasks than its concurrency, which is not zero,
-- and when it asks the queue for tasks it asks for at least one, and for no more than it has room
-- for. The queue is assumed to give no more tasks than it is asked for.
never_over_capacity :
    (queue : ℕ → ℕ → ℕ) (n : ℕ) {l : Loop}
    → ((polls asked : ℕ) → queue polls asked ≤ asked)
    → 0 < n
    → Reach queue n l
    → (l.active ≤ n) × ((l.phase ≢ claiming) ⊎ ((0 < l.asked) × (l.active + l.asked ≤ n)))
never_over_capacity queue n {l} obeys h r = (b.bounded, asking l.phase refl)
  where
    b : Bounded n l
    b = Reach-Bounded queue obeys n h r

    asking :
        (p : Phase)
        → l.phase ≡ p
        → (l.phase ≢ claiming) ⊎ ((0 < l.asked) × (l.active + l.asked ≤ n))
    asking claiming e = inr (b.capacity e)
    asking testing e = inl (λ q. cc)
    asking waiting e = inl (λ q. cc)
    asking sleeping e = inl (λ q. cc)
    asking draining e = inl (λ q. cc)
    asking over e = inl (λ q. cc)

-- The loop ends only if the worker was stopped, and then no task is active.
ends_when_idle :
    (queue : ℕ → ℕ → ℕ) (n : ℕ) {l : Loop}
    → Reach queue n l
    → l.phase ≡ over
    → (l.active ≡ 0) × (l.stopping_gracefully ≡ true)
ends_when_idle queue n r e = (Reach-Ended queue n r).ended e

-- Whatever happens, a worker never has more active tasks than its concurrency, which is not zero,
-- and when it asks the queue for tasks it asks for at least one, and for no more than it has room
-- for. Its loop is over only if it was stopped, and then no task is active. The queue is assumed to
-- give no more tasks than it is asked for.
pub claims_within_capacity :
    (queue : ℕ → ℕ → ℕ) (n : ℕ) {l : Loop}
    → ((polls asked : ℕ) → queue polls asked ≤ asked)
    → 0 < n
    → Reach queue n l
    → (l.active ≤ n)
      × ((l.phase ≢ claiming) ⊎ ((0 < l.asked) × (l.active + l.asked ≤ n)))
      × ((l.phase ≢ over) ⊎ ((l.active ≡ 0) × (l.stopping_gracefully ≡ true)))
claims_within_capacity queue n {l} obeys h r =
    let b = never_over_capacity queue n obeys h r in (b.0, b.1, at_end l.phase refl)
  where
    at_end :
        (p : Phase)
        → l.phase ≡ p
        → (l.phase ≢ over) ⊎ ((l.active ≡ 0) × (l.stopping_gracefully ≡ true))
    at_end over e = inr (ends_when_idle queue n r e)
    at_end claiming e = inl (λ q. cc)
    at_end waiting e = inl (λ q. cc)
    at_end sleeping e = inl (λ q. cc)
    at_end draining e = inl (λ q. cc)
    at_end testing e = inl (λ q. cc)
