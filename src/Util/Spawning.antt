-- ===== src/Util/Spawning.antt =====
-- runtime/util/parallel.go: SpawnWithLimit. The caller and the goroutines of the calls take steps in any
-- order; each holds the lock throughout a step. No goroutine but the caller waits for the condition.
use taskcluster_worker.Prelude.{
  ℕ, suc, ◌+◌, ◌-◌, ◌*◌, ◌≤◌, ◌<◌, ◌≡◌, ◌⊎◌, inl, inr, refl, Bool, true, false, List, [], ◌∷◌, ◌++◌,
  arith, length, length-append, ◌==◌, count, count-append, Bool-cases, ltb, if◌then◌else◌,
}

-- `limit` is how many calls may be added, `next` is the loop's index, `running` is the indices whose call
-- runs, `leaving` is those that have given their place back and not called wg.Done yet, `left` is those
-- that have; `asleep` says whether the caller is in c.Wait(), and not signalled since.
pub record Spawner : Type 0 where
  pub limit : ℕ
  pub next : ℕ
  pub running : List ℕ
  pub leaving : List ℕ
  pub left : List ℕ
  pub asleep : Bool
  pub returned : Bool

abbrev pub new_spawner : ℕ → Spawner
new_spawner limit = record {
  limit = limit;
  next = 0;
  running = [];
  leaving = [];
  left = [];
  asleep = false;
  returned = false;
}

-- The loop's body, where a place is free; c.Wait(), where none is; the deferred functions of a call at
-- some place among those that run or leave, the first with c.Signal(); and the return, where the
-- counter of the WaitGroup is zero.
unfoldable pub spawn : Spawner → Spawner
spawn s = record s { limit = s.limit - 1; next = s.next + 1; running = s.next ∷ s.running }

unfoldable pub sleep : Spawner → Spawner
sleep s = record s { asleep = true }

unfoldable pub give_back : List ℕ → ℕ → List ℕ → Spawner → Spawner
give_back before i after s = record s {
  limit = s.limit + 1;
  running = before ++ after;
  leaving = i ∷ s.leaving;
  asleep = false;
}

unfoldable pub leave : List ℕ → ℕ → List ℕ → Spawner → Spawner
leave before i after s = record s { leaving = before ++ after; left = i ∷ s.left }

pub data Step (n : ℕ) (s : Spawner) : Spawner → Type 0 where
  spawns :
      {t : Spawner}
      → s.returned ≡ false
      → s.asleep ≡ false
      → s.next < n
      → 0 < s.limit
      → t ≡ spawn s
      → Step n s t
  sleeps :
      {t : Spawner}
      → s.returned ≡ false
      → s.asleep ≡ false
      → s.next < n
      → s.limit ≡ 0
      → t ≡ sleep s
      → Step n s t
  gives_back :
      {t : Spawner} (before after : List ℕ) (i : ℕ)
      → s.running ≡ before ++ i ∷ after
      → t ≡ give_back before i after s
      → Step n s t
  leaves :
      {t : Spawner} (before after : List ℕ) (i : ℕ)
      → s.leaving ≡ before ++ i ∷ after
      → t ≡ leave before i after s
      → Step n s t
  returns :
      {t : Spawner}
      → s.returned ≡ false
      → s.asleep ≡ false
      → s.next ≡ n
      → length s.left ≡ n
      → t ≡ record s { returned = true }
      → Step n s t

-- So many steps from the start of SpawnWithLimit(n, limit, fn).
pub data Reach (n limit : ℕ) : ℕ → Spawner → Type 0 where
  here : Reach n limit 0 (new_spawner limit)
  next : {k : ℕ} {s t : Spawner} → Reach n limit k s → Step n s t → Reach n limit (suc k) t

abbrev pub occurs : ℕ → List ℕ → ℕ
occurs i xs = count (λ x. x == i) xs

record Inv (n limit i k : ℕ) (s : Spawner) : Type 0 where
  places : s.limit + length s.running ≡ limit
  upto : s.next ≤ n
  all_started : length s.running + length s.leaving + length s.left ≡ s.next
  once : occurs i s.running + occurs i s.leaving + occurs i s.left ≡ (if ltb i s.next then 1 else 0)
  waits : (s.asleep ≡ false) ⊎ (s.limit ≡ 0)
  steps : k + 4 * (n - s.next) + 3 * length s.running + length s.leaving ≤ 4 * n + 1
  at_return : s.returned ≡ true → length s.left ≡ n
  before_return :
      (s.returned ≡ true)
      ⊎ (k
            + 4 * (n - s.next)
            + 3 * length s.running
            + length s.leaving
            + (if s.asleep then 0 else 1)
          ≤ 4 * n + 1)

Step-Inv :
    {n limit i k : ℕ} {s t : Spawner} → Step n s t → Inv n limit i k s → Inv n limit i (suc k) t
unfolding spawn sleep give_back leave
Step-Inv {s = s} (spawns r a l p eq) v = ground (arith, eq, r, a, l, p, v)
Step-Inv {s = s} (sleeps r a l z eq) v = ground (arith, eq, r, a, l, z, v)
Step-Inv {i = j} {s = s} (gives_back before after i e eq) v = ground (
  arith,
  eq,
  e,
  v,
  length-append before (i ∷ after),
  length-append before after,
  count-append (λ x. x == j) before (i ∷ after),
  count-append (λ x. x == j) before after,
)
Step-Inv {i = j} {s = s} (leaves before after i e eq) v = ground (
  arith,
  eq,
  e,
  v,
  length-append before (i ∷ after),
  length-append before after,
  count-append (λ x. x == j) before (i ∷ after),
  count-append (λ x. x == j) before after,
)
Step-Inv (returns r a e l eq) v = ground (arith, eq, r, a, e, l, v)

Reach-Inv : {n limit k : ℕ} {s : Spawner} (i : ℕ) → Reach n limit k s → Inv n limit i k s
Reach-Inv i here = ground arith
Reach-Inv i (next r st) = Step-Inv st (Reach-Inv i r)

List-cases : (xs : List ℕ) → (xs ≡ []) ⊎ ((x : ℕ) × (ys : List ℕ) × (xs ≡ x ∷ ys))
List-cases [] = inl refl
List-cases (x ∷ xs) = inr (x, xs, refl)

caller_goes_on :
    (n limit k : ℕ) (s : Spawner)
    → 0 < limit
    → Inv n limit 0 k s
    → s.running ≡ []
    → s.leaving ≡ []
    → s.returned ≡ false
    → (t : Spawner) × Step n s t
caller_goes_on n limit k s p v e d r =
    let awake : s.asleep ≡ false = ground (arith, v.waits, v.places, e, p) in
    elim (Bool-cases (ltb s.next n)) [
      | inl l ↦ (spawn s, spawns r awake (ground (arith, l)) (ground (arith, e, v.places, p)) refl)
      | inr l ↦ (
        record s { returned = true },
        returns r awake (ground (arith, l, v.upto)) (ground (arith, l, e, d, v.upto, v.all_started))
            refl,
      )
    ]

-- Where SpawnWithLimit has not returned, some goroutine can take a step.
goes_on :
    (n limit k : ℕ) (s : Spawner)
    → 0 < limit
    → Inv n limit 0 k s
    → (s.returned ≡ true) ⊎ ((t : Spawner) × Step n s t)
goes_on n limit k s p v = elim (List-cases s.running) [
  | inr (i, rest, e) ↦ inr (give_back [] i rest s, gives_back [] rest i e refl)
  | inl e ↦ elim (List-cases s.leaving) [
    | inr (i, rest, d) ↦ inr (leave [] i rest s, leaves [] rest i d refl)
    | inl d ↦ elim (Bool-cases s.returned) [
      | inl r ↦ inl r
      | inr r ↦ inr (caller_goes_on n limit k s p v e d r)
    ]
  ]
]

none_occurs : (i : ℕ) (xs : List ℕ) → length xs ≡ 0 → occurs i xs ≡ 0
none_occurs i [] e = refl
none_occurs i (x ∷ xs) e = absurd (omega (arith, e))

all_called :
    (n limit k i : ℕ) (s : Spawner)
    → Inv n limit i k s
    → (s.returned ≡ false) ⊎ (occurs i s.left ≡ (if ltb i n then 1 else 0))
all_called n limit k i s v = elim (Bool-cases s.returned) [
  | inr r ↦ inl r
  | inl r ↦
      let l = v.at_return r in
      let e = none_occurs i s.running (omega (arith, l, v.all_started, v.upto)) in
      let d = none_occurs i s.leaving (omega (arith, l, v.all_started, v.upto)) in
      inr (ground (arith, l, e, d, v.once, v.all_started, v.upto))
]

-- SpawnWithLimit(n, limit, fn) with a limit that is not 0, whatever the order of the goroutines: at
-- most `limit` calls run at any time; no index is called twice, and when it has returned each index
-- below n was called once and its call is over; unless it has returned, some goroutine can take a
-- step, so it is never stuck, whether or not it sleeps for want of a place; and there are 4n + 1 steps
-- at most.
pub spawn_with_limit_lem :
    {s : Spawner} (n limit k i : ℕ)
    → 0 < limit
    → Reach n limit k s
    → (length s.running ≤ limit)
      × (occurs i s.running + occurs i s.leaving + occurs i s.left ≤ 1)
      × ((s.returned ≡ false) ⊎ (occurs i s.left ≡ (if ltb i n then 1 else 0)))
      × ((s.returned ≡ true) ⊎ ((t : Spawner) × Step n s t))
      × (k ≤ 4 * n + 1)
spawn_with_limit_lem {s} n limit k i p r =
    let v = Reach-Inv i r in
    (
      omega (arith, v.places),
      ground (arith, v.once),
      all_called n limit k i s v,
      goes_on n limit k s p (Reach-Inv 0 r),
      omega (arith, v.steps),
    )
