-- ===== src/Worker/Counter.antt =====
-- worker/taskcounter.go. Times are numbers; the clock is an argument of each method.
use taskcluster_worker.Prelude.{
  ℕ, ◌+◌, ◌-◌, ◌≡◌, ap, ◌∙◌, Bool, true, false, List, [], ◌∷◌, Option, none, some, arith, ltb,
  if◌then◌else◌,
}
use taskcluster_worker.Prelude.OptionMonad.{◌>>=◌, >>=-eq-some}

-- `none` as `idle_since` is a counter that no method was called on.
pub record TaskCounter : Type 0 where
  pub value : ℕ
  pub idle_since : Option ℕ

abbrev pub zero_counter : TaskCounter
zero_counter = record { value = 0; idle_since = none }

unfoldable pub init_and_lock : ℕ → TaskCounter → TaskCounter
init_and_lock now c = elim c.idle_since [ none ↦ record c { idle_since = some now } | some t ↦ c ]

abbrev pub since : ℕ → Option ℕ → ℕ
since now none = 0
since now (some t) = now - t

unfoldable pub idle_time : ℕ → TaskCounter → TaskCounter × ℕ
unfolding init_and_lock
idle_time now c =
    let c' = init_and_lock now c in (c', if ltb 0 c'.value then 0 else since now c'.idle_since)

unfoldable pub increment : ℕ → TaskCounter → TaskCounter
unfolding init_and_lock
increment now c = let c' = init_and_lock now c in record c' { value = c'.value + 1 }

-- `none` is the panic on a count below zero.
unfoldable pub decrement : ℕ → TaskCounter → Option TaskCounter
decrement now c =
    if ltb 0 c.value then some (record { value = c.value - 1; idle_since = some now }) else none

-- The tests that WaitForIdle and WaitForLessThan wait for.
unfoldable pub is_idle : TaskCounter → Bool
is_idle c = if ltb 0 c.value then false else true

unfoldable pub is_less_than : ℕ → TaskCounter → Bool
is_less_than value c = ltb c.value value

pub data Tick : Type 0 where
  begins ends : ℕ → Tick

unfoldable pub tick : TaskCounter → Tick → Option TaskCounter
unfolding increment decrement
tick c (begins now) = some (increment now c)
tick c (ends now) = decrement now c

unfoldable pub ticks : TaskCounter → List Tick → Option TaskCounter
ticks c [] = some c
ticks c (t ∷ ts) = do c' ← tick c t; ticks c' ts

-- How many tasks run, and when the worker became idle for the last time, by the history alone.
abbrev pub running : ℕ → List Tick → ℕ
running n [] = n
running n (begins now ∷ ts) = running (n + 1) ts
running n (ends now ∷ ts) = running (n - 1) ts

abbrev pub last_end : Option ℕ → List Tick → Option ℕ
last_end o [] = o
last_end o (begins now ∷ ts) = last_end (elim o [ none ↦ some now | some t ↦ some t ]) ts
last_end o (ends now ∷ ts) = last_end (some now) ts

increment-value : (now : ℕ) (c : TaskCounter) → (increment now c).value ≡ c.value + 1
unfolding increment
increment-value now c = ground arith

increment-idle :
    (now : ℕ) (c : TaskCounter)
    → (increment now c).idle_since ≡ (elim c.idle_since [ none ↦ some now | some t ↦ some t ])
unfolding increment
increment-idle now c = ground arith

decrement-value : (now : ℕ) (c d : TaskCounter) → decrement now c ≡ some d → d.value ≡ c.value - 1
unfolding decrement
decrement-value now c d e = ground arith

decrement-idle : (now : ℕ) (c d : TaskCounter) → decrement now c ≡ some d → d.idle_since ≡ some now
unfolding decrement
decrement-idle now c d e = ground arith

ticks_from :
    (c c' : TaskCounter) (ts : List Tick)
    → ticks c ts ≡ some c'
    → (c'.value ≡ running c.value ts) × (c'.idle_since ≡ last_end c.idle_since ts)
unfolding ticks tick
ticks_from c c' [] e = ground arith
ticks_from c c' (begins now ∷ ts) e =
    let (m, n) = ticks_from (increment now c) c' ts e in
    (
      m ∙ ap (λ k. running k ts) (increment-value now c),
      n ∙ ap (λ o. last_end o ts) (increment-idle now c),
    )
ticks_from c c' (ends now ∷ ts) e =
    let (b, q, r) = >>=-eq-some (decrement now c) (λ d. ticks d ts) e in
    let (m, n) = ticks_from b c' ts r in
    (
      m ∙ ap (λ k. running k ts) (decrement-value now c b q),
      n ∙ ap (λ o. last_end o ts) (decrement-idle now c b q),
    )

-- After any calls in which no counter falls below zero, a worker that runs tasks is not idle, and
-- one that does not has been idle since its last task ended, or since its counter was first used.
idle_time-ticks :
    (ts : List Tick) (c : TaskCounter) (now : ℕ)
    → ticks zero_counter ts ≡ some c
    → (idle_time now c).1 ≡ (if ltb 0 (running 0 ts) then 0 else since now (last_end none ts))
unfolding idle_time
idle_time-ticks ts c now e = ground (arith, ticks_from zero_counter c ts e)
