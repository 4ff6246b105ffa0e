-- ===== src/Atomics/Once.antt =====
-- runtime/atomics/once.go. `Do(f)` is two transitions, for `f` runs with the lock released: entry,
-- which tells whether this call runs `f`, and the deferred `close` when `f` has returned or has
-- panicked.
use taskcluster_worker.Prelude.{
  ◌⊎◌, ◌≢◌, ℕ, ◌+◌, ◌-◌, ◌≤◌, ◌<◌, ◌≡◌, ◌↔◌, refl, Bool, true, false, Option, none, some, arith,
  if◌then◌else◌,
}

-- The state of the channel `o.c`.
pub data Chan : Type 0 where
  absent open_chan closed_chan : Chan

pub record Once : Type 0 where
  pub chan : Chan
  pub started : Bool

abbrev pub zero_once : Once
zero_once = record { chan = absent; started = false }

abbrev make_chan : Chan → Chan
make_chan absent = open_chan
make_chan c = c

-- `initAndLock`: the channel is made by the first method that is called.
unfoldable pub init_and_lock : Once → Once
init_and_lock o = record o { chan = make_chan o.chan }

-- `Do` up to the call of `f`: whether this call is the one that runs `f`, and its result.
unfoldable pub do_enter : Once → Once × Bool
unfolding init_and_lock
do_enter o =
    if o.started
    then (init_and_lock o, false)
    else (record (init_and_lock o) { started = true }, true)

abbrev close_chan : Chan → Option Chan
close_chan open_chan = some closed_chan
close_chan _ = none

-- The deferred `close(o.c)`; `none` is Go's panic on a closed or a nil channel.
unfoldable pub do_leave : Once → Option Once
do_leave o = elim (close_chan o.chan) [ none ↦ none | some c ↦ some (record o { chan = c }) ]

abbrev is_closed : Chan → Bool
is_closed closed_chan = true
is_closed _ = false

-- `IsDone`, and what `Wait` waits for.
unfoldable pub is_done : Once → Once × Bool
unfolding init_and_lock
is_done o = (init_and_lock o, is_closed (init_and_lock o).chan)

-- A Once with the threads that use it: how often `f` was called, and how many calls are running.
pub record Shared : Type 0 where
  pub once : Once
  pub calls : ℕ
  pub running : ℕ

abbrev pub fresh : Shared
fresh = record { once = zero_once; calls = 0; running = 0 }

-- Any thread may call `Do` or `IsDone` at any time; a thread inside `f` may return from it.
pub data Step (s : Shared) : Shared → Type 0 where
  enter :
      {t : Shared}
      → (do_enter s.once).1 ≡ true
      → t ≡ record { once = (do_enter s.once).0; calls = s.calls + 1; running = s.running + 1 }
      → Step s t
  skip :
      {t : Shared}
      → (do_enter s.once).1 ≡ false
      → t ≡ record s { once = (do_enter s.once).0 }
      → Step s t
  leave :
      {t : Shared} (o : Once)
      → 0 < s.running
      → do_leave s.once ≡ some o
      → t ≡ record { once = o; calls = s.calls; running = s.running - 1 }
      → Step s t
  ask : {t : Shared} → t ≡ record s { once = (is_done s.once).0 } → Step s t

pub data Reach : Shared → Type 0 where
  here : Reach fresh
  next : {s t : Shared} → Reach s → Step s t → Reach t

abbrev begun : Bool → ℕ
begun true = 1
begun false = 0

abbrev ended : Chan → ℕ
ended closed_chan = 1
ended _ = 0

record Inv (s : Shared) : Type 0 where
  counted : s.calls ≡ begun s.once.started
  split : s.calls ≡ s.running + ended s.once.chan
  made : s.once.started ≡ true → make_chan s.once.chan ≡ s.once.chan

Step-Inv : {s t : Shared} → Step s t → Inv s → Inv t
unfolding do_enter do_leave is_done
Step-Inv (enter f e) v = ground (arith, e, f, v)
Step-Inv (skip f e) v = ground (arith, e, f, v)
Step-Inv (leave o r f e) v = ground (arith, e, f, v)
Step-Inv (ask e) v = ground (arith, e, v)

Reach-Inv : {s : Shared} → Reach s → Inv s
Reach-Inv here = record { counted = refl; split = refl; made = λ e. cc }
Reach-Inv (next r st) = Step-Inv st (Reach-Inv r)

-- Whatever threads do, `f` runs at most once, and while it runs no other call of it is running.
once_runs_once : {s : Shared} → Reach s → (s.calls ≤ 1) × (s.running ≤ s.calls)
once_runs_once r = ground (arith, Reach-Inv r)

-- Whatever threads do, the deferred `close` of a running call finds the channel open, so the
-- channel is never closed twice.
close_never_panics :
    {s : Shared} → Reach s → 0 < s.running → (o : Once) × (do_leave s.once ≡ some o)
unfolding do_leave
close_never_panics {s} r h = (record s.once { chan = closed_chan }, ground (arith, Reach-Inv r))

-- `IsDone` answers true exactly when `f` was called and has returned, and `Wait` returns then.
is_done_iff :
    {s : Shared} → Reach s → ((is_done s.once).1 ≡ true) ↔ ((s.calls ≡ 1) × (s.running ≡ 0))
unfolding is_done
is_done_iff r = (λ h. ground (arith, Reach-Inv r), λ h. ground (arith, Reach-Inv r))

leave_goes : {s : Shared} → Reach s → (s.running ≡ 0) ⊎ (do_leave s.once ≢ none)
unfolding do_leave
leave_goes r = ground (arith, Reach-Inv r)

-- Whatever threads do, `f` runs at most once, and while it runs no other call of it is running; the
-- deferred `close` of a running call finds the channel open, so that it does not panic; and `IsDone`
-- answers true, and `Wait` returns, exactly when `f` was called and has returned.
pub once_safe :
    {s : Shared}
    → Reach s
    → (s.calls ≤ 1)
      × (s.running ≤ s.calls)
      × ((s.running ≡ 0) ⊎ (do_leave s.once ≢ none))
      × (((is_done s.once).1 ≡ true) ↔ ((s.calls ≡ 1) × (s.running ≡ 0)))
once_safe r = ((once_runs_once r).0, (once_runs_once r).1, leave_goes r, is_done_iff r)
