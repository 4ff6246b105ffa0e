-- ===== src/Plugins/Watchdog.antt =====
-- plugins/watchdog/watchdog.go. Increment and Decrement change the count in one section of the lock
-- and touch the timer in another, so each is two transitions. A task plugin is the number of its
-- making.
use taskcluster_worker.Prelude.{
  subst, sym, ℕ, zero, ◌+◌, ◌-◌, ◌<◌, ◌≡◌, ◌⊎◌, refl, Bool, true, false, not, ◌&&◌, ◌||◌, List, [],
  ◌∷◌, ◌++◌, arith, if◌then◌else◌, ◌==◌,
}
use taskcluster_worker.Prelude.Int.{ℤ, pos, negsuc, ◌+ℤ◌}

-- `is_armed` says that the timer runs, `watching` that waitForTimeout waits for it.
pub record Watchdog : Type 0 where
  pub is_armed : Bool
  pub watching : Bool
  pub running : ℤ

abbrev pub new_watchdog : Watchdog
new_watchdog = record { is_armed = true; watching = true; running = pos 0 }

abbrev pub is_zero : ℤ → Bool
is_zero (pos zero) = true
is_zero _ = false

-- `Touch`, which `ReportIdle` and NewTaskPlugin call too.
unfoldable pub touch : Watchdog → Watchdog
touch w = record w { is_armed = is_zero w.running }

-- The first sections of `Increment` and `Decrement`.
unfoldable pub count_up : Watchdog → Watchdog
count_up w = record w { running = w.running +ℤ pos 1 }

unfoldable pub count_down : Watchdog → Watchdog
count_down w = record w { running = w.running +ℤ negsuc 0 }

-- `Dispose` of the plugin; and waitForTimeout when the timer fires, which calls StopNow and ends.
unfoldable pub dispose : Watchdog → Watchdog
dispose w = record w { is_armed = false; watching = false }

unfoldable pub fire : Watchdog → Watchdog
fire w = record w { is_armed = false; watching = false }

-- What the two Onces of a task plugin have done.
pub record TaskPlugin : Type 0 where
  pub started : Bool
  pub stopped : Bool

abbrev pub new_task_plugin : TaskPlugin
new_task_plugin = record { started = false; stopped = false }

pub data Hook : Type 0 where
  builds starts finishes stops excepts disposes : Hook

-- What a hook does: it counts up or down and touches, it counts down and touches twice, it only
-- touches, it does nothing, or it panics.
pub data Effect : Type 0 where
  up down ends touches nothing panics : Effect

-- `BuildSandbox`, `Started`, `Finished`, `Stopped`, `Exception` and `Dispose` of the task plugin.
unfoldable pub hook : Hook → TaskPlugin → TaskPlugin × Effect
hook builds p = (p, touches)
hook starts p = if p.started then (p, nothing) else (record p { started = true }, up)
hook finishes p = (p, touches)
hook stops p =
    if p.started
    then (if p.stopped then (p, nothing) else (record p { stopped = true }, down))
    else (p, panics)
hook excepts p =
    if p.started && not p.stopped then (record p { stopped = true }, ends) else (p, touches)
hook disposes p =
    if p.started && not p.stopped then (record p { stopped = true }, ends) else (p, touches)

-- The count, and how many calls of Touch are to follow.
unfoldable pub take_effect : Effect → Watchdog × ℕ → Watchdog × ℕ
unfolding count_up count_down
take_effect up (w, n) = (count_up w, n + 1)
take_effect down (w, n) = (count_down w, n + 1)
take_effect ends (w, n) = (count_down w, n + 2)
take_effect touches (w, n) = (w, n + 1)
take_effect nothing s = s
take_effect panics s = s

-- The watchdog with the task plugins and the calls of Touch that threads have still to make.
pub record Watch : Type 0 where
  pub dog : Watchdog
  pub tasks : List TaskPlugin
  pub due : ℕ

pub data Step (s : Watch) : Watch → Type 0 where
  makes :
      {t : Watch} → t ≡ record s { tasks = new_task_plugin ∷ s.tasks; due = s.due + 1 } → Step s t
  hooks :
      {t : Watch} (h : Hook) (before after : List TaskPlugin) (p : TaskPlugin)
      → s.tasks ≡ before ++ p ∷ after
      → t ≡ record {
        dog = (take_effect (hook h p).1 (s.dog, s.due)).0;
        tasks = before ++ (hook h p).0 ∷ after;
        due = (take_effect (hook h p).1 (s.dog, s.due)).1;
      }
      → Step s t
  due_touch :
      {t : Watch} → 0 < s.due → t ≡ record s { dog = touch s.dog; due = s.due - 1 } → Step s t
  reports_idle : {t : Watch} → t ≡ record s { dog = touch s.dog } → Step s t
  fires :
      {t : Watch}
      → s.dog.is_armed ≡ true
      → s.dog.watching ≡ true
      → t ≡ record s { dog = fire s.dog }
      → Step s t
  disposed : {t : Watch} → t ≡ record s { dog = dispose s.dog } → Step s t

pub data Reach : Watch → Type 0 where
  here : Reach (record { dog = new_watchdog; tasks = []; due = 0 })
  next : {s t : Watch} → Reach s → Step s t → Reach t

-- How many tasks have started and not stopped.
abbrev pub busy : List TaskPlugin → ℕ
busy [] = 0
busy (p ∷ ps) = let rest = busy ps in if p.started && not p.stopped then rest + 1 else rest

busy-append : (ps qs : List TaskPlugin) → busy (ps ++ qs) ≡ busy ps + busy qs
busy-append [] qs = omega arith
busy-append (p ∷ ps) qs = ground (arith, busy-append ps qs)

abbrev in_order : List TaskPlugin → Bool
in_order [] = true
in_order (p ∷ ps) = (not p.stopped || p.started) && in_order ps

in_order-append : (ps qs : List TaskPlugin) → in_order (ps ++ qs) ≡ (in_order ps && in_order qs)
in_order-append [] qs = refl
in_order-append (p ∷ ps) qs = ground (arith, in_order-append ps qs)

record Counted (s : Watch) : Type 0 where
  ordered : in_order s.tasks ≡ true
  exact : s.dog.running ≡ pos (busy s.tasks)
  armed : s.due ≡ 0 → s.dog.watching ≡ true → s.dog.is_armed ≡ is_zero s.dog.running

hook-Counted :
    {s : Watch} (h : Hook) (before after : List TaskPlugin) (p : TaskPlugin)
    → s.tasks ≡ before ++ p ∷ after
    → Counted s
    → Counted (record {
      dog = (take_effect (hook h p).1 (s.dog, s.due)).0;
      tasks = before ++ (hook h p).0 ∷ after;
      due = (take_effect (hook h p).1 (s.dog, s.due)).1;
    })
unfolding take_effect hook count_up count_down ◌+ℤ◌
hook-Counted builds before after p e v = ground (arith, v, e)
hook-Counted starts before after p e v = ground (
  arith,
  v,
  e,
  busy-append before (p ∷ after),
  busy-append before ((hook starts p).0 ∷ after),
  in_order-append before (p ∷ after),
  in_order-append before ((hook starts p).0 ∷ after),
)
hook-Counted finishes before after p e v = ground (arith, v, e)
hook-Counted stops before after p e v = ground (
  arith,
  v,
  e,
  busy-append before (p ∷ after),
  busy-append before ((hook stops p).0 ∷ after),
  in_order-append before (p ∷ after),
  in_order-append before ((hook stops p).0 ∷ after),
)
hook-Counted excepts before after p e v = ground (
  arith,
  v,
  e,
  busy-append before (p ∷ after),
  busy-append before ((hook excepts p).0 ∷ after),
  in_order-append before (p ∷ after),
  in_order-append before ((hook excepts p).0 ∷ after),
)
hook-Counted disposes before after p e v = ground (
  arith,
  v,
  e,
  busy-append before (p ∷ after),
  busy-append before ((hook disposes p).0 ∷ after),
  in_order-append before (p ∷ after),
  in_order-append before ((hook disposes p).0 ∷ after),
)

Step-Counted : {s t : Watch} → Step s t → Counted s → Counted t
unfolding touch fire dispose
Step-Counted (makes e) v = ground (arith, v, e)
Step-Counted (hooks h before after p q e) v =
    subst Counted (sym e) (hook-Counted h before after p q v)
Step-Counted (due_touch d e) v = ground (arith, v, e, d)
Step-Counted (reports_idle e) v = ground (arith, v, e)
Step-Counted (fires a w e) v = ground (arith, v, e)
Step-Counted (disposed e) v = ground (arith, v, e)

Reach-Counted : {s : Watch} → Reach s → Counted s
Reach-Counted here = ground arith
Reach-Counted (next r st) = Step-Counted st (Reach-Counted r)

-- Whatever hooks of whatever tasks run on whatever threads, the count of the watchdog is the number
-- of tasks that have started and not stopped. As long as the watchdog watches, once every thread has
-- made the calls of Touch that it owes, the timer runs exactly where no task does.
pub watchdog_counts :
    {s : Watch}
    → Reach s
    → (s.dog.running ≡ pos (busy s.tasks))
      × ((s.dog.watching ≡ false) ⊎ (0 < s.due) ⊎ (s.dog.is_armed ≡ (busy s.tasks == 0)))
watchdog_counts r = ground (arith, Reach-Counted r)
