-- ===== src/Plugins/Reboot.antt =====
-- plugins/reboot/reboot.go. `rebooted` is an atomics.Once, whose function is one transition here; a
-- limit of zero is no limit.
use taskcluster_worker.Prelude.{
  ℕ, ◌+◌, ◌≡◌, Bool, true, false, not, ◌&&◌, ◌||◌, List, [], ◌∷◌, arith, if◌then◌else◌, leb, ◌==◌,
  any,
}

-- `payload.reboot`, or none.
pub data Action : Type 0 where
  nothing always on_failure on_exception : Action

-- `stops` counts the calls of StopGracefully; what is configured: `task_limit` tasks, and a life-cycle.
pub record Plugin : Type 0 where
  pub task_limit : ℕ
  pub has_life_cycle : Bool
  pub has_command : Bool
  pub task_count : ℕ
  pub rebooted : Bool
  pub stops : ℕ

abbrev pub new_plugin : ℕ → Bool → Bool → Plugin
new_plugin task_limit has_life_cycle has_command = record {
  task_limit = task_limit;
  has_life_cycle = has_life_cycle;
  has_command = has_command;
  task_count = 0;
  rebooted = false;
  stops = 0;
}

-- `rebooted.Do` of a call of StopGracefully.
unfoldable pub stop_worker : Plugin → Plugin
stop_worker p = if p.rebooted then p else record p { rebooted = true; stops = p.stops + 1 }

-- `NewTaskPlugin`.
unfoldable pub new_task : Plugin → Plugin
unfolding stop_worker
new_task p =
    let q = record p { task_count = p.task_count + 1 } in
    if not (p.task_limit == 0) && leb p.task_limit q.task_count then stop_worker q else q

-- `Finished`, `Exception` and the timer.
unfoldable pub finished : Action → Bool → Plugin → Plugin
unfolding stop_worker
finished always success p = stop_worker p
finished on_failure success p = if success then p else stop_worker p
finished _ success p = p

unfoldable pub exception : Action → Plugin → Plugin
unfolding stop_worker
exception nothing p = p
exception _ p = stop_worker p

unfoldable pub life_cycle_ends : Plugin → Plugin
unfolding stop_worker
life_cycle_ends p = if p.has_life_cycle then stop_worker p else p

-- Whether `Dispose` runs the command.
unfoldable pub runs_command : Plugin → Bool
runs_command p = p.rebooted && p.has_command

pub data Event : Type 0 where
  starts_task timer : Event
  finishes : Action → Bool → Event
  fails : Action → Event

unfoldable pub happens : Event → Plugin → Plugin
unfolding new_task finished exception life_cycle_ends
happens starts_task p = new_task p
happens timer p = life_cycle_ends p
happens (finishes a success) p = finished a success p
happens (fails a) p = exception a p

unfoldable pub after : List Event → Plugin → Plugin
unfolding happens
after [] p = p
after (e ∷ es) p = after es (happens e p)

-- Independently of the state: an event that asks for a reboot, and how many tasks are started.
abbrev pub asks : Bool → Event → Bool
asks life_cycle starts_task = false
asks life_cycle timer = life_cycle
asks life_cycle (finishes always success) = true
asks life_cycle (finishes on_failure success) = not success
asks life_cycle (finishes _ success) = false
asks life_cycle (fails nothing) = false
asks life_cycle (fails _) = true

abbrev pub tasks : List Event → ℕ
tasks [] = 0
tasks (starts_task ∷ es) = 1 + tasks es
tasks (_ ∷ es) = tasks es

abbrev pub reaches_limit : ℕ → ℕ → Bool
reaches_limit limit n = not (limit == 0) && leb limit n

-- The plugin's fields, where what has happened asks for a reboot or not.
record Holds (limit : ℕ) (life_cycle command asked : Bool) (n : ℕ) (p : Plugin) : Type 0 where
  limit_kept : p.task_limit ≡ limit
  life_kept : p.has_life_cycle ≡ life_cycle
  command_kept : p.has_command ≡ command
  counts : p.task_count ≡ n
  reboots : p.rebooted ≡ (asked || reaches_limit limit n)
  stops : p.stops ≡ (if asked || reaches_limit limit n then 1 else 0)

abbrev started : Event → ℕ
started starts_task = 1
started _ = 0

happens-Holds :
    (limit n : ℕ) (l c asked : Bool) (e : Event) (p : Plugin)
    → Holds limit l c asked n p
    → Holds limit l c (asked || asks l e) (n + started e) (happens e p)
unfolding happens new_task stop_worker finished exception life_cycle_ends
happens-Holds limit n l c asked starts_task p v = ground (arith, v)
happens-Holds limit n l c asked timer p v = ground (arith, v)
happens-Holds limit n l c asked (finishes a success) p v = ground (arith, v)
happens-Holds limit n l c asked (fails a) p v = ground (arith, v)

tasks-cons : (e : Event) (es : List Event) → tasks (e ∷ es) ≡ started e + tasks es
tasks-cons starts_task es = omega arith
tasks-cons timer es = omega arith
tasks-cons (finishes a success) es = omega arith
tasks-cons (fails a) es = omega arith

after-Holds :
    (limit n : ℕ) (l c asked : Bool) (es : List Event) (p : Plugin)
    → Holds limit l c asked n p
    → Holds limit l c (asked || any (asks l) es) (n + tasks es) (after es p)
unfolding after
after-Holds limit n l c asked [] p v = ground (arith, v)
after-Holds limit n l c asked (e ∷ es) p v = ground (
  arith,
  tasks-cons e es,
  after-Holds limit (n + started e) l c (asked || asks l e) es (happens e p)
      (happens-Holds limit n l c asked e p v),
)

-- Whatever tasks start and end, in any order, the plugin stops the worker once if as many tasks have
-- started as configured, if the configured life-cycle has ended, or if a task that asked for it has
-- ended so, and never otherwise; and it runs the configured command in exactly these cases.
pub reboots_once :
    (limit : ℕ) (life_cycle command : Bool) (es : List Event)
    → let p = after es (new_plugin limit life_cycle command) in
      let asked = any (asks life_cycle) es || reaches_limit limit (tasks es) in
      (p.stops ≡ (if asked then 1 else 0)) × (runs_command p ≡ (asked && command))
unfolding runs_command
reboots_once limit l c es =
    ground (arith, after-Holds limit 0 l c false es (new_plugin limit l c) (ground arith))
