-- ===== src/Engines/QemuSessions.antt =====
-- engines/qemu/sessionmanager.go. A method that holds the lock throughout is one transition; what it
-- needs a lock for that another thread never releases is `blocks`. Shells and displays are numbers.
use taskcluster_worker.Prelude.{
  ℕ, ◌≡◌, ◌≢◌, refl, ap, ◌∙◌, Bool, true, false, not, ◌||◌, ◌&&◌, List, [], ◌∷◌, ◌++◌, Option, none,
  some, arith, if◌then◌else◌, ◌==◌,
}
use taskcluster_worker.Errors.{Err, sandbox_terminated, sandbox_aborted}

-- `held` is the lock that a method has returned with.
pub record SessionManager : Type 0 where
  pub held : Bool
  pub new_error : Option Err
  pub shells : List ℕ
  pub displays : List ℕ

abbrev pub no_sessions : SessionManager
no_sessions = record { held = false; new_error = none; shells = []; displays = [] }

pub data Reply : Type 0 where
  blocks : Reply
  returns : Option Err → Reply

-- `AbortSessions` and `KillSessions`, which also abort each shell and close each display.
unfoldable pub abort_sessions : SessionManager → SessionManager × Reply
abort_sessions m =
    if m.held then (m, blocks) else (record m { new_error = some sandbox_aborted }, returns none)

unfoldable pub kill_sessions : SessionManager → SessionManager × Reply
kill_sessions m =
    if m.held then (m, blocks) else (record m { new_error = some sandbox_terminated }, returns none)

abbrev pub is_none_left : List ℕ → Bool
is_none_left [] = true
is_none_left (x ∷ xs) = false

unfoldable pub wait_and_terminate : SessionManager → SessionManager × Reply
wait_and_terminate m =
    if m.held || not (is_none_left m.shells && is_none_left m.displays)
    then (m, blocks)
    else (record m { new_error = some sandbox_terminated }, returns none)

-- `NewShell`, by what ExecShell answers.
unfoldable pub new_shell : ℕ → Option Err → SessionManager → SessionManager × Reply
new_shell x exec m = if m.held then (m, blocks) else elim m.new_error [
  | some e ↦ (m, returns (some e))
  | none ↦ elim exec [
    | some e ↦ (m, returns (some e))
    | none ↦ (record m { shells = m.shells ++ x ∷ [] }, returns none)
  ]
]

abbrev pub without : ℕ → List ℕ → List ℕ
without x [] = []
without x (y ∷ ys) = let rest = without x ys in if x == y then rest else y ∷ rest

-- `waitForShell`, and what OpenDisplay has called when a display is closed.
unfoldable pub shell_ends : ℕ → SessionManager → SessionManager × Reply
shell_ends x m =
    if m.held then (m, blocks) else (record m { shells = without x m.shells }, returns none)

unfoldable pub display_ends : ℕ → SessionManager → SessionManager × Reply
display_ends x m =
    if m.held then (m, blocks) else (record m { displays = without x m.displays }, returns none)

-- `OpenDisplay` up to the dialling; and from the dialling on, where it succeeds.
unfoldable pub ask_display : SessionManager → SessionManager × Reply
ask_display m = if m.held then (m, blocks) else elim m.new_error [
  | none ↦ (m, returns none)
  | some e ↦ (record m { held = true }, returns (some e))
]

unfoldable pub add_display : ℕ → SessionManager → SessionManager × Reply
add_display x m =
    if m.held then (m, blocks) else (record m { displays = m.displays ++ x ∷ [] }, returns none)

pub data Request : Type 0 where
  aborts kills terminates asks_display : Request
  makes_shell : ℕ → Option Err → Request
  ends_shell ends_display adds_display : ℕ → Request

unfoldable pub serve : Request → SessionManager → SessionManager × Reply
unfolding abort_sessions kill_sessions wait_and_terminate ask_display new_shell shell_ends
    display_ends add_display
serve aborts m = abort_sessions m
serve kills m = kill_sessions m
serve terminates m = wait_and_terminate m
serve asks_display m = ask_display m
serve (makes_shell x exec) m = new_shell x exec m
serve (ends_shell x) m = shell_ends x m
serve (ends_display x) m = display_ends x m
serve (adds_display x) m = add_display x m

unfoldable pub serve_all : List Request → SessionManager → SessionManager
serve_all [] m = m
serve_all (r ∷ rs) m = serve_all rs (serve r m).0

held_stays : (r : Request) (m : SessionManager) → m.held ≡ true → serve r m ≡ (m, blocks)
unfolding serve
held_stays aborts m h = ground arith
held_stays kills m h = ground arith
held_stays terminates m h = ground arith
held_stays asks_display m h = ground arith
held_stays (makes_shell x e) m h = ground arith
held_stays (ends_shell x) m h = ground arith
held_stays (ends_display x) m h = ground arith
held_stays (adds_display x) m h = ground arith

all_held : (rs : List Request) (m : SessionManager) → m.held ≡ true → serve_all rs m ≡ m
unfolding serve_all
all_held [] m h = refl
all_held (r ∷ rs) m h = ap (λ p. serve_all rs p.0) (held_stays r m h) ∙ all_held rs m h

-- Once OpenDisplay has been refused, because sessions were aborted, killed or awaited, the lock is
-- never released: every later call, of Abort and Kill too, blocks, in whatever order calls come.
pub refused_display_locks :
    (m : SessionManager) (e : Err) (rs : List Request) (r : Request)
    → (ask_display m).1 ≡ returns (some e)
    → (serve r (serve_all rs (ask_display m).0)).1 ≡ blocks
unfolding ask_display
refused_display_locks m e rs r h =
    ground (arith, h, all_held rs (ask_display m).0, held_stays r (ask_display m).0)

abbrev is_closed : SessionManager → Bool
is_closed m = elim m.new_error [ none ↦ false | some e ↦ true ]

abbrev pub member : ℕ → List ℕ → Bool
member x [] = false
member x (y ∷ ys) = (x == y) || member x ys

member-without : (x y : ℕ) (ys : List ℕ) → member x ys ≡ false → member x (without y ys) ≡ false
member-without x y [] h = h
member-without x y (z ∷ zs) h = ground (arith, member-without x y zs)

closed_serve :
    (x : ℕ) (r : Request) (m : SessionManager)
    → m.new_error ≢ none
    → member x m.shells ≡ false
    → ((serve r m).0.new_error ≢ none) × (member x (serve r m).0.shells ≡ false)
unfolding serve
closed_serve x aborts m h n = ground arith
closed_serve x kills m h n = ground arith
closed_serve x terminates m h n = ground arith
closed_serve x asks_display m h n = ground arith
closed_serve x (makes_shell y e) m h n = ground arith
closed_serve x (ends_shell y) m h n = ground (arith, member-without x y m.shells)
closed_serve x (ends_display y) m h n = ground arith
closed_serve x (adds_display y) m h n = ground arith

closed_serves :
    (x : ℕ) (rs : List Request) (m : SessionManager)
    → m.new_error ≢ none
    → member x m.shells ≡ false
    → ((serve_all rs m).new_error ≢ none) × (member x (serve_all rs m).shells ≡ false)
unfolding serve_all
closed_serves x [] m h n = (h, n)
closed_serves x (r ∷ rs) m h n =
    let c = closed_serve x r m h n in closed_serves x rs (serve r m).0 c.0 c.1

-- From the return of WaitAndTerminate on no shell runs, whatever calls follow, and NewShell gives an
-- error or blocks.
no_shell_after_termination :
    (m : SessionManager) (rs : List Request) (x y : ℕ) (exec : Option Err)
    → (wait_and_terminate m).1 ≡ returns none
    → let t = serve_all rs (wait_and_terminate m).0 in
      (member x t.shells ≡ false) × ((new_shell y exec t).1 ≢ returns none)
unfolding wait_and_terminate new_shell
no_shell_after_termination m rs x y exec h =
    ground (arith, h, closed_serves x rs (wait_and_terminate m).0)
