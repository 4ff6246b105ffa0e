-- ===== src/Engines/DockerNetworks.antt =====
-- engines/docker/network/pool.go. A network is the number of its creation, and a handle the number
-- of its making.
use taskcluster_worker.Prelude.{
  ℕ, zero, suc, ◌+◌, ◌≤◌, ◌<◌, ◌≡◌, ◌⊎◌, refl, Bool, true, false, not, List, [], ◌∷◌, Option, none,
  some, arith, if◌then◌else◌, ltb, ◌==◌, length,
}

-- `idle` has the network on top that is taken next; `handles` has the networks of the handles, which
-- are nil when released, the latest handle first.
pub record Pool : Type 0 where
  pub idle : List ℕ
  pub created : ℕ
  pub disposed : Bool
  pub handles : List (Option ℕ)

abbrev pub new_pool : Pool
new_pool = record { idle = []; created = 0; disposed = false; handles = [] }

pub data Reply : Type 0 where
  fine error warns panics : Reply

-- `GetNetwork`, where a network can be created or not.
unfoldable pub get_network : Bool → Pool → Pool × Reply
get_network creates p = if p.disposed then (p, panics) else elim p.idle [
  | n ∷ ns ↦ (record p { idle = ns; handles = some n ∷ p.handles }, fine)
  | [] ↦
      if creates
      then (record p { created = p.created + 1; handles = some p.created ∷ p.handles }, fine)
      else (p, error)
]

-- The handle at a position, and the handles without its network.
abbrev pub network_at : ℕ → List (Option ℕ) → Option ℕ
network_at i [] = none
network_at zero (h ∷ hs) = h
network_at (suc i) (h ∷ hs) = network_at i hs

abbrev pub clear_at : ℕ → List (Option ℕ) → List (Option ℕ)
clear_at i [] = []
clear_at zero (h ∷ hs) = none ∷ hs
clear_at (suc i) (h ∷ hs) = h ∷ clear_at i hs

-- `Handle.Release`.
unfoldable pub release : ℕ → Pool → Pool × Reply
release i p = elim (network_at i p.handles) [
  | none ↦ (p, warns)
  | some n ↦
      if p.disposed
      then (p, panics)
      else (record p { idle = n ∷ p.idle; handles = clear_at i p.handles }, fine)
]

abbrev pub any_fails : (ℕ → Bool) → List ℕ → Bool
any_fails fails [] = false
any_fails fails (n ∷ ns) = let rest = any_fails fails ns in if fails n then true else rest

-- `Pool.Dispose`, with the networks that it disposes of and whether it warns that some are missing;
-- `fails` says which cannot be disposed of.
unfoldable pub dispose : (ℕ → Bool) → Pool → Pool × List ℕ × Bool × Reply
dispose fails p = if p.disposed then (p, [], false, warns) else (
  record p { disposed = true },
  p.idle,
  not (p.created == length p.idle),
  if any_fails fails p.idle then error else fine,
)

pub data Use : Type 0 where
  gets : Bool → Use
  releases : ℕ → Use
  disposes : (ℕ → Bool) → Use

unfoldable pub use_pool : Use → Pool → Pool
unfolding get_network release dispose
use_pool (gets creates) p = (get_network creates p).0
use_pool (releases i) p = (release i p).0
use_pool (disposes fails) p = (dispose fails p).0

unfoldable pub use_all : List Use → Pool → Pool
use_all [] p = p
use_all (u ∷ us) p = use_all us (use_pool u p)

-- How often a network is idle, and how many handles have it.
abbrev pub count : ℕ → List ℕ → ℕ
count n [] = 0
count n (m ∷ ms) = let rest = count n ms in if n == m then rest + 1 else rest

abbrev pub handed : ℕ → List (Option ℕ) → ℕ
handed n [] = 0
handed n (none ∷ hs) = handed n hs
handed n (some m ∷ hs) = let rest = handed n hs in if n == m then rest + 1 else rest

abbrev pub in_use : List (Option ℕ) → ℕ
in_use [] = 0
in_use (none ∷ hs) = in_use hs
in_use (some m ∷ hs) = in_use hs + 1

pub handed-clear :
    (n m i : ℕ) (hs : List (Option ℕ))
    → network_at i hs ≡ some m
    → handed n hs ≡ handed n (clear_at i hs) + (if n == m then 1 else 0)
handed-clear n m i [] h = absurd (ground arith)
handed-clear n m zero (x ∷ hs) h = ground (arith, h)
handed-clear n m (suc i) (none ∷ hs) h = ground (arith, handed-clear n m i hs h)
handed-clear n m (suc i) (some x ∷ hs) h = ground (arith, handed-clear n m i hs h)

pub in_use-clear :
    (m i : ℕ) (hs : List (Option ℕ))
    → network_at i hs ≡ some m
    → in_use hs ≡ in_use (clear_at i hs) + 1
in_use-clear m i [] h = absurd (ground arith)
in_use-clear m zero (x ∷ hs) h = ground (arith, h)
in_use-clear m (suc i) (none ∷ hs) h = ground (arith, in_use-clear m i hs h)
in_use-clear m (suc i) (some x ∷ hs) h = ground (arith, in_use-clear m i hs h)

abbrev existing : ℕ → ℕ → ℕ
existing n created = if ltb n created then 1 else 0

record Placed (p : Pool) (n : ℕ) : Type 0 where
  once : count n p.idle + handed n p.handles ≡ existing n p.created
  total : length p.idle + in_use p.handles ≡ p.created

use_pool-Placed : (u : Use) (p : Pool) (n : ℕ) → Placed p n → Placed (use_pool u p) n
unfolding use_pool
use_pool-Placed (gets creates) p n v = ground (arith, v)
use_pool-Placed (releases i) p n v = placed (network_at i p.handles) refl
  where
    placed : (o : Option ℕ) → network_at i p.handles ≡ o → Placed (release i p).0 n
    placed none e = ground (arith, v, e)
    placed (some m) e =
        ground (arith, v, e, handed-clear n m i p.handles e, in_use-clear m i p.handles e)
use_pool-Placed (disposes fails) p n v = ground (arith, v)

use_all-Placed : (us : List Use) (p : Pool) (n : ℕ) → Placed p n → Placed (use_all us p) n
unfolding use_all
use_all-Placed [] p n v = v
use_all-Placed (u ∷ us) p n v = use_all-Placed us (use_pool u p) n (use_pool-Placed u p n v)

-- However networks are got, released and disposed of, each network that was created is idle or in
-- one handle, and never in two: no handle shares its network. So `Dispose` disposes of each network
-- at most once, and warns exactly where a handle has not been released.
network_not_shared :
    (us : List Use) (n : ℕ) (fails : ℕ → Bool)
    → let p = use_all us new_pool in
      let d = dispose fails p in
      (count n p.idle + handed n p.handles ≡ (if ltb n p.created then 1 else 0))
      × (count n d.1 ≤ 1)
      × ((p.disposed ≡ true)
          ⊎ ((d.2 ≡ true) × (0 < in_use p.handles))
          ⊎ ((d.2 ≡ false) × (in_use p.handles ≡ 0)))
unfolding dispose
network_not_shared us n fails =
    ground (arith, use_all-Placed us new_pool n (record { once = ground arith; total = refl }))
