-- ===== src/Engines/QemuNetworks.antt =====
-- engines/qemu/network/pool.go: Network and Release. A network is the position of its entry in the
-- pool, and a wrapper, which Network returns, the number of its making.
use taskcluster_worker.Prelude.{
  ℕ, zero, suc, ◌+◌, Bool, true, false, List, [], ◌∷◌, Option, none, some, if◌then◌else◌,
}
use taskcluster_worker.Engines.DockerNetworks.{network_at, clear_at}

-- `used` has `inUse` of each entry; `wrappers` has their entries, nil when released, the latest
-- first.
pub record Pool : Type 0 where
  pub used : List Bool
  pub wrappers : List (Option ℕ)

abbrev pub all_idle : ℕ → List Bool
all_idle zero = []
all_idle (suc n) = false ∷ all_idle n

abbrev pub pool_of : ℕ → Pool
pool_of n = record { used = all_idle n; wrappers = [] }

-- The first entry that is not in use.
unfoldable pub first_idle : List Bool → Option ℕ
first_idle [] = none
first_idle (b ∷ bs) =
    let rest = first_idle bs in
    if b then (elim rest [ none ↦ none | some n ↦ some (suc n) ]) else some 0

abbrev pub set_at : ℕ → Bool → List Bool → List Bool
set_at i b [] = []
set_at zero b (c ∷ cs) = b ∷ cs
set_at (suc i) b (c ∷ cs) = c ∷ set_at i b cs

-- `Pool.Network`, with whether it returns a network, and not ErrAllNetworksInUse.
unfoldable pub get_network : Pool → Pool × Bool
unfolding first_idle
get_network p = elim (first_idle p.used) [
  | none ↦ (p, false)
  | some i ↦ (record { used = set_at i true p.used; wrappers = some i ∷ p.wrappers }, true)
]

-- `Network.Release`, of a wrapper.
unfoldable pub release : ℕ → Pool → Pool
release w p = elim (network_at w p.wrappers) [
  | none ↦ p
  | some i ↦ record { used = set_at i false p.used; wrappers = clear_at w p.wrappers }
]

-- `none` gets a network, `some w` releases a wrapper.
unfoldable pub use_all : List (Option ℕ) → Pool → Pool
unfolding get_network release
use_all [] p = p
use_all (none ∷ us) p = use_all us (get_network p).0
use_all (some w ∷ us) p = use_all us (release w p)

abbrev pub flag : ℕ → List Bool → ℕ
flag n [] = 0
flag zero (b ∷ bs) = if b then 1 else 0
flag (suc n) (b ∷ bs) = flag n bs

abbrev pub used_count : List Bool → ℕ
used_count [] = 0
used_count (b ∷ bs) = let rest = used_count bs in if b then rest + 1 else rest
