-- ===== src/Plugins/Purging.antt =====
-- plugins/cache/cache.go: PurgeCacheAsNeeded, with the loop of Purge of runtime/caching/cache.go. Times
-- and names are numbers; the answer of the purge-cache service and what `Dispose` of an entry returns
-- are arguments.
use taskcluster_worker.Prelude.{
  ℕ, ◌-◌, ◌≤◌, ◌≡◌, refl, Bool, true, false, not, ◌&&◌, List, [], ◌∷◌, map, Option, none, some,
  arith, if◌then◌else◌, ltb, ◌==◌, any, all,
}

-- An entry of a cache: its volume, whether it is created, not marked and not disposed of, and whether
-- it is marked for purging now. Dispose returns no error or ErrDisposableInUse, or fails.
pub record Slot : Type 0 where
  pub name : ℕ
  pub created : ℕ
  pub considered : Bool
  pub purge : Bool
  pub dispose_fails : Bool

pub record Request : Type 0 where
  pub cache_name : ℕ
  pub before : ℕ
  pub is_ours : Bool

-- The filter: a request for another worker-type is skipped.
unfoldable pub requested : List Request → Slot → Bool
requested [] v = false
requested (r ∷ rs) v =
    let rest = requested rs v in
    if not r.is_ours
    then rest
    else if v.name == r.cache_name && ltb v.created r.before
    then true
    else rest

-- The loop of Purge, which returns at the first error: the entries, and whether there was an error.
unfoldable pub purge : (Slot → Bool) → List Slot → List Slot × Bool
purge filter [] = ([], false)
purge filter (v ∷ vs) =
    let (rest, fails) = purge filter vs in
    let marked = record v { purge = true; considered = false } in
    if v.considered && filter v
    then (if v.dispose_fails then (marked ∷ vs, true) else (marked ∷ rest, fails))
    else (v ∷ rest, fails)

pub record Caches : Type 0 where
  pub last_purged : ℕ
  pub shared : List Slot
  pub exclusive : List Slot

-- With the time, the configured delay and the answer of the service, `none` if that fails or is
-- canceled.
unfoldable pub purge_cache_as_needed : ℕ → ℕ → Option (List Request) → Caches → Caches
unfolding purge requested
purge_cache_as_needed now delay answer c =
    if ltb (now - c.last_purged) delay then c else elim answer [
      | none ↦ c
      | some rs ↦ record {
        last_purged = now;
        shared = (purge (requested rs) c.shared).0;
        exclusive = (purge (requested rs) c.exclusive).0;
      }
    ]

-- Independently of the loops: what a request asks for, and the entries with these marked.
abbrev pub asks_for : Slot → Request → Bool
asks_for v r = r.is_ours && (v.name == r.cache_name && ltb v.created r.before)

abbrev pub mark : List Request → Slot → Slot
mark rs v =
    if v.considered && any (asks_for v) rs then record v { purge = true; considered = false } else v

requested_lem : (rs : List Request) (v : Slot) → requested rs v ≡ any (asks_for v) rs
unfolding requested
requested_lem [] v = refl
requested_lem (r ∷ rs) v = ground (arith, requested_lem rs v)

abbrev pub disposes : List Request → Slot → Bool
disposes rs v = not (v.considered && any (asks_for v) rs && v.dispose_fails)

purge-mark :
    (rs : List Request) (vs : List Slot)
    → all (disposes rs) vs ≡ true
    → (purge (requested rs) vs).0 ≡ map (mark rs) vs
unfolding purge
purge-mark rs [] h = refl
purge-mark rs (v ∷ vs) h =
    ground (arith, h, requested_lem rs v, λ (a : all (disposes rs) vs ≡ true). purge-mark rs vs a)

-- Where the last purge is long enough ago, the purge-cache service answers, and no entry that a
-- request asks for fails to be disposed of, PurgeCacheAsNeeded marks exactly those entries of both
-- caches that are created, not marked and not disposed of, and that a request for this worker-type
-- asks for; and it has the time of its request as the time of the last purge.
pub purge_cache_as_needed_lem :
    (now delay : ℕ) (rs : List Request) (c : Caches)
    → delay ≤ now - c.last_purged
    → all (disposes rs) c.shared ≡ true
    → all (disposes rs) c.exclusive ≡ true
    → purge_cache_as_needed now delay (some rs) c ≡ record {
      last_purged = now;
      shared = map (mark rs) c.shared;
      exclusive = map (mark rs) c.exclusive;
    }
unfolding purge_cache_as_needed
purge_cache_as_needed_lem now delay rs c l s e =
    ground (arith, l, purge-mark rs c.shared s, purge-mark rs c.exclusive e)

-- Where disposing of the first entry fails, the entries behind it are not looked at; the time of the
-- last purge is set all the same, so these requests are not fetched again.
purge_lost :
    (now delay : ℕ) (rs : List Request) (v : Slot) (vs : List Slot) (c : Caches)
    → delay ≤ now - c.last_purged
    → c.shared ≡ v ∷ vs
    → v.considered ≡ true
    → v.dispose_fails ≡ true
    → any (asks_for v) rs ≡ true
    → let d = purge_cache_as_needed now delay (some rs) c in
      (d.shared ≡ mark rs v ∷ vs) × (d.last_purged ≡ now)
unfolding purge_cache_as_needed purge
purge_lost now delay rs v vs c l s k f a = ground (arith, l, s, k, f, a, requested_lem rs v)
