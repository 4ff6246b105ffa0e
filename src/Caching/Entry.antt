-- ===== src/Caching/Entry.antt =====
-- runtime/caching/cacheentry.go, and what Require, Purge and the constructor's goroutine in cache.go
-- do to one entry. Each function is what happens under the entry's lock.
use taskcluster_worker.Prelude.{
  ℕ, ◌+◌, ◌-◌, ◌==◌, Bool, true, false, not, ◌&&◌, ◌||◌, Option, none, some, ltb, if◌then◌else◌,
}
use taskcluster_worker.Gc.Resource.{u32}

-- What the constructor has returned.
pub data Built : Type 0 where
  building succeeded failed : Built

-- The times and the resource itself are left out. `registered` is whether the tracker was told of
-- the entry, and not told to forget it.
pub record Entry : Type 0 where
  pub options_hash : ℕ
  pub built : Built
  pub created : Bool
  pub ref_count : ℕ
  pub purge : Bool
  pub disposed : Bool
  pub registered : Bool

-- The entry that Require makes.
unfoldable pub new_entry : ℕ → Entry
new_entry hash = record {
  options_hash = hash;
  built = building;
  created = false;
  ref_count = 1;
  purge = false;
  disposed = false;
  registered = false;
}

-- The tests of the loop in Require, given whether the entry's context lets the request join it.
unfoldable pub is_usable : Bool → ℕ → Bool → Entry → Bool
is_usable shared hash joins e =
    not (e.purge || e.disposed || not (e.options_hash == hash))
    && not (not shared && ltb 0 e.ref_count)
    && not (not joins && not e.created)

unfoldable pub take : Entry → Entry
take e = record e { ref_count = u32 (e.ref_count + 1) }

-- The constructor returns a resource, or an error.
unfoldable pub succeed : Entry → Entry
succeed e = record e { built = succeeded; registered = true }

unfoldable pub fail : Entry → Entry
fail e = record e { built = failed; purge = true; disposed = true }

-- Then `created` is done.
unfoldable pub finish : Entry → Entry
finish e = record e { created = true }

-- How `Dispose` goes on: ErrDisposableInUse, nil for a second disposal, or `resource.Dispose()`.
pub data Disposal : Type 0 where
  in_use already calls : Disposal

unfoldable pub dispose : Entry → Entry × Disposal
dispose e =
    if ltb 0 e.ref_count
    then (e, in_use)
    else (record e { purge = true; disposed = true }, if e.disposed then already else calls)

-- `release`: whether it calls `resource.Dispose()`; `none` is its panic.
unfoldable pub release : Entry → Option (Entry × Bool)
release e =
    if e.ref_count == 0
    then none
    else if e.ref_count - 1 == 0 && e.purge
    then some (record e { ref_count = e.ref_count - 1; disposed = true }, not e.disposed)
    else some (record e { ref_count = e.ref_count - 1 }, false)

-- What Purge and PurgeAll ignore, and what they do to another entry before they dispose of it.
unfoldable pub is_ignored : Entry → Bool
is_ignored e = not e.created || e.purge || e.disposed

unfoldable pub mark : Entry → Entry
mark e = record e { purge = true; registered = false }
