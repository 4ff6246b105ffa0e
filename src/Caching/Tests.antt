-- ===== src/Caching/Tests.antt =====
-- Examples of the theorems on runtime/caching.
use taskcluster_worker.Prelude.{
  ◌||◌, ◌==◌, ◌≤◌, none, ◌≢◌, ◌≤◌, ◌≡◌, ◌⊎◌, refl, true, false, ◌&&◌, arith,
}
use taskcluster_worker.Caching.Entry.{
  succeeded, new_entry, succeed, finish, is_ignored, mark, release,
}
use taskcluster_worker.Caching.Sharing.{
  entry_safe, Shared, once_if, has_succeeded, Reach, here, next, succeeds, finishes, marks,
  releases,
}
use taskcluster_worker.Caching.Conjunction as Conjunctions

-- An entry is created and purged while it is in use, and then released.
abbrev busy_entry : Shared
busy_entry = record {
  entry = record {
    options_hash = 9;
    built = succeeded;
    created = true;
    ref_count = 1;
    purge = false;
    disposed = false;
    registered = true;
  };
  users = 1;
  disposals = 0;
}

abbrev purged_entry : Shared
purged_entry = record {
  entry = record {
    options_hash = 9;
    built = succeeded;
    created = true;
    ref_count = 0;
    purge = true;
    disposed = true;
    registered = false;
  };
  users = 0;
  disposals = 1;
}

Reach-busy : Reach false 5 9 busy_entry
unfolding new_entry succeed finish
Reach-busy = next (next here (succeeds refl refl)) (finishes (λ e. cc) refl)

Reach-purged : Reach false 5 9 purged_entry
unfolding mark release is_ignored
Reach-purged =
    next (next Reach-busy (marks refl refl))
      (releases purged_entry.entry true (omega arith) refl refl)

entry_safe_example :
    (purged_entry.disposals
      ≡ once_if (purged_entry.entry.disposed && has_succeeded purged_entry.entry.built))
    × ((purged_entry.disposals ≡ 0) ⊎ (purged_entry.users ≡ 0))
    × ((false ≡ true) ⊎ (purged_entry.users ≤ 1))
    × ((purged_entry.users ≡ 0) ⊎ (release purged_entry.entry ≢ none))
entry_safe_example = entry_safe false 5 9 (omega arith) Reach-purged

abbrev one_of_two : Conjunctions.Joined
one_of_two = record {
  conj = (Conjunctions.add_context 8 (Conjunctions.new_conjunction 7)).0;
  is_done = λ x. (x == 7) || false;
}

Reach-one_of_two : Conjunctions.Reach 7 one_of_two
unfolding Conjunctions.add_context
Reach-one_of_two =
    Conjunctions.next (Conjunctions.next Conjunctions.here (Conjunctions.adds 8 refl))
      (Conjunctions.finishes 7 refl)
