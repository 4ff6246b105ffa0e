-- ===== src/Gc/Tests.antt =====
-- Examples of the theorems on runtime/gc, with an insertion sort for `sort.Sort`.
use taskcluster_worker.Prelude.{
  ℕ, ◌+◌, ◌≤◌, ◌≡◌, refl, Bool, true, false, Bool-cases, inl, inr, List, [], ◌∷◌, Option, none,
  some, arith, leb, if◌then◌else◌, count,
}
use taskcluster_worker.Errors.{disposable_in_use}
use taskcluster_worker.Gc.Collector.{
  Resource, Collector, System, need_disk_space, need_memory, completed, collect, choose, new,
}
use taskcluster_worker.Gc.Tracking.{
  registers, unregisters, Call, run, set_run, member, Distinct, run-refines,
}
use taskcluster_worker.Gc.Passing.{Rising, Reclaimed}
use taskcluster_worker.Gc.Collecting.{collect_reclaims}

abbrev old : Resource
old = record {
  id = 1;
  last_used = 10;
  disk_size = (100, none);
  memory_size = (0, none);
  disposal = none;
}

abbrev young : Resource
young = record {
  id = 2;
  last_used = 20;
  disk_size = (100, none);
  memory_size = (0, none);
  disposal = none;
}

abbrev held_one : Resource
held_one = record {
  id = 3;
  last_used = 30;
  disk_size = (100, none);
  memory_size = (0, none);
  disposal = some disposable_in_use;
}

abbrev track : List Call
track = registers old ∷ registers young ∷ registers old ∷ unregisters 1 ∷ unregisters 1 ∷ []

run-refines_example :
    let g = run (new true 5 5) track in
    let s = set_run (λ j. false) track in
    (member g.0.resources ≡ s.0) × (g.1 ≡ s.1) × Distinct g.0.resources
run-refines_example = run-refines true 5 5 track

insert : Resource → List Resource → List Resource
insert r [] = r ∷ []
insert r (x ∷ xs) =
    let rest = insert r xs in if leb r.last_used x.last_used then r ∷ x ∷ xs else x ∷ rest

sort : List Resource → List Resource
unfolding insert
sort [] = []
sort (r ∷ rs) = insert r (sort rs)

insert-Rising :
    (b : ℕ) (r : Resource) (xs : List Resource)
    → b ≤ r.last_used
    → Rising b xs
    → Rising b (insert r xs)
unfolding insert
insert-Rising b r [] l h = (l, tt)
insert-Rising b r (x ∷ xs) l h = elim (Bool-cases (leb r.last_used x.last_used)) [
  | inl e ↦ ground arith
  | inr e ↦ ground (arith, insert-Rising x.last_used r xs)
]

sort-Rising : (rs : List Resource) → Rising 0 (sort rs)
unfolding sort
sort-Rising [] = tt
sort-Rising (r ∷ rs) = insert-Rising 0 r (sort rs) (omega arith) (sort-Rising rs)

count-insert :
    (q : Resource → Bool) (r : Resource) (xs : List Resource)
    → count q (insert r xs) ≡ count q (r ∷ xs)
unfolding insert
count-insert q r [] = refl
count-insert q r (x ∷ xs) = elim (Bool-cases (leb r.last_used x.last_used)) [
  | inl e ↦ ground arith
  | inr e ↦ ground (arith, count-insert q r xs)
]

count-sort : (q : Resource → Bool) (rs : List Resource) → count q (sort rs) ≡ count q rs
unfolding sort
count-sort q [] = refl
count-sort q (r ∷ rs) = ground (arith, count-insert q r (sort rs), count-sort q rs)

-- The first disposal frees one unit of disk space; memory is always short.
abbrev free_after : List Resource → Option ℕ
free_after [] = some 3
free_after (r ∷ rs) = some 4

abbrev system : System
system = record { disk_free = free_after; memory_available = λ gone. some 1 }

abbrev collector : Collector
collector = record {
  resources = held_one ∷ young ∷ old ∷ [];
  has_folder = true;
  minimum_disk_space = 4;
  minimum_memory = 9;
}

collected_old : collect system sort collector ≡ completed (young ∷ held_one ∷ []) (old ∷ []) none
unfolding collect sort choose need_disk_space need_memory
collected_old = refl

collect_reclaims_example :
    (count (λ r. leb r.last_used 20) (young ∷ held_one ∷ [])
        + count (λ r. leb r.last_used 20) (old ∷ [])
      ≡ count (λ r. leb r.last_used 20) collector.resources)
    × Rising 0 (old ∷ [])
    × Reclaimed system collector [] (old ∷ [])
collect_reclaims_example =
    collect_reclaims system sort collector (young ∷ held_one ∷ []) (old ∷ [])
      (λ r. leb r.last_used 20) sort-Rising count-sort collected_old
