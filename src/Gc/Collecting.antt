-- ===== src/Gc/Collecting.antt =====
-- What a collection disposes of, and what it leaves.
use taskcluster_worker.Prelude.{
  inl, inr, refl, false, ◌+◌, ◌≡◌, ◌⊎◌, ◌∙◌, Bool, true, List, [], ◌++◌, none, some, All, count,
}
use taskcluster_worker.Errors.{disposable_in_use}
use taskcluster_worker.Gc.Collector.{
  Resource, Collector, System, need_disk_space, need_memory, completed, collect,
}
use taskcluster_worker.Gc.Passing.{
  collect-Passes, choose_disk, choose_memory, Rising, Reclaimed, Pass-count, Pass-Rising,
  Pass-Reclaimed, Pass-spared,
}

-- Each collection that returns nil keeps or disposes of every resource, disposes of the least
-- recently used first, and of each one only while disk space or memory is needed, those before it
-- being gone. `sort.Sort` is assumed to sort, and to keep each resource as often as it was there.
pub collect_reclaims :
    (s : System) (sort : List Resource → List Resource) (g : Collector) (left gone : List Resource)
    (p : Resource → Bool)
    → ((rs : List Resource) → Rising 0 (sort rs))
    → ((q : Resource → Bool) (rs : List Resource) → count q (sort rs) ≡ count q rs)
    → collect s sort g ≡ completed left gone none
    → (count p left + count p gone ≡ count p g.resources) × Rising 0 gone × Reclaimed s g [] gone
unfolding collect
collect_reclaims s sort g left gone p sorted same e =
    let (l, t, h, q, u) =
      collect-Passes s g (sort g.resources) [] 0 [] (sort g.resources) left gone e in
    (
      rw (q, u) (Pass-count s g p h ∙ same p g.resources),
      rw u (Pass-Rising s g 0 h (sorted g.resources)),
      rw u (Pass-Reclaimed s g h),
    )

collect_disk :
    (s : System) (sort : List Resource → List Resource) (g : Collector) (left gone : List Resource)
    → ((before after : List Resource)
        → need_disk_space s g (before ++ after) ≡ true
        → need_disk_space s g before ≡ true)
    → collect s sort g ≡ completed left gone none
    → need_disk_space s g gone ≡ true
    → All (λ r. (r.disposal ≡ some disposable_in_use) ⊎ (r.disk_size ≡ (0, none))) left
unfolding collect
collect_disk s sort g left gone mono e n =
    let (l, t, h, q, u) =
      collect-Passes s g (sort g.resources) [] 0 [] (sort g.resources) left gone e in
    rw q (
      Pass-spared s g (need_disk_space s g) (λ r. r.disk_size) mono (choose_disk s g) h
        (rw (← u) n))

collect_memory :
    (s : System) (sort : List Resource → List Resource) (g : Collector) (left gone : List Resource)
    → ((before after : List Resource)
        → need_memory s g (before ++ after) ≡ true
        → need_memory s g before ≡ true)
    → collect s sort g ≡ completed left gone none
    → need_memory s g gone ≡ true
    → All (λ r. (r.disposal ≡ some disposable_in_use) ⊎ (r.memory_size ≡ (0, none))) left
unfolding collect
collect_memory s sort g left gone mono e n =
    let (l, t, h, q, u) =
      collect-Passes s g (sort g.resources) [] 0 [] (sort g.resources) left gone e in
    rw q (
      Pass-spared s g (need_memory s g) (λ r. r.memory_size) mono (choose_memory s g) h
        (rw (← u) n))

settled : (b : Bool) {P : Type 0} → (b ≡ true → P) → (b ≡ false) ⊎ P
settled true f = inr (f refl)
settled false f = inl refl

-- A collection that returns nil does what it can for disk space and for memory: in the end either
-- no more is needed, or each resource that is left is in use or takes none. It is assumed that a
-- disposal never makes disk space or memory needed that was not needed before.
collect_best_effort :
    (s : System) (sort : List Resource → List Resource) (g : Collector) (left gone : List Resource)
    → ((before after : List Resource)
        → need_disk_space s g (before ++ after) ≡ true
        → need_disk_space s g before ≡ true)
    → ((before after : List Resource)
        → need_memory s g (before ++ after) ≡ true
        → need_memory s g before ≡ true)
    → collect s sort g ≡ completed left gone none
    → ((need_disk_space s g gone ≡ false)
        ⊎ All (λ r. (r.disposal ≡ some disposable_in_use) ⊎ (r.disk_size ≡ (0, none))) left)
      × ((need_memory s g gone ≡ false)
          ⊎ All (λ r. (r.disposal ≡ some disposable_in_use) ⊎ (r.memory_size ≡ (0, none))) left)
collect_best_effort s sort g left gone disk memory e = (
  settled (need_disk_space s g gone) (collect_disk s sort g left gone disk e),
  settled (need_memory s g gone) (collect_memory s sort g left gone memory e),
)
