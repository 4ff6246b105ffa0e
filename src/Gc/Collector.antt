-- ===== src/Gc/Collector.antt =====
-- runtime/gc/gc.go. A resource is its identity with what it answers; within one collection each
-- question is asked of it at most once. What the system answers (gopsutil) depends on what has been
-- disposed of so far, and is a parameter, as is `sort.Sort`.
use taskcluster_worker.Prelude.{
  ℕ, zero, suc, ◌^◌, Bool, true, false, not, ◌||◌, List, [], ◌∷◌, ◌++◌, Option, none, some, ltb,
  ◌==◌, if◌then◌else◌, drop,
}
use taskcluster_worker.Errors.{Err, disposable_in_use, size_not_supported}

pub record Resource : Type 0 where
  pub id : ℕ
  pub last_used : ℕ
  pub disk_size : ℕ × Option Err
  pub memory_size : ℕ × Option Err
  pub disposal : Option Err

pub record Collector : Type 0 where
  pub resources : List Resource
  pub has_folder : Bool
  pub minimum_disk_space : ℕ
  pub minimum_memory : ℕ

-- `New`.
unfoldable pub new : Bool → ℕ → ℕ → Collector
new folder disk memory = record {
  resources = [];
  has_folder = folder;
  minimum_disk_space = disk;
  minimum_memory = memory;
}

-- `indexOfResource`; -1 is `none`.
unfoldable pub index_of : List Resource → ℕ → Option ℕ
index_of [] id = none
index_of (r ∷ rs) id =
    if r.id == id then some 0 else elim (index_of rs id) [ none ↦ none | some i ↦ some (suc i) ]

unfoldable pub register : Resource → Collector → Collector
unfolding index_of
register r g = elim (index_of g.resources r.id) [
  | none ↦ record g { resources = g.resources ++ r ∷ [] }
  | some i ↦ g
]

-- `append(rs[:i], rs[i+1:]...)`.
abbrev pub remove_at : ℕ → List Resource → List Resource
remove_at i [] = []
remove_at zero (r ∷ rs) = rs
remove_at (suc i) (r ∷ rs) = r ∷ remove_at i rs

unfoldable pub unregister : ℕ → Collector → Collector × Bool
unfolding index_of
unregister id g = elim (index_of g.resources id) [
  | none ↦ (g, false)
  | some i ↦ (record g { resources = remove_at i g.resources }, true)
]

-- What `disk.Usage` and `mem.VirtualMemory` report, a `uint64` or an error, once some resources
-- have been disposed of.
pub record System : Type 0 where
  pub disk_free : List Resource → Option ℕ
  pub memory_available : List Resource → Option ℕ

-- `int64(free) < minimum`, for a minimum that is not negative: the conversion of a value of 2^63 or
-- more is negative.
abbrev pub below : ℕ → ℕ → Bool
below free minimum = not (ltb free (2 ^ 63)) || ltb free minimum

unfoldable pub need_disk_space : System → Collector → List Resource → Bool
need_disk_space s g gone =
    if g.minimum_disk_space == 0 || not g.has_folder
    then true
    else elim (s.disk_free gone) [ none ↦ true | some free ↦ below free g.minimum_disk_space ]

unfoldable pub need_memory : System → Collector → List Resource → Bool
need_memory s g gone =
    if g.minimum_memory == 0
    then true
    else elim (s.memory_available gone) [ none ↦ true | some free ↦ below free g.minimum_memory ]

pub data Choice : Type 0 where
  keeps disposes : Choice
  stops : Err → Choice

-- One size question.
abbrev pub ask : ℕ × Option Err → Choice
ask (size, none) = if ltb 0 size then disposes else keeps
ask (size, some size_not_supported) = disposes
ask (size, some e) = stops e

-- What the loop body decides for one resource, by disk space first and by memory then.
unfoldable pub choose : System → Collector → List Resource → Resource → Choice
unfolding need_disk_space need_memory
choose s g gone r =
    let by_memory : Choice = if need_memory s g gone then ask r.memory_size else keeps in
    if need_disk_space s g gone
    then elim (ask r.disk_size) [ keeps ↦ by_memory | disposes ↦ disposes | stops e ↦ stops e ]
    else by_memory

-- How a collection ends: with what is left and with what was disposed of, in this order; or with a
-- panic, when the slice `gc.resources[i-1:]` begins at -1: then `gc.resources` is as it was sorted.
pub data Collected : Type 0 where
  completed : (left gone : List Resource) → Option Err → Collected
  panicked : List Resource → Collected

-- `gc.resources = append(resources, gc.resources[i-1:]...)`, and the return of an error.
abbrev pub give_up : List Resource → List Resource → ℕ → List Resource → Err → Collected
give_up all kept zero gone e = panicked all
give_up all kept (suc i) gone e = completed (kept ++ drop i all) gone (some e)

-- The loop of `Collect` at index `i`: `kept` is the new slice, `gone` what has been disposed of.
unfoldable pub collect_from :
    System
    → Collector
    → (all kept : List Resource) → (i : ℕ) → (gone rest : List Resource) → Collected
unfolding choose
collect_from s g all kept i gone [] = completed kept gone none
collect_from s g all kept i gone (r ∷ rest) = elim (choose s g gone r) [
  | stops e ↦ give_up all kept i gone e
  | keeps ↦ collect_from s g all (kept ++ r ∷ []) (suc i) gone rest
  | disposes ↦ elim r.disposal [
    | none ↦ collect_from s g all kept (suc i) (gone ++ r ∷ []) rest
    | some disposable_in_use ↦ collect_from s g all (kept ++ r ∷ []) (suc i) gone rest
    | some e ↦ give_up all kept i gone e
  ]
]

-- `Collect`: sorted, least recently used first.
unfoldable pub collect : System → (List Resource → List Resource) → Collector → Collected
unfolding collect_from
collect s sort g = collect_from s g (sort g.resources) [] 0 [] (sort g.resources)

-- `CollectAll`.
unfoldable pub collect_all_from :
    (all kept : List Resource) → (i : ℕ) → (gone rest : List Resource) → Collected
collect_all_from all kept i gone [] = completed kept gone none
collect_all_from all kept i gone (r ∷ rest) = elim r.disposal [
  | none ↦ collect_all_from all kept (suc i) (gone ++ r ∷ []) rest
  | some disposable_in_use ↦ collect_all_from all (kept ++ r ∷ []) (suc i) gone rest
  | some e ↦ give_up all kept i gone e
]

unfoldable pub collect_all : Collector → Collected
unfolding collect_all_from
collect_all g = collect_all_from g.resources [] 0 [] g.resources

-- The collector after a collection.
abbrev pub after : Collector → Collected → Collector
after g (completed left gone e) = record g { resources = left }
after g (panicked all) = record g { resources = all }
