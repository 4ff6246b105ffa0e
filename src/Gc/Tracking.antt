-- ===== src/Gc/Tracking.antt =====
-- The resources that a collector tracks are a set: Register and Unregister add and remove members.
use mathlib.Core.Path.{fun_ext, ap₂}
use taskcluster_worker.Prelude.{
  ℕ, ◌≡◌, refl, ap, ◌∙◌, Bool, true, false, not, ◌&&◌, ◌||◌, List, [], ◌∷◌, ◌++◌, Option, none,
  some, arith, ◌==◌, if◌then◌else◌,
}
use taskcluster_worker.Gc.Collector.{
  Resource, Collector, new, index_of, remove_at, register, unregister,
}

abbrev pub member : List Resource → ℕ → Bool
member [] id = false
member (r ∷ rs) id = r.id == id || member rs id

-- No two tracked resources have one identity.
abbrev pub Distinct : List Resource → Type 0
Distinct [] = Unit {0}
Distinct (r ∷ rs) = (member rs r.id ≡ false) × Distinct rs

abbrev found : Option ℕ → Bool
found none = false
found (some i) = true

index_of-member : (rs : List Resource) (id : ℕ) → found (index_of rs id) ≡ member rs id
unfolding index_of
index_of-member [] id = refl
index_of-member (r ∷ rs) id = ground (arith, index_of-member rs id)

member-append :
    (rs : List Resource) (r : Resource) (id : ℕ)
    → member (rs ++ r ∷ []) id ≡ (member rs id || r.id == id)
member-append [] r id = ground arith
member-append (x ∷ rs) r id = ground (arith, member-append rs r id)

Distinct-append :
    (rs : List Resource) (r : Resource)
    → Distinct rs
    → member rs r.id ≡ false
    → Distinct (rs ++ r ∷ [])
Distinct-append [] r d h = (refl, tt)
Distinct-append (x ∷ rs) r d h =
    (ground (arith, member-append rs r x.id), Distinct-append rs r d.1 (ground arith))

-- Removing the first of an identity.
remove_first : List Resource → ℕ → List Resource
unfolding index_of
remove_first rs id = elim (index_of rs id) [ none ↦ rs | some i ↦ remove_at i rs ]

remove_first-cons :
    (r : Resource) (rs : List Resource) (id : ℕ)
    → remove_first (r ∷ rs) id ≡ (if r.id == id then rs else r ∷ remove_first rs id)
unfolding remove_first
remove_first-cons r rs id = ground arith

member-remove :
    (rs : List Resource) (id j : ℕ)
    → Distinct rs
    → member (remove_first rs id) j ≡ (member rs j && not (id == j))
member-remove [] id j d = unfold remove_first in refl
member-remove (r ∷ rs) id j d = rw remove_first-cons (ground (arith, member-remove rs id j d.1))

Distinct-remove : (rs : List Resource) (id : ℕ) → Distinct rs → Distinct (remove_first rs id)
Distinct-remove [] id d = unfold remove_first in tt
Distinct-remove (r ∷ rs) id d =
    rw remove_first-cons (ground (arith, member-remove rs id r.id d.1, Distinct-remove rs id d.1))

pub data Call : Type 0 where
  registers : Resource → Call
  unregisters : ℕ → Call

-- The collector after a call, and what `Unregister` returns.
unfoldable pub step : Collector → Call → Collector × Bool
unfolding register unregister
step g (registers r) = (register r g, false)
step g (unregisters id) = unregister id g

unfoldable pub run : Collector → List Call → Collector × List Bool
run g [] = (g, [])
run g (c ∷ cs) = let (g', b) = step g c in let (h, bs) = run g' cs in (h, b ∷ bs)

-- The same calls on a set of identities.
abbrev pub set_step : (ℕ → Bool) → Call → (ℕ → Bool) × Bool
set_step s (registers r) = ((λ j. s j || r.id == j), false)
set_step s (unregisters id) = ((λ j. s j && not (id == j)), s id)

abbrev pub set_run : (ℕ → Bool) → List Call → (ℕ → Bool) × List Bool
set_run s [] = (s, [])
set_run s (c ∷ cs) = let (s', b) = set_step s c in let (u, bs) = set_run s' cs in (u, b ∷ bs)

unregister-resources :
    (g : Collector) (id : ℕ) → (unregister id g).0.resources ≡ remove_first g.resources id
unfolding unregister remove_first
unregister-resources g id = ground arith

unregister-member : (g : Collector) (id : ℕ) → (unregister id g).1 ≡ member g.resources id
unfolding unregister
unregister-member g id = ground (arith, index_of-member g.resources id)

register-member :
    (g : Collector) (r : Resource) (j : ℕ)
    → member (register r g).resources j ≡ (member g.resources j || r.id == j)
unfolding register
register-member g r j = ground (
  arith,
  index_of-member g.resources r.id,
  member-append g.resources r j,
  member_same g.resources r.id j,
)
  where
    member_same :
        (rs : List Resource) (i j : ℕ) → member rs i ≡ true → (i == j) ≡ true → member rs j ≡ true
    member_same rs i j h e = let q : i ≡ j = ground arith in rw (← q) h

step-Distinct : (g : Collector) (c : Call) → Distinct g.resources → Distinct (step g c).0.resources
unfolding step register
step-Distinct g (registers r) d =
    ground (arith, index_of-member g.resources r.id, Distinct-append g.resources r d)
step-Distinct g (unregisters id) d = rw unregister-resources (Distinct-remove g.resources id d)

run-Distinct :
    (g : Collector) (cs : List Call) → Distinct g.resources → Distinct (run g cs).0.resources
unfolding run
run-Distinct g [] d = d
run-Distinct g (c ∷ cs) d = run-Distinct (step g c).0 cs (step-Distinct g c d)

step-member :
    (g : Collector) (c : Call)
    → Distinct g.resources
    → (member (step g c).0.resources ≡ (set_step (member g.resources) c).0)
      × ((step g c).1 ≡ (set_step (member g.resources) c).1)
unfolding step
step-member g (registers r) d = (fun_ext (register-member g r), refl)
step-member g (unregisters id) d = (
  fun_ext λ j. rw unregister-resources (member-remove g.resources id j d),
  unregister-member g id,
)

run_from_set :
    (g : Collector) (cs : List Call) (s : ℕ → Bool)
    → Distinct g.resources
    → member g.resources ≡ s
    → (member (run g cs).0.resources ≡ (set_run s cs).0) × ((run g cs).1 ≡ (set_run s cs).1)
unfolding run
run_from_set g [] s d e = (e, refl)
run_from_set g (c ∷ cs) s d e =
    let (m, b) = step-member g c d in
    let (n, bs) =
      run_from_set (step g c).0 cs (set_step s c).0 (step-Distinct g c d)
        (m ∙ ap (λ u. (set_step u c).0) e) in
    (n, ap₂ ◌∷◌ (b ∙ ap (λ u. (set_step u c).1) e) bs)

-- Register and Unregister, called in any order on a new collector, track a set of resources:
-- Register adds its resource, Unregister removes it and tells whether it was there, and no resource
-- is tracked twice.
pub run-refines :
    (folder : Bool) (disk memory : ℕ) (cs : List Call)
    → let g = run (new folder disk memory) cs in
      let s = set_run (λ j. false) cs in
      (member g.0.resources ≡ s.0) × (g.1 ≡ s.1) × Distinct g.0.resources
unfolding new
run-refines folder disk memory cs =
    let (m, b) = run_from_set (new folder disk memory) cs (λ j. false) tt refl in
    (m, b, run-Distinct (new folder disk memory) cs tt)
