-- ===== src/Gc/Passing.antt =====
-- The course of a collection: which resources it visits, keeps and disposes of.
use mathlib.Core.List.{append-nil, append_assoc}
use taskcluster_worker.Prelude.{
  ℕ, suc, ◌+◌, ◌≤◌, ◌≡◌, ◌⊎◌, inl, inr, refl, ◌∙◌, Bool, true, false, List, [], ◌∷◌, ◌++◌, Option,
  none, some, arith, All, count,
}
use taskcluster_worker.Errors.{Err, disposable_in_use}
use taskcluster_worker.Gc.Collector.{
  Resource, Collector, System, need_disk_space, need_memory, Choice, keeps, disposes, stops, choose,
  completed, collect_from,
}

-- The course of a collection over the resources that are left to visit, once some are gone: those
-- that it keeps, and those that it disposes of.
pub data Pass (s : System) (g : Collector) : (gone rest left taken : List Resource) → Type 0 where
  end : {gone : List Resource} → Pass s g gone [] [] []
  keep :
      {gone rest left taken : List Resource} (r : Resource)
      → choose s g gone r ≡ keeps
      → Pass s g gone rest left taken
      → Pass s g gone (r ∷ rest) (r ∷ left) taken
  busy :
      {gone rest left taken : List Resource} (r : Resource)
      → choose s g gone r ≡ disposes
      → r.disposal ≡ some disposable_in_use
      → Pass s g gone rest left taken
      → Pass s g gone (r ∷ rest) (r ∷ left) taken
  take :
      {gone rest left taken : List Resource} (r : Resource)
      → choose s g gone r ≡ disposes
      → r.disposal ≡ none
      → Pass s g (gone ++ r ∷ []) rest left taken
      → Pass s g gone (r ∷ rest) left (r ∷ taken)

choose_needed :
    (s : System) (g : Collector) (gone : List Resource) (r : Resource)
    → choose s g gone r ≡ disposes
    → (need_disk_space s g gone ≡ true) ⊎ (need_memory s g gone ≡ true)
unfolding choose
choose_needed s g gone r e = ground arith

choose_enough :
    (s : System) (g : Collector) (gone : List Resource) (r : Resource)
    → need_disk_space s g gone ≡ false
    → need_memory s g gone ≡ false
    → choose s g gone r ≡ keeps
unfolding choose
choose_enough s g gone r d m = ground arith

pub choose_disk :
    (s : System) (g : Collector) (gone : List Resource) (r : Resource)
    → need_disk_space s g gone ≡ true
    → choose s g gone r ≡ keeps
    → r.disk_size ≡ (0, none)
unfolding choose
choose_disk s g gone r d e = ground arith

pub choose_memory :
    (s : System) (g : Collector) (gone : List Resource) (r : Resource)
    → need_memory s g gone ≡ true
    → choose s g gone r ≡ keeps
    → r.memory_size ≡ (0, none)
unfolding choose
choose_memory s g gone r d e = ground arith

abbrev pub Passes :
    System
    → Collector
    → List Resource
    → List Resource
    → List Resource
    → List Resource
    → List Resource
    → Type 0
Passes s g kept gone rest left' gone' =
    (left : List Resource) × (taken : List Resource) × Pass s g gone rest left taken
    × (left' ≡ kept ++ left)
    × (gone' ≡ gone ++ taken)

pub collect-Passes :
    (s : System) (g : Collector) (all kept : List Resource) (i : ℕ) (gone rest : List Resource)
    (left' gone' : List Resource)
    → collect_from s g all kept i gone rest ≡ completed left' gone' none
    → Passes s g kept gone rest left' gone'
unfolding collect_from
collect-Passes s g all kept i gone [] left' gone' e =
    ([], [], end, ground (arith, append-nil kept), ground (arith, append-nil gone))
collect-Passes s g all kept i gone (r ∷ rest) left' gone' e =
    visit (choose s g gone r) refl r.disposal refl
      (collect-Passes s g all (kept ++ r ∷ []) (suc i) gone rest left' gone')
      (collect-Passes s g all kept (suc i) (gone ++ r ∷ []) rest left' gone')
  where
    visit :
        (c : Choice)
        → choose s g gone r ≡ c
        → (d : Option Err) → r.disposal ≡ d
        → (collect_from s g all (kept ++ r ∷ []) (suc i) gone rest ≡ completed left' gone' none
            → Passes s g (kept ++ r ∷ []) gone rest left' gone')
        → (collect_from s g all kept (suc i) (gone ++ r ∷ []) rest ≡ completed left' gone' none
            → Passes s g kept (gone ++ r ∷ []) rest left' gone')
        → Passes s g kept gone (r ∷ rest) left' gone'
    visit keeps ec d ed rec_keep rec_take =
        let (left, taken, p, q, t) = rec_keep (ground arith) in
        (r ∷ left, taken, keep r ec p, q ∙ append_assoc kept (r ∷ []) left, t)
    visit disposes ec none ed rec_keep rec_take =
        let (left, taken, p, q, t) = rec_take (ground arith) in
        (left, r ∷ taken, take r ec ed p, q, t ∙ append_assoc gone (r ∷ []) taken)
    visit disposes ec (some disposable_in_use) ed rec_keep rec_take =
        let (left, taken, p, q, t) = rec_keep (ground arith) in
        (r ∷ left, taken, busy r ec ed p, q ∙ append_assoc kept (r ∷ []) left, t)
    visit disposes ec (some e') ed rec_keep rec_take = absurd (ground arith)
    visit (stops e') ec d ed rec_keep rec_take = absurd (ground arith)

-- Least recently used first.
abbrev pub Rising : ℕ → List Resource → Type 0
Rising b [] = Unit {0}
Rising b (r ∷ rs) = (b ≤ r.last_used) × Rising r.last_used rs

Rising-mono : (b c : ℕ) (rs : List Resource) → c ≤ b → Rising b rs → Rising c rs
Rising-mono b c [] l h = tt
Rising-mono b c (r ∷ rs) l h = (omega arith, h.1)

-- Why each resource was disposed of: space was needed, once those before it were gone, and it went.
abbrev pub Reclaimed : System → Collector → List Resource → List Resource → Type 0
Reclaimed s g before [] = Unit {0}
Reclaimed s g before (r ∷ rs) =
    ((need_disk_space s g before ≡ true) ⊎ (need_memory s g before ≡ true))
    × (r.disposal ≡ none)
    × Reclaimed s g (before ++ r ∷ []) rs

module _ (s : System) (g : Collector) where
  pub Pass-count :
      (p : Resource → Bool) {gone rest left taken : List Resource}
      → Pass s g gone rest left taken
      → count p left + count p taken ≡ count p rest
  Pass-count p end = omega arith
  Pass-count p (keep r c h) = omega (arith, Pass-count p h)
  Pass-count p (busy r c d h) = omega (arith, Pass-count p h)
  Pass-count p (take r c d h) = omega (arith, Pass-count p h)

  pub Pass-Rising :
      {gone rest left taken : List Resource} (b : ℕ)
      → Pass s g gone rest left taken
      → Rising b rest
      → Rising b taken
  Pass-Rising b end o = tt
  Pass-Rising b (keep {taken = x} r c h) o =
      Rising-mono r.last_used b x o.0 (Pass-Rising r.last_used h o.1)
  Pass-Rising b (busy {taken = x} r c d h) o =
      Rising-mono r.last_used b x o.0 (Pass-Rising r.last_used h o.1)
  Pass-Rising b (take r c d h) o = (o.0, Pass-Rising r.last_used h o.1)

  pub Pass-Reclaimed :
      {gone rest left taken : List Resource}
      → Pass s g gone rest left taken
      → Reclaimed s g gone taken
  Pass-Reclaimed end = tt
  Pass-Reclaimed (keep r c h) = Pass-Reclaimed h
  Pass-Reclaimed (busy r c d h) = Pass-Reclaimed h
  Pass-Reclaimed (take {gone = x} r c d h) = (choose_needed s g x r c, d, Pass-Reclaimed h)

  -- A need that is there in the end was there all along, so what was kept had nothing to give.
  pub Pass-spared :
      (need : List Resource → Bool) (size : Resource → ℕ × Option Err)
      → ((before after : List Resource) → need (before ++ after) ≡ true → need before ≡ true)
      → ((gone : List Resource) (r : Resource)
          → need gone ≡ true
          → choose s g gone r ≡ keeps
          → size r ≡ (0, none))
      → {gone rest left taken : List Resource} → Pass s g gone rest left taken
      → need (gone ++ taken) ≡ true
      → All (λ r. (r.disposal ≡ some disposable_in_use) ⊎ (size r ≡ (0, none))) left
  Pass-spared need size mono why end n = tt
  Pass-spared need size mono why (keep {gone = x} {taken = y} r c h) n =
      (inr (why x r (mono x y n) c), Pass-spared need size mono why h n)
  Pass-spared need size mono why (busy r c d h) n = (inl d, Pass-spared need size mono why h n)
  Pass-spared need size mono why (take {gone = x} {taken = y} r c d h) n =
      Pass-spared need size mono why h (rw append_assoc n)
