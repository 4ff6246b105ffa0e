-- ===== src/Fetching/Keys.antt =====
-- The keys by which references are cached: HashKey of runtime/fetcher/artifactfetcher.go and of
-- runtime/fetcher/combine.go. A string is a list of characters, and `decimal` is how fmt prints an
-- integer with %d.
use taskcluster_worker.Prelude.{ℕ, ◌≡◌, ◌≢◌, List, [], ◌∷◌, ◌++◌, arith, All}
use taskcluster_worker.Prelude.Int.{ℤ, pos}

abbrev pub colon : ℕ
colon = 58

abbrev pub slash : ℕ
slash = 47

pub record ArtifactReference : Type 0 where
  pub task_id : List ℕ
  pub run_id : ℤ
  pub artifact : List ℕ

unfoldable pub artifact_key : (ℤ → List ℕ) → ArtifactReference → List ℕ
artifact_key decimal r = r.task_id ++ (slash ∷ (decimal r.run_id ++ (slash ∷ r.artifact)))

-- A reference of the fetcher with this index.
unfoldable pub wrapped_key : (ℤ → List ℕ) → ℕ → List ℕ → List ℕ
wrapped_key decimal index key = decimal (pos index) ++ (colon ∷ key)

abbrev pub Lacks : ℕ → List ℕ → Type 0
Lacks c xs = All (λ x. x ≢ c) xs

-- Up to the first separator, two strings are the same.
first_part :
    (c : ℕ) (xs ys us vs : List ℕ)
    → Lacks c xs
    → Lacks c ys
    → xs ++ (c ∷ us) ≡ ys ++ (c ∷ vs)
    → (xs ≡ ys) × (us ≡ vs)
first_part c [] [] us vs hx hy e = ground (arith, e)
first_part c [] (y ∷ ys) us vs hx hy e = absurd (ground (arith, e, hy.0))
first_part c (x ∷ xs) [] us vs hx hy e = absurd (ground (arith, e, hx.0))
first_part c (x ∷ xs) (y ∷ ys) us vs hx hy e =
    ground (arith, e, λ (h : xs ++ (c ∷ us) ≡ ys ++ (c ∷ vs)). first_part c xs ys us vs hx.1 hy.1 h)

-- References to artifacts, of any fetchers of a set, have the same key only if they are references of
-- the same fetcher to the same artifact of the same run. What is printed for an integer is assumed to
-- have neither a colon nor a slash and to be different for different integers, and the identifiers of
-- tasks, to have no slash.
pub keys_distinct :
    (decimal : ℤ → List ℕ) (i j : ℕ) (r q : ArtifactReference)
    → ((n : ℤ) → Lacks colon (decimal n) × Lacks slash (decimal n))
    → ((n m : ℤ) → decimal n ≡ decimal m → n ≡ m)
    → Lacks slash r.task_id
    → Lacks slash q.task_id
    → wrapped_key decimal i (artifact_key decimal r)
      ≡ wrapped_key decimal j (artifact_key decimal q)
    → (i ≡ j) × (r ≡ q)
unfolding wrapped_key artifact_key
keys_distinct decimal i j r q digits injective hr hq e =
    let a =
      first_part colon (decimal (pos i)) (decimal (pos j)) _ _ (digits (pos i)).0 (digits (pos j)).0
        e in
    let b = first_part slash r.task_id q.task_id _ _ hr hq a.1 in
    let c =
      first_part slash (decimal r.run_id) (decimal q.run_id) r.artifact q.artifact
        (digits r.run_id).1 (digits q.run_id).1 b.1 in
    (
      ground (arith, injective (pos i) (pos j) a.0),
      ground (arith, b.0, injective r.run_id q.run_id c.0, c.1),
    )
