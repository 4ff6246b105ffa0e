-- ===== src/Fetching/Tests.antt =====
-- Examples of the theorems on runtime/fetcher.
use taskcluster_worker.Prelude.{
  refl, sym, arith, List, ℕ, suc, zero, ◌+◌, ◌-◌, ◌≤◌, ◌<◌, ◌≡◌, ◌≢◌, ◌⊎◌, false, [], ◌∷◌, none,
  some, length,
}
use taskcluster_worker.Prelude.Int.{ℤ, pos, negsuc}
use taskcluster_worker.Fetching.Download.{
  Attempt, request_fails, complete, write_error, memory, max_retries,
}
use taskcluster_worker.Fetching.Streaming.{Handled, fetch_as_stream, stream_handled}
use taskcluster_worker.Fetching.Keys.{ArtifactReference, Lacks, colon, slash, keys_distinct}
use taskcluster_worker.Fetching.Hashed.{HashReference, fetch_hashed, hashed-checked}

abbrev second_time : ℕ → Attempt
second_time zero = request_fails
second_time (suc k) = complete (1 ∷ 2 ∷ [])

abbrev by_length : HashReference
by_length = record { md5_sum = some 2; sha1_sum = none; sha256_sum = none; sha512_sum = none }

hashed-checked_example :
    let (t, err, made) =
      fetch_hashed memory (λ a bytes. length bytes) by_length second_time (λ k. false) [] in
    (made ≤ max_retries + 1)
    × (((err ≡ none)
          × (second_time (made - 1) ≡ complete t)
          × ((by_length.md5_sum ≡ none) ⊎ (by_length.md5_sum ≡ some (length t)))
          × ((by_length.sha1_sum ≡ none) ⊎ (by_length.sha1_sum ≡ some (length t)))
          × ((by_length.sha256_sum ≡ none) ⊎ (by_length.sha256_sum ≡ some (length t)))
          × ((by_length.sha512_sum ≡ none) ⊎ (by_length.sha512_sum ≡ some (length t))))
        ⊎ (err ≡ some write_error)
        ⊎ ((err ≢ none) × (t ≡ [])))
hashed-checked_example = hashed-checked (λ a bytes. length bytes) by_length second_time (λ k. false)

stream_handled_example :
    let (s, error, made) = fetch_as_stream (λ k bytes end. none) second_time (λ k. false) in
    (0 < made) × (made ≤ max_retries + 1) × Handled (λ k bytes end. none) second_time s error made
stream_handled_example = stream_handled (λ k bytes end. none) second_time (λ k. false)

-- A way to print integers, by as many ones, behind a minus for those below zero.
abbrev ones : ℕ → List ℕ
ones zero = []
ones (suc n) = 49 ∷ ones n

ones-Lacks : (n : ℕ) → Lacks colon (ones n) × Lacks slash (ones n)
ones-Lacks zero = (tt, tt)
ones-Lacks (suc n) =
    ((λ e. omega (arith, e), (ones-Lacks n).0), (λ e. omega (arith, e), (ones-Lacks n).1))

ones-injective : (n m : ℕ) → ones n ≡ ones m → n ≡ m
ones-injective zero zero e = refl
ones-injective zero (suc m) e = absurd (ground (arith, e))
ones-injective (suc n) zero e = absurd (ground (arith, e))
ones-injective (suc n) (suc m) e = ground (arith, e, λ (h : ones n ≡ ones m). ones-injective n m h)

abbrev signed : ℤ → List ℕ
signed (pos n) = ones n
signed (negsuc n) = 45 ∷ ones n

signed-Lacks : (z : ℤ) → Lacks colon (signed z) × Lacks slash (signed z)
signed-Lacks (pos n) = ones-Lacks n
signed-Lacks (negsuc n) =
    ((λ e. omega (arith, e), (ones-Lacks n).0), (λ e. omega (arith, e), (ones-Lacks n).1))

ones-ne-minus : (n : ℕ) (xs : List ℕ) → ones n ≢ 45 ∷ xs
ones-ne-minus zero xs e = ground (arith, e)
ones-ne-minus (suc n) xs e = ground (arith, e)

signed-injective : (x y : ℤ) → signed x ≡ signed y → x ≡ y
signed-injective (pos n) (pos m) e = ground (arith, ones-injective n m e)
signed-injective (pos n) (negsuc m) e = absurd (ones-ne-minus n (ones m) e)
signed-injective (negsuc n) (pos m) e = absurd (ones-ne-minus m (ones n) (sym e))
signed-injective (negsuc n) (negsuc m) e =
    ground (arith, e, λ (h : ones n ≡ ones m). ones-injective n m h)

abbrev log_artifact : ArtifactReference
log_artifact = record { task_id = 65 ∷ 66 ∷ []; run_id = pos 2; artifact = 47 ∷ 108 ∷ [] }

task_id-Lacks : Lacks slash log_artifact.task_id
task_id-Lacks = (λ e. omega (arith, e), (λ e. omega (arith, e), tt))

keys_distinct_example : (◌≡◌ {A = ℕ} 1 1) × (log_artifact ≡ log_artifact)
keys_distinct_example =
    keys_distinct signed 1 1 log_artifact log_artifact signed-Lacks signed-injective task_id-Lacks
      task_id-Lacks refl
