-- ===== src/Fetching/Download.antt =====
-- runtime/fetcher/urlfetcher.go. What a server answers to the attempts to download is an argument;
-- bytes are numbers. How many bytes a target takes before it fails is part of the answer.
use taskcluster_worker.Prelude.{
  ℕ, zero, suc, ◌+◌, ◌-◌, ◌≤◌, ◌<◌, ◌≡◌, ◌≢◌, ◌⊎◌, inl, inr, refl, Bool, true, false, not, ◌&&◌,
  List, [], ◌++◌, Option, none, some, arith, if◌then◌else◌, ltb, leb, Bool-cases, ◌==◌,
}

-- The status of a response that is not 200; and the bytes that were copied to the target from one
-- that is, up to its end or to an error of the connection or of the target.
pub data Attempt : Type 0 where
  invalid_url request_fails : Attempt
  status : ℕ → Attempt
  complete breaks write_fails : List ℕ → Attempt

pub data FetchError : Type 0 where
  broken_reference write_error canceled connection : FetchError

abbrev pub is_broken : FetchError → Bool
is_broken broken_reference = true
is_broken _ = false

-- The interface WriteReseter of runtime/fetcher/fetcher.go; and a target that keeps what was written
-- to it since its last Reset.
pub record WriteReseter (T : Type 0) : Type 0 where
  pub write : T → List ℕ → T
  pub reset : T → T

abbrev pub memory : WriteReseter (List ℕ)
memory = record { write = λ target bytes. target ++ bytes; reset = λ target. [] }

-- `fetchURL`: the target, the error of writing and the error of the reference.
unfoldable pub fetch_url :
    {T : Type 0} → WriteReseter T → Attempt → T → T × Option FetchError × Option FetchError
fetch_url w invalid_url target = (target, none, some broken_reference)
fetch_url w request_fails target = (target, none, some connection)
fetch_url w (status code) target =
    (target, none, some (if leb 400 code && ltb code 500 then broken_reference else connection))
fetch_url w (complete bytes) target = (w.write target bytes, none, none)
fetch_url w (breaks bytes) target = (w.write target bytes, none, some connection)
fetch_url w (write_fails bytes) target = (w.write target bytes, some write_error, none)

abbrev pub max_retries : ℕ
max_retries = 8

-- The loop of `fetchURLWithRetries`, with how many retries are left; `stops` says whether the
-- context is done in the wait before a retry. It returns the target, the error and how many attempts
-- were made.
unfoldable pub attempts :
    {T : Type 0}
    → WriteReseter T
    → ℕ
    → ℕ
    → (ℕ → Attempt)
    → (ℕ → Bool)
    → T
    → T × Option FetchError × ℕ
unfolding fetch_url
attempts w zero k server stops target =
    let (t, werr, rerr) = fetch_url w (server k) target in
    elim werr [
      | some e ↦ (t, some e, k + 1)
      | none ↦ elim rerr [
        | none ↦ (t, none, k + 1)
        | some e ↦ (w.reset t, some broken_reference, k + 1)
      ]
    ]
attempts w (suc left) k server stops target =
    let (t, werr, rerr) = fetch_url w (server k) target in
    let cleared = w.reset t in
    let rest = attempts w left (k + 1) server stops cleared in
    elim werr [
      | some e ↦ (t, some e, k + 1)
      | none ↦ elim rerr [
        | none ↦ (t, none, k + 1)
        | some e ↦
            if is_broken e
            then (cleared, some e, k + 1)
            else if stops k
            then (cleared, some canceled, k + 1)
            else rest
      ]
    ]

unfoldable pub fetch_with_retries :
    {T : Type 0} → WriteReseter T → (ℕ → Attempt) → (ℕ → Bool) → T → T × Option FetchError × ℕ
unfolding attempts
fetch_with_retries w server stops target = attempts w max_retries 0 server stops target

abbrev pub is_retried : Attempt → Bool
is_retried request_fails = true
is_retried (status code) = not (leb 400 code && ltb code 500)
is_retried (breaks bytes) = true
is_retried _ = false

-- Of the attempts from `k` on, with result `r`: all but the last are retried, and the target is what
-- the last has left.
record Made (server : ℕ → Attempt) (k left j : ℕ) (r : List ℕ × Option FetchError × ℕ)
    : Type 0 where
  some_made : k < r.2
  bounded : r.2 ≤ k + left + 1
  retried : (j < k) ⊎ (r.2 ≤ j + 1) ⊎ (is_retried (server j) ≡ true)
  left_over :
      ((r.1 ≡ none) × (server (r.2 - 1) ≡ complete r.0))
      ⊎ (r.1 ≡ some write_error)
      ⊎ ((r.1 ≢ none) × (r.0 ≡ []))

same_or_not : (i n : ℕ) → (i ≡ n) ⊎ (i ≢ n)
same_or_not i n = elim (Bool-cases (i == n)) [
  | inl h ↦ inl (ground arith)
  | inr h ↦ inr (λ q. ground arith)
]

attempts-Made :
    (left k j : ℕ) (server : ℕ → Attempt) (stops : ℕ → Bool)
    → Made server k left j (attempts memory left k server stops [])
unfolding attempts fetch_url
attempts-Made zero k j server stops = by_answer (server k) refl
  where
    by_answer :
        (a : Attempt) → server k ≡ a → Made server k 0 j (attempts memory 0 k server stops [])
    by_answer invalid_url e = ground (arith, e)
    by_answer request_fails e = ground (arith, e)
    by_answer (status c) e = ground (arith, e)
    by_answer (complete bs) e = ground (arith, e)
    by_answer (breaks bs) e = ground (arith, e)
    by_answer (write_fails bs) e = ground (arith, e)
attempts-Made (suc left) k j server stops =
    by_answer (server k) refl (attempts-Made left (k + 1) j server stops)
  where
    by_answer :
        (a : Attempt)
        → server k ≡ a
        → Made server (k + 1) left j (attempts memory left (k + 1) server stops [])
        → Made server k (suc left) j (attempts memory (suc left) k server stops [])
    by_answer invalid_url e ih = ground (arith, e)
    by_answer request_fails e ih = ground (arith, e, ih, same_or_not j k)
    by_answer (status c) e ih = ground (arith, e, ih, same_or_not j k)
    by_answer (complete bs) e ih = ground (arith, e)
    by_answer (breaks bs) e ih = ground (arith, e, ih, same_or_not j k)
    by_answer (write_fails bs) e ih = ground (arith, e)

-- A download makes nine attempts at most, and makes another only after a failed request, a status
-- that is neither 200 nor 4xx, or a broken connection. Where it returns no error, the target is the
-- body of the last attempt, complete, with nothing left of earlier ones; where it returns one, the
-- target is empty, unless the target could not be written to.
pub download-complete :
    (server : ℕ → Attempt) (stops : ℕ → Bool) (j : ℕ)
    → let (t, err, made) = fetch_with_retries memory server stops [] in
      (0 < made)
      × (made ≤ max_retries + 1)
      × ((made ≤ j + 1) ⊎ (is_retried (server j) ≡ true))
      × (((err ≡ none) × (server (made - 1) ≡ complete t))
          ⊎ (err ≡ some write_error)
          ⊎ ((err ≢ none) × (t ≡ [])))
unfolding fetch_with_retries
download-complete server stops j =
    let m = attempts-Made max_retries 0 j server stops in
    (m.some_made, m.bounded, ground (arith, m.retried), m.left_over)
