-- ===== src/Fetching/Hashed.antt =====
-- runtime/fetcher/urlhash.go: Fetch. A hash is a number, and the four functions are an argument; a
-- hash of a reference is `none` where it is the empty string.
use taskcluster_worker.Prelude.{
  ℕ, ◌+◌, ◌-◌, ◌≤◌, ◌≡◌, ◌≢◌, ◌⊎◌, Bool, true, false, List, [], ◌∷◌, ◌++◌, Option, none, some, zero,
  suc, refl, ap, sym, ◌∙◌, arith, if◌then◌else◌, ◌==◌,
}
use taskcluster_worker.Fetching.Download.{
  Attempt, invalid_url, request_fails, status, complete, breaks, write_fails, FetchError,
  broken_reference, write_error, WriteReseter, memory, max_retries, fetch_url, attempts,
  fetch_with_retries, download-complete,
}

pub data Algorithm : Type 0 where
  md5 sha1 sha256 sha512 : Algorithm

pub record HashReference : Type 0 where
  pub md5_sum : Option ℕ
  pub sha1_sum : Option ℕ
  pub sha256_sum : Option ℕ
  pub sha512_sum : Option ℕ

-- One of `hashers`, `hashalg` and `hashsum`: a hash.Hash has what was written to it since it was made
-- or reset, and its Sum is that of these bytes.
pub record Hasher : Type 0 where
  pub algorithm : Algorithm
  pub expected : ℕ
  pub written : List ℕ

abbrev hasher : Algorithm → Option ℕ → List Hasher
hasher a none = []
hasher a (some sum) = record { algorithm = a; expected = sum; written = [] } ∷ []

unfoldable pub hashers : HashReference → List Hasher
hashers r =
    (hasher md5 r.md5_sum ++ hasher sha1 r.sha1_sum)
    ++ (hasher sha256 r.sha256_sum ++ hasher sha512 r.sha512_sum)

-- `hashWriteReseter`: both of its methods have a loop over the hashers, and then call the target's.
unfoldable write_hashers : List ℕ → List Hasher → List Hasher
write_hashers bytes [] = []
write_hashers bytes (h ∷ hs) = record h { written = h.written ++ bytes } ∷ write_hashers bytes hs

unfoldable reset_hashers : List Hasher → List Hasher
reset_hashers [] = []
reset_hashers (h ∷ hs) = record h { written = [] } ∷ reset_hashers hs

unfoldable pub hash_write_reseter : {T : Type 0} → WriteReseter T → WriteReseter (T × List Hasher)
unfolding write_hashers reset_hashers
hash_write_reseter w = record {
  write = λ s bytes. (w.write s.0 bytes, write_hashers bytes s.1);
  reset = λ s. (w.reset s.0, reset_hashers s.1);
}

-- The loop over the hashers, which ends at a sum that differs.
unfoldable pub all_match : (Algorithm → List ℕ → ℕ) → List Hasher → Bool
all_match hash [] = true
all_match hash (h ∷ hs) =
    let rest = all_match hash hs in if h.expected == hash h.algorithm h.written then rest else false

-- `urlHashReference.Fetch`.
unfoldable pub fetch_hashed :
    {T : Type 0}
    → WriteReseter T
    → (Algorithm → List ℕ → ℕ)
    → HashReference
    → (ℕ → Attempt)
    → (ℕ → Bool)
    → T
    → T × Option FetchError × ℕ
unfolding hashers all_match hash_write_reseter
fetch_hashed w hash r server stops target =
    let ((t, hs), err, made) =
      fetch_with_retries (hash_write_reseter w) server stops (target, hashers r) in
    elim err [
      | some e ↦ (t, some e, made)
      | none ↦
          if all_match hash hs then (t, none, made) else (w.reset t, some broken_reference, made)
    ]

-- What the download makes of a target that stands for another, the writer of which it matches.
module _ {T U : Type 0} (w : WriteReseter T) (v : WriteReseter U) (f : T → U)
    (writes : (t : T) (bytes : List ℕ) → f (w.write t bytes) ≡ v.write (f t) bytes)
    (resets : (t : T) → f (w.reset t) ≡ v.reset (f t)) where
  fetch_url-f :
      (a : Attempt) (t : T)
      → fetch_url v a (f t) ≡ (f (fetch_url w a t).0, (fetch_url w a t).1, (fetch_url w a t).2)
  unfolding fetch_url
  fetch_url-f invalid_url t = refl
  fetch_url-f request_fails t = refl
  fetch_url-f (status c) t = refl
  fetch_url-f (complete bs) t = ground (arith, writes t bs)
  fetch_url-f (breaks bs) t = ground (arith, writes t bs)
  fetch_url-f (write_fails bs) t = ground (arith, writes t bs)

  attempts-f :
      (left k : ℕ) (server : ℕ → Attempt) (stops : ℕ → Bool) (t : T)
      → attempts v left k server stops (f t)
        ≡ (let (u, err, made) = attempts w left k server stops t in (f u, err, made))
  unfolding attempts
  attempts-f zero k server stops t =
      ground (arith, fetch_url-f (server k) t, resets (fetch_url w (server k) t).0)
  attempts-f (suc left) k server stops t = ground (
    arith,
    fetch_url-f (server k) t,
    resets (fetch_url w (server k) t).0,
    attempts-f left (k + 1) server stops (w.reset (fetch_url w (server k) t).0),
  )

-- The hashers, when the target has these bytes.
abbrev feed : List ℕ → List Hasher → List Hasher
feed t [] = []
feed t (h ∷ hs) = record h { written = t } ∷ feed t hs

feed-write :
    (t bytes : List ℕ) (hs : List Hasher) → feed (t ++ bytes) hs ≡ write_hashers bytes (feed t hs)
unfolding write_hashers
feed-write t bytes [] = refl
feed-write t bytes (h ∷ hs) = ap (◌∷◌ (record h { written = t ++ bytes })) (feed-write t bytes hs)

feed-reset : (t : List ℕ) (hs : List Hasher) → feed [] hs ≡ reset_hashers (feed t hs)
unfolding reset_hashers
feed-reset t [] = refl
feed-reset t (h ∷ hs) = ap (◌∷◌ (record h { written = [] })) (feed-reset t hs)

feed-hashers : (r : HashReference) → feed [] (hashers r) ≡ hashers r
unfolding hashers
feed-hashers r = ground arith

-- The hashers have at every time what the target has.
fetch-hashers :
    (r : HashReference) (server : ℕ → Attempt) (stops : ℕ → Bool)
    → let (t, err, made) = fetch_with_retries memory server stops [] in
      fetch_with_retries (hash_write_reseter memory) server stops ([], hashers r)
      ≡ ((t, feed t (hashers r)), err, made)
unfolding fetch_with_retries hash_write_reseter
fetch-hashers r server stops =
    sym (
      ap (λ hs. attempts (hash_write_reseter memory) max_retries 0 server stops ([], hs))
        (feed-hashers r))
    ∙ attempts-f memory (hash_write_reseter memory) (λ t. (t, feed t (hashers r)))
        (λ t bytes. ap (λ hs. (t ++ bytes, hs)) (feed-write t bytes (hashers r)))
        (λ t. ap (λ hs. ([], hs)) (feed-reset t (hashers r))) max_retries 0 server stops []

abbrev Matches : (Algorithm → List ℕ → ℕ) → Algorithm → Option ℕ → List ℕ → Type 0
Matches hash a sum t = (sum ≡ none) ⊎ (sum ≡ some (hash a t))

checks :
    (hash : Algorithm → List ℕ → ℕ) (r : HashReference) (t : List ℕ)
    → all_match hash (feed t (hashers r)) ≡ true
    → Matches hash md5 r.md5_sum t
      × Matches hash sha1 r.sha1_sum t
      × Matches hash sha256 r.sha256_sum t
      × Matches hash sha512 r.sha512_sum t
unfolding hashers all_match
checks hash r t h = ground (arith, h)

-- A reference with hashes is fetched without an error only if the target is a complete body that a
-- server sent, after nine attempts at most, and each declared hash is that of this body. Where it is
-- fetched with an error, the target is empty, unless it could not be written to.
pub hashed-checked :
    (hash : Algorithm → List ℕ → ℕ) (r : HashReference) (server : ℕ → Attempt) (stops : ℕ → Bool)
    → let (t, err, made) = fetch_hashed memory hash r server stops [] in
      (made ≤ max_retries + 1)
      × (((err ≡ none)
            × (server (made - 1) ≡ complete t)
            × ((r.md5_sum ≡ none) ⊎ (r.md5_sum ≡ some (hash md5 t)))
            × ((r.sha1_sum ≡ none) ⊎ (r.sha1_sum ≡ some (hash sha1 t)))
            × ((r.sha256_sum ≡ none) ⊎ (r.sha256_sum ≡ some (hash sha256 t)))
            × ((r.sha512_sum ≡ none) ⊎ (r.sha512_sum ≡ some (hash sha512 t))))
          ⊎ (err ≡ some write_error)
          ⊎ ((err ≢ none) × (t ≡ [])))
unfolding fetch_hashed
hashed-checked hash r server stops = ground (
  arith,
  download-complete server stops 0,
  fetch-hashers r server stops,
  checks hash r (fetch_with_retries memory server stops []).0,
)
