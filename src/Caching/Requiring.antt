-- ===== src/Caching/Requiring.antt =====
-- Cache.Require of runtime/caching/cache.go, up to the wait for the entry to be created. Each entry of
-- the cache stands with whether its context lets the request join it.
use taskcluster_worker.Prelude.{
  ℕ, ◌≡◌, inl, inr, refl, ap, Bool, true, false, List, [], ◌∷◌, ◌++◌, Option, none, some, arith,
  any, map, Bool-cases, if◌then◌else◌,
}
use taskcluster_worker.Caching.Entry.{Entry, new_entry, is_usable, take}

abbrev pub usable : Bool → ℕ → Entry × Bool → Bool
usable shared hash x = is_usable shared hash x.1 x.0

abbrev pub entries_of : List (Entry × Bool) → List Entry
entries_of = map (λ x. x.0)

-- The loop over the entries, which breaks at the first that it takes.
unfoldable pub take_first : Bool → ℕ → List (Entry × Bool) → Option (List Entry)
unfolding is_usable take
take_first shared hash [] = none
take_first shared hash ((e, joins) ∷ rest) =
    let later = take_first shared hash rest in
    if is_usable shared hash joins e
    then some (take e ∷ entries_of rest)
    else elim later [ none ↦ none | some es ↦ some (e ∷ es) ]

-- The entries after the loop, and whether a new one was made.
abbrev pub or_new : ℕ → List (Entry × Bool) → Option (List Entry) → List Entry × Bool
or_new hash es none = (entries_of es ++ new_entry hash ∷ [], true)
or_new hash es (some es') = (es', false)

unfoldable pub require : Bool → ℕ → List (Entry × Bool) → List Entry × Bool
unfolding take_first
require shared hash es = or_new hash es (take_first shared hash es)

-- What a request does: it takes the first entry that is usable, or there is none.
pub data Required (shared : Bool) (hash : ℕ) (es : List (Entry × Bool)) (r : List Entry × Bool)
    : Type 0 where
  miss :
      any (usable shared hash) es ≡ false
      → r ≡ (entries_of es ++ new_entry hash ∷ [], true)
      → Required shared hash es r
  hit :
      (before : List (Entry × Bool)) (e : Entry) (joins : Bool) (after : List (Entry × Bool))
      → es ≡ before ++ (e, joins) ∷ after
      → any (usable shared hash) before ≡ false
      → is_usable shared hash joins e ≡ true
      → r ≡ (entries_of before ++ take e ∷ entries_of after, false)
      → Required shared hash es r

Required-later :
    (shared : Bool) (hash : ℕ) (x : Entry × Bool) (es : List (Entry × Bool))
    (o : Option (List Entry))
    → usable shared hash x ≡ false
    → Required shared hash es (or_new hash es o)
    → Required shared hash
        (x ∷ es)
        (or_new hash (x ∷ es) (elim o [ none ↦ none | some ys ↦ some (x.0 ∷ ys) ]))
Required-later shared hash x es none n (miss a q) = miss (ground arith) refl
Required-later shared hash x es (some ys) n (miss a q) = absurd (ground (arith, q))
Required-later shared hash x es none n (hit before e joins after p b u q) =
    absurd (ground (arith, q))
Required-later shared hash x es (some ys) n (hit before e joins after p b u q) =
    hit (x ∷ before) e joins after (ap (◌∷◌ x) p) (ground (arith, n, b)) u
      (ap (λ r. (x.0 ∷ r.0, r.1)) q)

take_first-Required :
    (shared : Bool) (hash : ℕ) (es : List (Entry × Bool))
    → Required shared hash es (or_new hash es (take_first shared hash es))
unfolding take_first
take_first-Required shared hash [] = miss refl refl
take_first-Required shared hash ((e, joins) ∷ rest) =
    elim (Bool-cases (is_usable shared hash joins e)) [
      | inl u ↦ hit [] e joins rest refl refl u (rw u refl)
      | inr n ↦ rw n (
          Required-later shared hash (e, joins) rest (take_first shared hash rest) n
            (take_first-Required shared hash rest))
    ]

-- A request takes the first entry that has its options, is neither purged nor disposed of, is free
-- or may be shared, and is created or lets the request join; it changes no other entry, and it makes
-- a new one exactly when there is none of these.
require-Required :
    (shared : Bool) (hash : ℕ) (es : List (Entry × Bool))
    → Required shared hash es (require shared hash es)
unfolding require
require-Required shared hash es = take_first-Required shared hash es
