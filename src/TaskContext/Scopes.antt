-- ===== src/TaskContext/Scopes.antt =====
-- TaskContext.HasScopes. A scope is the list of its bytes.
use taskcluster_worker.Prelude.{
  ℕ, ◌≡◌, ◌↔◌, refl, ap, Bool, true, false, ◌&&◌, ◌||◌, List, [], ◌∷◌, ◌++◌, arith, ◌==◌, inl, inr,
  if◌then◌else◌, All, Any, any, all, any_iff, all_iff, Bool-cases,
}

abbrev pub Scope : Type 0
Scope = List ℕ

-- Go's `==` on strings.
pub same : Scope → Scope → Bool
same [] [] = true
same (x ∷ xs) (y ∷ ys) = x == y && same xs ys
same _ _ = false

-- `strings.HasPrefix(required, prefix)`, with the prefix first.
pub has_prefix : Scope → Scope → Bool
has_prefix [] _ = true
has_prefix (x ∷ xs) [] = false
has_prefix (x ∷ xs) (y ∷ ys) = x == y && has_prefix xs ys

-- `strings.HasSuffix(scope, "*")`.
pub ends_in_star : Scope → Bool
ends_in_star [] = false
ends_in_star (x ∷ []) = x == b'*'
ends_in_star (x ∷ y ∷ rest) = ends_in_star (y ∷ rest)

-- `scope[0:len(scope)-1]`, of a scope that is not empty.
pub but_last : Scope → Scope
but_last [] = []
but_last (x ∷ []) = []
but_last (x ∷ y ∷ rest) = x ∷ but_last (y ∷ rest)

-- The condition of the inner `if`.
pub covers : Scope → Scope → Bool
unfolding same has_prefix ends_in_star but_last
covers required scope =
    same required scope || ends_in_star scope && has_prefix (but_last scope) required

-- The loop over `c.Scopes` for one required scope, which breaks at the first that covers it.
pub is_covered : List Scope → Scope → Bool
is_covered [] required = false
is_covered (scope ∷ scopes) required =
    let rest = is_covered scopes required in if covers required scope then true else rest

-- The loop over one scope-set, which breaks at the first required scope that is not covered.
pub is_satisfied : List Scope → List Scope → Bool
is_satisfied scopes [] = true
is_satisfied scopes (required ∷ set) =
    let rest = is_satisfied scopes set in if is_covered scopes required then rest else false

-- `HasScopes`, given `c.Scopes`.
unfoldable pub has_scopes : List Scope → List (List Scope) → Bool
unfolding covers is_covered is_satisfied
has_scopes scopes [] = false
has_scopes scopes (set ∷ sets) =
    let rest = has_scopes scopes sets in if is_satisfied scopes set then true else rest

-- The rule of taskcluster: a scope covers itself, and one that ends in `*` all that begin with the
-- rest of it.
pub data Covers (scope required : Scope) : Type 0 where
  itself : required ≡ scope → Covers scope required
  below :
      (prefix rest : Scope)
      → scope ≡ prefix ++ b'*' ∷ []
      → required ≡ prefix ++ rest
      → Covers scope required

same_iff : (xs ys : Scope) → (same xs ys ≡ true) ↔ (xs ≡ ys)
unfolding same
same_iff [] [] = (λ e. refl, λ e. refl)
same_iff [] (y ∷ ys) = (λ e. cc, λ e. cc)
same_iff (x ∷ xs) [] = (λ e. cc, λ e. cc)
same_iff (x ∷ xs) (y ∷ ys) =
    (λ e. ground (arith, same_iff xs ys), λ e. ground (arith, same_iff xs ys))

has_prefix_rest : (xs ys : Scope) → has_prefix xs ys ≡ true → (r : Scope) × (ys ≡ xs ++ r)
unfolding has_prefix
has_prefix_rest [] ys h = (ys, refl)
has_prefix_rest (x ∷ xs) [] h = cc
has_prefix_rest (x ∷ xs) (y ∷ ys) h =
    let (r, e) = has_prefix_rest xs ys (ground arith) in (r, ground arith)

has_prefix-append : (xs r : Scope) → has_prefix xs (xs ++ r) ≡ true
unfolding has_prefix
has_prefix-append [] r = refl
has_prefix-append (x ∷ xs) r = ground (arith, has_prefix-append xs r)

star_split : (s : Scope) → ends_in_star s ≡ true → s ≡ but_last s ++ b'*' ∷ []
unfolding ends_in_star but_last
star_split [] h = cc
star_split (x ∷ []) h = ground arith
star_split (x ∷ y ∷ rest) h = ap (◌∷◌ x) (star_split (y ∷ rest) h)

ends_in_star-append : (p : Scope) → ends_in_star (p ++ b'*' ∷ []) ≡ true
unfolding ends_in_star
ends_in_star-append [] = refl
ends_in_star-append (x ∷ []) = refl
ends_in_star-append (x ∷ y ∷ p) = ends_in_star-append (y ∷ p)

but_last-append : (p : Scope) → but_last (p ++ b'*' ∷ []) ≡ p
unfolding but_last
but_last-append [] = refl
but_last-append (x ∷ []) = refl
but_last-append (x ∷ y ∷ p) = ap (◌∷◌ x) (but_last-append (y ∷ p))

covers_iff : (required scope : Scope) → (covers required scope ≡ true) ↔ Covers scope required
unfolding covers
covers_iff r s = (to, from)
  where
    to : covers r s ≡ true → Covers s r
    to h = elim (Bool-cases (same r s)) [
      | inl e ↦ itself ((same_iff r s).0 e)
      | inr e ↦
          let (rest, q) = has_prefix_rest (but_last s) r (ground arith) in
          below (but_last s) rest (star_split s (ground arith)) q
    ]

    from : Covers s r → covers r s ≡ true
    from (itself e) = ground (arith, (same_iff r s).1 e)
    from (below p rest es er) =
        rw (es, er, ends_in_star-append p, but_last-append p, has_prefix-append p rest)
          (ground arith)

is_covered-any : (scopes : List Scope) (r : Scope) → is_covered scopes r ≡ any (covers r) scopes
unfolding is_covered
is_covered-any [] r = refl
is_covered-any (s ∷ scopes) r = ground (arith, is_covered-any scopes r)

is_satisfied-all : (scopes set : List Scope) → is_satisfied scopes set ≡ all (is_covered scopes) set
unfolding is_satisfied
is_satisfied-all scopes [] = refl
is_satisfied-all scopes (r ∷ set) = ground (arith, is_satisfied-all scopes set)

has_scopes-any :
    (scopes : List Scope) (sets : List (List Scope))
    → has_scopes scopes sets ≡ any (is_satisfied scopes) sets
unfolding has_scopes
has_scopes-any scopes [] = refl
has_scopes-any scopes (set ∷ sets) = ground (arith, has_scopes-any scopes sets)

-- The scopes of a task satisfy a scope-set: each scope in it is covered by one of the task's.
abbrev pub Satisfies : List Scope → List Scope → Type 0
Satisfies scopes = All (λ required. Any (λ scope. Covers scope required) scopes)

is_covered_iff :
    (scopes : List Scope) (r : Scope)
    → (is_covered scopes r ≡ true) ↔ Any (λ scope. Covers scope r) scopes
is_covered_iff scopes r =
    rw is_covered-any (any_iff (λ s. Covers s r) (covers r) (covers_iff r) scopes)

is_satisfied_iff :
    (scopes set : List Scope) → (is_satisfied scopes set ≡ true) ↔ Satisfies scopes set
is_satisfied_iff scopes set =
    rw is_satisfied-all
      (all_iff (λ r. Any (λ s. Covers s r) scopes) (is_covered scopes) (is_covered_iff scopes) set)

-- `HasScopes` answers true exactly when one of the scope-sets is satisfied: each scope in it is,
-- or is matched by a `*` at the end of, one of the task's scopes.
pub has_scopes_iff :
    (scopes : List Scope) (sets : List (List Scope))
    → (has_scopes scopes sets ≡ true) ↔ Any (Satisfies scopes) sets
has_scopes_iff scopes sets =
    rw has_scopes-any
      (any_iff (Satisfies scopes) (is_satisfied scopes) (is_satisfied_iff scopes) sets)
